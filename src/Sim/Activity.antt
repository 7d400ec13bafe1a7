-- ===== src/Sim/Activity.antt =====
-- The counts of bot activity. Only fills of the contestant's own orders reach them, and the taker of
-- such a fill is the contestant.
use vidhi_trading_platform.Prelude.{
  String, ◌≡◌, refl, inl, inr, List, [], ◌∷◌, All, All-append, ℤ, pos, ◌-ℤ◌, leb_ℤ, min_ℤ,
  Bool-cases, Option-cases, ◌∙◌, ap,
}
use vidhi_trading_platform.Lob.Types.{Side, buy, sell, Order, Fill, Lob}
use vidhi_trading_platform.Lob.Book.{get_level}
use vidhi_trading_platform.Lob.Orders.{own_book}
use vidhi_trading_platform.Lob.Market.{
  match_orders, match_prices, market_order, opposite, sorted_prices,
}
use vidhi_trading_platform.Lob.Market.Conserve.{
  match_prices_stop, match_prices_missing, match_prices_found,
}
use vidhi_trading_platform.Sim.Types.{
  Call, limit_buy, limit_sell, market_buy, market_sell, cancel, BotActivity, Environment, Sim,
  contestant_name,
}
use vidhi_trading_platform.Sim.Process.{Desk, blocked, execute, process}
use vidhi_trading_platform.Sim.Ledger.{count_fill, count_fills}
use vidhi_trading_platform.Sim.Tick.{run_tick}

-- Every fill names the one who placed the market order.
match_orders_taker :
    (side : Side) (who : String) (p : ℤ) (os : List Order) (volume r : ℤ)
    → All (λ f. f.participant_id ≡ who) (match_orders side who p os volume r).fills
unfolding match_orders
match_orders_taker side who p [] volume r = tt
match_orders_taker side who p (o ∷ os) volume r =
    let v = min_ℤ o.volume r in
    elim (Bool-cases (leb_ℤ r (pos 0))) [
      | inl stop ↦ rw stop tt
      | inr go ↦ rw go (refl, match_orders_taker side who p os (volume -ℤ v) (r -ℤ v))
    ]

match_prices_taker :
    (side : Side) (who : String) (ps : List ℤ) (r : ℤ) (lob : Lob)
    → All (λ f. f.participant_id ≡ who) (match_prices side who ps r lob).fills
unfolding match_prices
match_prices_taker side who [] r lob = tt
match_prices_taker side who (p ∷ ps) r lob = elim (Bool-cases (leb_ℤ r (pos 0))) [
  | inl stop ↦ rw (match_prices_stop side who p ps r lob stop) tt
  | inr go ↦ elim (Option-cases (get_level p (own_book (opposite side) lob))) [
    | inl missing ↦
        rw (match_prices_missing side who p ps r lob go missing)
          (match_prices_taker side who ps r lob)
    | inr (l, found) ↦ rw (match_prices_found side who p l ps r lob go found) (
        All-append (λ f. f.participant_id ≡ who) (match_orders side who p l.orders l.volume r).fills
          _ (match_orders_taker side who p l.orders l.volume r)
          (match_prices_taker side who ps _ _))
  ]
]

abbrev pub IsContestant : Fill → Type 0
IsContestant f = f.participant_id ≡ contestant_name

pub market_order_taker :
    (side : Side) (volume : ℤ) (lob : Lob)
    → All IsContestant (market_order side volume contestant_name lob).fills
unfolding market_order
market_order_taker side volume lob =
    match_prices_taker side contestant_name (sorted_prices side lob) volume lob

execute_taker :
    (c : Call) (d : Desk) → All IsContestant d.fills → All IsContestant (execute c d).fills
unfolding execute
execute_taker (market_buy v) d h =
    All-append IsContestant d.fills _ h (market_order_taker buy v d.lob)
execute_taker (market_sell v) d h =
    All-append IsContestant d.fills _ h (market_order_taker sell v d.lob)
execute_taker (limit_buy p v) d h = h
execute_taker (limit_sell p v) d h = h
execute_taker (cancel i) d h = h

pub process_taker :
    (position : ℤ) (cs : List Call) (d : Desk)
    → All IsContestant d.fills
    → All IsContestant (process position cs d).fills
unfolding process
process_taker position [] d h = h
process_taker position (c ∷ cs) d h = elim (Bool-cases (blocked position c)) [
  | inl e ↦ rw (e, process) (process_taker position cs d h)
  | inr e ↦ rw (e, process) (process_taker position cs (execute c d) (execute_taker c d h))
]

count_fills_contestant :
    (fs : List Fill) (a : BotActivity) → All IsContestant fs → count_fills fs a ≡ a
unfolding count_fills count_fill
count_fills_contestant [] a h = refl
count_fills_contestant (f ∷ fs) a h =
    ap (count_fills fs) (one f.participant_id h.0) ∙ count_fills_contestant fs a h.1
  where
    one :
        (who : String)
        → who ≡ contestant_name
        → count_fill (record f { participant_id = who }) a ≡ a
    one who e = rw e refl

-- No tick ever changes the counts of bot activity, whatever the bots trade: they stay at the zeros
-- that the simulation begins with.
bot_activity_constant :
    (env : Environment) (s : Sim) → (run_tick env s).bot_activity ≡ s.bot_activity
unfolding run_tick
bot_activity_constant env s =
    count_fills_contestant _ s.bot_activity (process_taker s.position _ _ tt)
