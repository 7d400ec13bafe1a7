-- ===== src/Sim/Process.antt =====
-- Steps 5 of `runBatch`: the contestant's orders reach the book, and the oldest of more than 200
-- limit orders are cancelled.
use vidhi_trading_platform.Prelude.{
  ℕ, Bool, false, ◌&&◌, List, [], ◌∷◌, ◌++◌, Option, none, some, ℤ, pos, ltb, ltb_ℤ, leb_ℤ, abs_ℤ,
  str_eq, length, if◌then◌else◌,
}
use vidhi_trading_platform.Lob.Types.{Side, buy, sell, Book, Fill, Lob}
use vidhi_trading_platform.Lob.Orders.{add_order, cancel_order, find_order}
use vidhi_trading_platform.Lob.Market.{market_order}
use vidhi_trading_platform.Sim.Types.{
  Call, limit_buy, limit_sell, market_buy, market_sell, cancel, Queued, contestant_name,
  position_limit,
}

-- The locals of the loop over the contestant's orders.
pub record Desk : Type 0 where
  pub lob : Lob
  pub queue : List Queued
  pub fills : List Fill

-- The guard on market orders that would add to a position at its limit.
unfoldable pub blocked : ℤ → Call → Bool
blocked position (market_buy v) = leb_ℤ position_limit (abs_ℤ position) && ltb_ℤ (pos 0) position
blocked position (market_sell v) = leb_ℤ position_limit (abs_ℤ position) && ltb_ℤ position (pos 0)
blocked position _ = false

-- The price of the first level that has the contestant's order of this id.
unfoldable pub find_own : ℕ → Book → Option ℤ
find_own i [] = none
find_own i ((p, l) ∷ b) =
    let rest = find_own i b in
    elim (find_order i l.orders) [
      | none ↦ rest
      | some o ↦ if str_eq o.participant_id contestant_name then some p else rest
    ]

-- The search of the cancel order, bids first.
unfoldable pub cancel_own : ℕ → Lob → Lob
unfolding find_own
cancel_own i lob = elim (find_own i lob.bids) [
  | some p ↦ (cancel_order buy p i lob).1
  | none ↦ elim (find_own i lob.asks) [ some p ↦ (cancel_order sell p i lob).1 | none ↦ lob ]
]

unfoldable pub trade : Side → ℤ → Desk → Desk
trade side volume d =
    let e = market_order side volume contestant_name d.lob in
    record d { lob = e.lob; fills = d.fills ++ e.fills }

unfoldable pub rest_order : Side → ℤ → ℤ → Desk → Desk
rest_order side price volume d =
    let (i, lob) = add_order side price volume contestant_name d.lob in
    record d { lob = lob; queue = d.queue ++ (record { side = side; price = price; id = i } ∷ []) }

unfoldable pub execute : Call → Desk → Desk
unfolding trade rest_order cancel_own
execute (market_buy volume) d = trade buy volume d
execute (market_sell volume) d = trade sell volume d
execute (limit_buy price volume) d = rest_order buy price volume d
execute (limit_sell price volume) d = rest_order sell price volume d
execute (cancel i) d = record d { lob = cancel_own i d.lob }

-- The loop over the contestant's orders, at the position that the tick began with.
unfoldable pub process : ℤ → List Call → Desk → Desk
process position [] d = d
process position (c ∷ cs) d = process position cs (if blocked position c then d else execute c d)

-- `while (contestantOrdersQueue.length > 200)`
unfoldable pub flush : List Queued → Lob → List Queued × Lob
flush [] lob = ([], lob)
flush (q ∷ qs) lob =
    let rest = flush qs (cancel_order q.side q.price q.id lob).1 in
    if ltb 200 (length (q ∷ qs)) then rest else (q ∷ qs, lob)
