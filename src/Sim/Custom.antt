-- ===== src/Sim/Custom.antt =====
-- `CustomBotRunner`: a bot that runs code of its own on what the contestant sees. `addCustomBots` adds
-- such bots to the fleet; the tick loop runs the five built-in ones only.
pub mod Owned
use vidhi_trading_platform.Prelude.{
  ℕ, ◌||◌, String, str_eq, List, [], ◌∷◌, ◌++◌, Option, none, some, ℤ, pos, ◌+ℤ◌, if◌then◌else◌,
}
use vidhi_trading_platform.Lob.Types.{buy, sell, Book, Fill, Lob}
use vidhi_trading_platform.Lob.Orders.{add_order, cancel_order, find_order}
use vidhi_trading_platform.Lob.Market.{market_order}
use vidhi_trading_platform.Lob.Views.{Snapshot}
use vidhi_trading_platform.Bots.Signal.{Signal}
use vidhi_trading_platform.Sim.Types.{
  View, Outcome, Slots, Call, limit_buy, limit_sell, market_buy, market_sell, cancel, Environment,
  starting_cash,
}
use vidhi_trading_platform.Sim.Contestant.{view, run_contestant}
use vidhi_trading_platform.Sim.Ledger.{taker_sign}

pub record CustomBot : Type 0 where
  pub name : String
  pub slots : Slots

-- The price of the first level that has an order of this id, if the order is the bot's.
unfoldable pub find_by : String → ℕ → Book → Option ℤ
find_by who i [] = none
find_by who i ((p, l) ∷ b) =
    let rest = find_by who i b in
    elim (find_order i l.orders) [
      | none ↦ rest
      | some o ↦ if str_eq o.participant_id who then some p else rest
    ]

-- The cancel branch of `compute`, bids first.
unfoldable pub cancel_by : String → ℕ → Lob → Lob
cancel_by who i lob = elim (find_by who i lob.bids) [
  | some p ↦ (cancel_order buy p i lob).1
  | none ↦ elim (find_by who i lob.asks) [ some p ↦ (cancel_order sell p i lob).1 | none ↦ lob ]
]

-- The branches of `compute` on the type of an order.
unfoldable pub execute_by : String → Call → Lob → Lob
execute_by who (market_buy volume) lob = (market_order buy volume who lob).lob
execute_by who (market_sell volume) lob = (market_order sell volume who lob).lob
execute_by who (limit_buy price volume) lob = (add_order buy price volume who lob).1
execute_by who (limit_sell price volume) lob = (add_order sell price volume who lob).1
execute_by who (cancel i) lob = cancel_by who i lob

unfoldable pub execute_all_by : String → List Call → Lob → Lob
execute_all_by who [] lob = lob
execute_all_by who (c ∷ cs) lob = execute_all_by who cs (execute_by who c lob)

-- `compute`: no fills, the position of the slots, the starting cash and no profit.
unfoldable pub compute_custom : Environment → Snapshot → Signal → CustomBot × Lob → CustomBot × Lob
compute_custom env snap signal (bot, lob) =
    let v = view snap signal.fair_value bot.slots.my_position starting_cash (pos 0) in
    let (calls, slots) = run_contestant env v bot.slots in
    (record bot { slots = slots }, execute_all_by bot.name calls lob)

-- `onFill`
unfoldable pub on_fill_custom : Fill → CustomBot → CustomBot
on_fill_custom f bot =
    let moved = bot.slots.my_position +ℤ taker_sign f.side f.volume in
    if str_eq f.participant_id bot.name || str_eq f.maker_participant_id bot.name
    then record bot { slots = record (bot.slots) { my_position = moved } }
    else bot

abbrev pub no_slots : Slots
no_slots = record {
  ema_fast = pos 0;
  ema_slow = pos 0;
  tick_count = pos 0;
  my_position = pos 0;
  s0 = pos 0;
  s1 = pos 0;
  s2 = pos 0;
  s3 = pos 0;
  s4 = pos 0;
  s5 = pos 0;
  s6 = pos 0;
  s7 = pos 0;
}

-- The bots that were added, each with the function of its code where that compiles, and `BOT_ACTIVITY`.
pub record Fleet : Type 0 where
  pub added : List (CustomBot × Option (View → Slots → Outcome))
  pub activity : List (String × ℕ)

-- `BOT_ACTIVITY[name] = 0`
unfoldable pub clear_activity : String → List (String × ℕ) → List (String × ℕ)
clear_activity name [] = (name, 0) ∷ []
clear_activity name ((other, n) ∷ rest) =
    if str_eq other name then (name, 0) ∷ rest else (other, n) ∷ clear_activity name rest

-- `addCustomBots`, on the name and the code of each bot; `compile` gives the function of a code.
unfoldable pub add_custom_bots :
    (String → Option (View → Slots → Outcome)) → List (String × String) → Fleet → Fleet
unfolding clear_activity
add_custom_bots compile [] f = f
add_custom_bots compile ((name, code) ∷ rest) f = add_custom_bots compile rest (record {
  added = f.added ++ ((record { name = name; slots = no_slots }, compile code) ∷ []);
  activity = clear_activity name f.activity;
})
