-- ===== src/Tests/Sim.antt =====
-- A small simulation: a contestant that bids and buys on every tick, over five ticks.
use vidhi_trading_platform.Prelude.{
  true, false, ◌≡◌, refl, List, [], ◌∷◌, some, none, arith, pos, ◌+ℤ◌, ◌-ℤ◌, min_ℤ, negsuc, ◌≤ℤ◌,
  ◌<ℤ◌, ◌⊎◌,
}
use vidhi_trading_platform.Lob.Types.{buy, sell, Fill, empty_lob}
use vidhi_trading_platform.Bots.Signal.{Ratio}
use vidhi_trading_platform.Sim.Types.{
  Call, limit_buy, market_buy, market_sell, View, Slots, Outcome, Environment, Sim, starting_cash,
}
use vidhi_trading_platform.Sim.Contestant.{run_contestant}
use vidhi_trading_platform.Sim.Process.{Desk, process}
use vidhi_trading_platform.Sim.Ledger.{Account, settle}
use vidhi_trading_platform.Sim.Batch.{
  BotConfig, Message, init_simulation, run_ticks, run_batches, fresh,
}
use vidhi_trading_platform.Sim.Progress.{EndsWith, run_batches_end}
use vidhi_trading_platform.Sim.Fair.{IsFairCode}
use vidhi_trading_platform.Sim.Invariant.{IsValid, simulation-IsValid}
use vidhi_trading_platform.Sim.Accounts.{bought, sold, settle_position}
use vidhi_trading_platform.Sim.Guard.{execute_all, process_guarded}

abbrev pub code : View → Slots → Outcome
code v slots = record {
  calls = limit_buy v.bid_price (pos 5) ∷ market_buy (pos 2000) ∷ [];
  slots = slots;
  threw = false;
}

abbrev pub env : Environment
env = record {
  fn = some code;
  tick_ns = λ t. 100;
  dataset_prices = none;
  gbm = λ t. record { fair_value = pos 15_000_000; volatility = pos 0; is_news_event = false };
  max_ticks = 5;
}

abbrev one : Ratio
one = record { num = pos 1; den = 1 }

abbrev bots : BotConfig
bots = record { mm = one; mom = one; mr = one; noise = one; sniper = one }

abbrev pub start : Sim
start = record (fresh (pos 15_000_000) bots) { is_running = true }

code-IsFairCode : IsFairCode env
unfolding run_contestant min_ℤ
code-IsFairCode v slots = (omega arith, (tt, tt))

simulation-IsValid_example : IsValid (run_ticks env 3 (init_simulation env (pos 15_000_000) bots))
simulation-IsValid_example =
    simulation-IsValid env (pos 15_000_000) bots 3 code-IsFairCode (omega arith) (omega arith)
      (omega arith)

run_batches_end_example :
    (ms : List Message) × (end : Sim) × (run_batches 2 env start ≡ some (ms, end))
    × (end.is_running ≡ false)
    × (end.tick_count ≡ 5)
    × EndsWith 5 ms
unfolding fresh
run_batches_end_example = run_batches_end 1 env start refl (omega arith) (omega arith)

abbrev account : Account
account = record { position = pos 0; cash = starting_cash; total_fills = 0 }

abbrev taken : Fill
taken = record {
  price = pos 15_000_100;
  volume = pos 10;
  participant_id = "CONTESTANT";
  maker_participant_id = "BOT_MM";
  side = buy;
}

-- A fill of the contestant's own order by a bot.
abbrev filled : Fill
filled = record {
  price = pos 15_000_100;
  volume = pos 4;
  participant_id = "BOT_MOM";
  maker_participant_id = "CONTESTANT";
  side = buy;
}

abbrev self_sale : Fill
self_sale = record {
  price = pos 100;
  volume = pos 10;
  participant_id = "CONTESTANT";
  maker_participant_id = "CONTESTANT";
  side = sell;
}

settle_position_example :
    (settle (taken ∷ filled ∷ self_sale ∷ []) account).position
    ≡ pos 0 +ℤ bought (taken ∷ filled ∷ self_sale ∷ []) -ℤ sold (taken ∷ filled ∷ self_sale ∷ [])
settle_position_example = settle_position (taken ∷ filled ∷ self_sale ∷ []) account

net_of_fills :
    (bought (taken ∷ filled ∷ self_sale ∷ []) ≡ pos 20)
    × (sold (taken ∷ filled ∷ self_sale ∷ []) ≡ pos 14)
unfolding bought sold ◌+ℤ◌
net_of_fills = (refl, refl)

abbrev calls : List Call
calls = market_buy (pos 1000) ∷ market_buy (pos 1000) ∷ market_sell (pos 3) ∷ []

abbrev desk : Desk
desk = record { lob = empty_lob (pos 15_000_000); queue = []; fills = [] }

process_guarded_example :
    ((pos 1000 ≤ℤ negsuc 1499)
      × (process (negsuc 1499) calls desk ≡ execute_all (market_sell (pos 3) ∷ []) desk))
    ⊎ (((negsuc 1499 ≤ℤ negsuc 999)
          × (process (negsuc 1499) calls desk
              ≡ execute_all (market_buy (pos 1000) ∷ market_buy (pos 1000) ∷ []) desk))
        ⊎ ((negsuc 999 <ℤ negsuc 1499)
            × (negsuc 1499 <ℤ pos 1000)
            × (process (negsuc 1499) calls desk ≡ execute_all calls desk)))
process_guarded_example = process_guarded (negsuc 1499) calls desk
