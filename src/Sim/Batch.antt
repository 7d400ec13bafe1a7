-- ===== src/Sim/Batch.antt =====
-- `initSimulation`, `runBatch` and `STOP_SIMULATION`; the reports are in a module of their own.
mod Report
unfoldable pub use Report.*
use vidhi_trading_platform.Prelude.{
  ℕ, zero, suc, ◌-◌, ◌*◌, ◌/◌, ◌==◌, Bool, true, false, List, [], ◌∷◌, Option, none, some, length,
  drop, get_elem?, ℤ, pos, ◌*ℤ◌, round_div, ltb, ltb_ℤ, leb, if◌then◌else◌,
}
use vidhi_trading_platform.Lob.Types.{empty_lob}
use vidhi_trading_platform.Lob.Views.{Snapshot, snapshot}
use vidhi_trading_platform.Bots.Signal.{Ratio}
use vidhi_trading_platform.Bots.MarketMaker
use vidhi_trading_platform.Bots.MarketMaker.{new_market_maker}
use vidhi_trading_platform.Bots.Momentum.{new_momentum}
use vidhi_trading_platform.Bots.MeanReversion.{new_mean_reversion}
use vidhi_trading_platform.Bots.Noise.{new_noise}
use vidhi_trading_platform.Sim.Types.{
  Slots, Environment, BotActivity, Point, LogRow, Sim, starting_cash, tick_batch,
}
use vidhi_trading_platform.Sim.Tick.{price_signal, run_tick, to_cents}

-- The aggressiveness of each bot, as `parseBotConfig` reads it from the round.
pub record BotConfig : Type 0 where
  pub mm : Ratio
  pub mom : Ratio
  pub mr : Ratio
  pub noise : Ratio
  pub sniper : Ratio

abbrev pub zero_slots : Slots
zero_slots = record {
  ema_fast = pos 0;
  ema_slow = pos 0;
  tick_count = pos 0;
  my_position = pos 0;
  s0 = pos 0;
  s1 = pos 0;
  s2 = pos 0;
  s3 = pos 0;
  s4 = pos 0;
  s5 = pos 0;
  s6 = pos 0;
  s7 = pos 0;
}

abbrev pub no_activity : BotActivity
no_activity = record {
  bot_market_maker = 0;
  bot_momentum = 0;
  bot_mean_reversion = 0;
  bot_noise = 0;
  bot_sniper = 0;
}

-- The variables as `initSimulation` sets them, before the book is seeded.
unfoldable pub fresh : ℤ → BotConfig → Sim
unfolding empty_lob new_market_maker new_momentum new_mean_reversion new_noise
fresh base bc = record {
  is_running = false;
  tick_count = 0;
  last_fv = base;
  lob = empty_lob base;
  market_maker = new_market_maker bc.mm;
  momentum = new_momentum base bc.mom;
  mean_reversion = new_mean_reversion bc.mr;
  noise = new_noise bc.noise;
  sniper = bc.sniper;
  slots = zero_slots;
  position = pos 0;
  cash = starting_cash;
  pnl = pos 0;
  total_fills = 0;
  orders_queue = [];
  bot_activity = no_activity;
  pnl_history = [];
  latency_history = [];
  volume_history = [];
  log_rows = [];
}

-- `initSimulation`: the market maker quotes once at the signal of tick 0, if it is enabled.
unfoldable pub init_simulation : Environment → ℤ → BotConfig → Sim
unfolding fresh
init_simulation env base bc =
    let s = fresh base bc in
    let (signal, fv) = price_signal env 0 base in
    let (mm, lob) = MarketMaker.compute (snapshot s.lob) signal (s.market_maker, s.lob) in
    if ltb_ℤ (pos 0) bc.mm.num
    then record s { last_fv = fv; market_maker = mm; lob = lob }
    else record s { last_fv = fv }

-- The `for` loop of `runBatch`, with the rounds left. Nothing in a round stops the simulation, so
-- `isRunning` is as it was when the batch began.
unfoldable pub run_ticks : Environment → ℕ → Sim → Sim
run_ticks env zero s = s
run_ticks env (suc n) s =
    let rest = run_ticks env n (run_tick env s) in
    if ltb s.tick_count env.max_ticks then rest else s

-- `runBatch`: the state, the message posted, and whether another batch is scheduled.
unfoldable pub run_batch : Environment → Sim → Sim × Option Message × Bool
run_batch env s =
    let after = run_ticks env tick_batch s in
    if s.is_running
    then (if leb env.max_ticks s.tick_count
        then (record s { is_running = false }, some (simulation_complete (final_report s)), false)
        else (after, some (tick_update (telemetry env after)), true))
    else (s, none, false)

abbrev pub posted : Option Message → List Message → List Message
posted none ms = ms
posted (some m) ms = m ∷ ms

-- What follows a batch: nothing, or what `next` makes of the state, after the message of the batch.
abbrev pub after_batch :
    (Sim → Option (List Message × Sim)) → Sim × Option Message × Bool → Option (List Message × Sim)
after_batch next (s, m, false) = some (posted m [], s)
after_batch next (s, m, true) = elim (next s) [
  | none ↦ none
  | some (ms, end) ↦ some (posted m ms, end)
]

-- The batches that follow one another through `setTimeout(runBatch, 0)`: the messages in order, and
-- the state once no batch is scheduled, or `none` where the fuel runs out first.
unfoldable pub run_batches : ℕ → Environment → Sim → Option (List Message × Sim)
run_batches zero env s = none
run_batches (suc fuel) env s = after_batch (run_batches fuel env) (run_batch env s)

-- `STOP_SIMULATION`
unfoldable pub stop_simulation : Sim → Sim × Message
unfolding final_report
stop_simulation s = (record s { is_running = false }, simulation_stopped (final_report s))
