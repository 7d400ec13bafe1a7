-- ===== src/Engine/Shown.antt =====
-- `lastState` as an object: the empty one, the spread of one over another, and the payloads of the worker.
use vidhi_trading_platform.Prelude.{false, ◌||◌, Option, none, some}
use vidhi_trading_platform.Sim.Batch.{TickUpdate, FinalReport}
use vidhi_trading_platform.Engine.Types.{Shown}

-- `{}`, which `{ ...null }` is too.
abbrev pub nothing_shown : Shown
nothing_shown = record {
  is_done = false;
  run_id = none;
  status = none;
  error_message = none;
  compile_error = none;
  code = none;
  mode = none;
  tick = none;
  max_ticks = none;
  progress = none;
  pnl = none;
  pnl_pct = none;
  position = none;
  cash = none;
  p50 = none;
  p90 = none;
  p99 = none;
  fill_count = none;
  total_fills = none;
  total_ticks = none;
  tl_count = none;
  oom = none;
  violations = none;
  correctness = none;
  bid_price = none;
  ask_price = none;
  spread = none;
  last_trade = none;
  bid_depth = none;
  ask_depth = none;
  pnl_history = none;
  latency_history = none;
  volume_history = none;
  bot_activity = none;
  final_pnl = none;
  final_position = none;
  last_price = none;
}

-- `a ?? b`
abbrev pub or_nullish {ℓ} : {A : Type ℓ} → Option A → Option A → Option A
or_nullish none b = b
or_nullish (some a) b = some a

-- `{ ...old, ...new }`
abbrev pub spread_over : Shown → Shown → Shown
spread_over old new = record {
  is_done = new.is_done || old.is_done;
  run_id = or_nullish new.run_id old.run_id;
  status = or_nullish new.status old.status;
  error_message = or_nullish new.error_message old.error_message;
  compile_error = or_nullish new.compile_error old.compile_error;
  code = or_nullish new.code old.code;
  mode = or_nullish new.mode old.mode;
  tick = or_nullish new.tick old.tick;
  max_ticks = or_nullish new.max_ticks old.max_ticks;
  progress = or_nullish new.progress old.progress;
  pnl = or_nullish new.pnl old.pnl;
  pnl_pct = or_nullish new.pnl_pct old.pnl_pct;
  position = or_nullish new.position old.position;
  cash = or_nullish new.cash old.cash;
  p50 = or_nullish new.p50 old.p50;
  p90 = or_nullish new.p90 old.p90;
  p99 = or_nullish new.p99 old.p99;
  fill_count = or_nullish new.fill_count old.fill_count;
  total_fills = or_nullish new.total_fills old.total_fills;
  total_ticks = or_nullish new.total_ticks old.total_ticks;
  tl_count = or_nullish new.tl_count old.tl_count;
  oom = or_nullish new.oom old.oom;
  violations = or_nullish new.violations old.violations;
  correctness = or_nullish new.correctness old.correctness;
  bid_price = or_nullish new.bid_price old.bid_price;
  ask_price = or_nullish new.ask_price old.ask_price;
  spread = or_nullish new.spread old.spread;
  last_trade = or_nullish new.last_trade old.last_trade;
  bid_depth = or_nullish new.bid_depth old.bid_depth;
  ask_depth = or_nullish new.ask_depth old.ask_depth;
  pnl_history = or_nullish new.pnl_history old.pnl_history;
  latency_history = or_nullish new.latency_history old.latency_history;
  volume_history = or_nullish new.volume_history old.volume_history;
  bot_activity = or_nullish new.bot_activity old.bot_activity;
  final_pnl = or_nullish new.final_pnl old.final_pnl;
  final_position = or_nullish new.final_position old.final_position;
  last_price = or_nullish new.last_price old.last_price;
}

-- `this.lastState || {}`
abbrev pub or_empty : Option Shown → Shown
or_empty none = nothing_shown
or_empty (some s) = s

-- The payload of `TICK_UPDATE`.
unfoldable pub shown_of_update : TickUpdate → Shown
shown_of_update u = record nothing_shown {
  tick = some u.tick;
  max_ticks = some u.max_ticks;
  progress = some (u.tick, u.max_ticks);
  pnl = some u.pnl;
  pnl_pct = some u.pnl_pct;
  position = some u.position;
  cash = some u.cash;
  total_fills = some u.total_fills;
  bid_price = some u.market.bid_price;
  ask_price = some u.market.ask_price;
  spread = some u.market.spread;
  last_trade = some u.market.last_trade_price;
  bid_depth = some u.market.bid_depth;
  ask_depth = some u.market.ask_depth;
  p50 = some u.p50;
  p90 = some u.p90;
  p99 = some u.p99;
  pnl_history = some u.pnl_history;
  latency_history = some u.latency_history;
  volume_history = some u.volume_history;
  bot_activity = some u.bot_activity;
}

-- The payload of `SIMULATION_COMPLETE`.
unfoldable pub shown_of_report : FinalReport → Shown
shown_of_report r = record nothing_shown {
  total_ticks = some r.total_ticks;
  final_pnl = some r.final_pnl;
  pnl_pct = some r.pnl_pct;
  final_position = some r.final_position;
  total_fills = some r.total_fills;
  p50 = some r.p50;
  p90 = some r.p90;
  p99 = some r.p99;
  pnl_history = some r.pnl_history;
  latency_history = some r.latency_history;
  volume_history = some r.volume_history;
  bot_activity = some r.bot_activity;
  last_price = some r.last_price;
}
