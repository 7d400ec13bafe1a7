-- ===== src/Engine/Telemetry.antt =====
-- `_processTick`, and the buffer and timer before it.
use vidhi_trading_platform.Prelude.{
  ℕ, ◌+◌, min, Bool, true, false, String, str_eq, List, [], ◌∷◌, Option, none, some, ℤ, pos, ◌+ℤ◌,
  ◌-ℤ◌, abs_ℤ, eqb_ℤ, if◌then◌else◌, push_capped,
}
use vidhi_trading_platform.Lob.Types.{tick_size}
use vidhi_trading_platform.Lob.Views.{DepthRow}
use vidhi_trading_platform.Sim.Types.{Point}
use vidhi_trading_platform.Sim.Batch.{no_activity}
use vidhi_trading_platform.Engine.Types.{Shown, Tick, Engine}
use vidhi_trading_platform.Engine.Shown.{or_nullish, or_empty}
use vidhi_trading_platform.Engine.Notify.{tell_states}

abbrev pub or_value {ℓ} : {A : Type ℓ} → Option A → A → A
or_value none d = d
or_value (some a) d = a

-- The volumes that a level of the depth has where the message has none.
abbrev pub default_volumes : List ℤ
default_volumes = pos 50 ∷ pos 80 ∷ pos 120 ∷ pos 200 ∷ pos 320 ∷ []

-- The five rows from row `i` on, each a tick further than the one before.
abbrev pub rows_from : (ℤ → ℤ → ℤ) → ℤ → (ℕ → Option ℤ) → ℕ → List ℤ → List DepthRow
rows_from further price volumes i [] = []
rows_from further price volumes i (d ∷ ds) =
    record { price = price; volume = or_value (volumes i) d }
    ∷ rows_from further (further price tick_size) volumes (i + 1) ds

-- `t.bid_price ? [...] : (prev.bidDepth ?? [])`: a price of 0 counts as none.
abbrev pub depth_rows :
    (ℤ → ℤ → ℤ) → Option ℤ → (ℕ → Option ℤ) → Option (List DepthRow) → List DepthRow
depth_rows further none volumes old = or_value old []
depth_rows further (some p) volumes old =
    if eqb_ℤ p (pos 0) then or_value old [] else rows_from further p volumes 0 default_volumes

-- `t.pnl ?? prev.pnl ?? 0`
abbrev pub first_of {ℓ} : {A : Type ℓ} → Option A → Option A → A → Option A
first_of new old d = some (or_value (or_nullish new old) d)

-- The object that a tick makes of the one before, with the histories after the tick. `Math.min` of the
-- progress and 1 is the fraction with the smaller numerator.
unfoldable pub mapped_tick : Tick → Shown → List Point → List Point → List Point → Shown
unfolding ◌-ℤ◌ ◌+ℤ◌
mapped_tick t prev pnls latencies volumes =
    let max_ticks = or_value prev.max_ticks 100_000 in
    record prev {
      tick = first_of t.tick_id prev.tick 0;
      pnl = first_of t.pnl prev.pnl (pos 0);
      pnl_pct = some (or_value t.pnl (pos 0));
      position = first_of t.position prev.position (pos 0);
      p50 = first_of t.p50_ns prev.p50 0;
      p99 = first_of t.p99_ns prev.p99 0;
      bid_price = first_of t.bid_price prev.bid_price (pos 0);
      ask_price = first_of t.ask_price prev.ask_price (pos 0);
      spread = first_of t.spread prev.spread (pos 0);
      last_trade = first_of t.last_trade prev.last_trade (pos 0);
      fill_count = some (or_value t.fill_count 0);
      total_fills = some (or_value prev.total_fills 0 + or_value t.fill_count 0);
      bid_depth = some (depth_rows ◌-ℤ◌ t.bid_price t.bid_vol prev.bid_depth);
      ask_depth = some (depth_rows ◌+ℤ◌ t.ask_price t.ask_vol prev.ask_depth);
      bot_activity = first_of t.bot_activity prev.bot_activity no_activity;
      max_ticks = some max_ticks;
      progress = some (min (or_value t.tick_id 0) max_ticks, max_ticks);
      pnl_history = some pnls;
      latency_history = some latencies;
      volume_history = some volumes;
    }

-- `_processTick`
unfoldable pub process_tick : Tick → Engine → Engine
unfolding push_capped mapped_tick abs_ℤ
process_tick t e =
    let time = or_value t.tick_id 0 in
    let pnls =
      push_capped 1000 e.pnl_points (record { time = time; value = or_value t.pnl (pos 0) }) in
    let latencies =
      push_capped 1000 e.latency_points
        (record { time = time; value = pos (or_value t.p50_ns 0) }) in
    let volumes =
      push_capped 1000 e.volume_points
        (record { time = time; value = abs_ℤ (or_value t.position (pos 0)) }) in
    let shown = mapped_tick t (or_empty e.last_state) pnls latencies volumes in
    tell_states shown (record e {
      pnl_points = pnls;
      latency_points = latencies;
      volume_points = volumes;
      last_state = some shown;
    })

-- `this.currentRunId && id !== this.currentRunId`
abbrev pub is_foreign : String → Engine → Bool
is_foreign i e =
    if str_eq e.current_run_id ""
    then false
    else (if str_eq i e.current_run_id then false else true)

-- The branch of `_handleWSMessage` on telemetry: the newest payload waits for the timer of 33 ms.
unfoldable pub buffer_tick : String → Tick → Engine → Engine
buffer_tick i t e =
    if e.is_simulating
    then (if is_foreign i e then e else record e { telemetry_buffer = some t; timer_set = true })
    else e

-- The timer.
unfoldable pub on_timer : Engine → Engine
unfolding process_tick
on_timer e = elim e.telemetry_buffer [
  | none ↦ record e { timer_set = false }
  | some t ↦ record (process_tick t e) { telemetry_buffer = none; timer_set = false }
]
