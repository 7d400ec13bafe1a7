-- ===== src/Sim/Batch/Report.antt =====
-- What the worker reports: telemetry after a batch, and the final report.
use vidhi_trading_platform.Prelude.{
  ℕ, ◌-◌, ◌*◌, ◌/◌, ◌==◌, List, [], ◌∷◌, none, some, length, drop, get_elem?, ℤ, pos, ◌*ℤ◌,
  round_div, ltb, if◌then◌else◌,
}
use vidhi_trading_platform.Lob.Views.{Snapshot, snapshot}
use vidhi_trading_platform.Sim.Types.{Environment, BotActivity, Point, LogRow, Sim}
use vidhi_trading_platform.Sim.Tick.{to_cents}

-- `sort((a, b) => a - b)` on latencies.
unfoldable pub insert_latency : ℕ → List ℕ → List ℕ
insert_latency a [] = a ∷ []
insert_latency a (b ∷ bs) = if ltb b a then b ∷ insert_latency a bs else a ∷ b ∷ bs

unfoldable pub sort_latencies : List ℕ → List ℕ
unfolding insert_latency
sort_latencies [] = []
sort_latencies (a ∷ rest) = insert_latency a (sort_latencies rest)

-- `sorted[Math.floor(sorted.length * p / 100)] || fallback`
unfoldable pub percentile : ℕ → ℕ → List ℕ → ℕ
percentile p fallback sorted = elim (get_elem? sorted (length sorted * p / 100)) [
  | none ↦ fallback
  | some a ↦ if a == 0 then fallback else a
]

-- `a.slice(-n)`
abbrev pub last_of {ℓ} : {A : Type ℓ} → ℕ → List A → List A
last_of n xs = drop (length xs - n) xs

-- `parseFloat(((pnl / 100_000) * 100).toFixed(4))`, in units of 0.0000001 per cent, of which a unit of
-- cash is one.
unfoldable pub to_pct : ℤ → ℤ
unfolding round_div
to_pct pnl = round_div pnl 1000 *ℤ pos 1000

-- The latencies as points: those of the ticks that end at `tick`.
unfoldable pub latency_points : ℕ → List ℕ → List Point
latency_points tick [] = []
latency_points tick (a ∷ rest) =
    record { time = tick - length (a ∷ rest); value = pos a } ∷ latency_points tick rest

-- The payload of `TICK_UPDATE`, less `progress`, which is `tick` over `max_ticks`, and `batchMs`.
pub record TickUpdate : Type 0 where
  pub tick : ℕ
  pub max_ticks : ℕ
  pub pnl : ℤ
  pub pnl_pct : ℤ
  pub position : ℤ
  pub cash : ℤ
  pub total_fills : ℕ
  pub market : Snapshot
  pub p50 : ℕ
  pub p90 : ℕ
  pub p99 : ℕ
  pub pnl_history : List Point
  pub latency_history : List Point
  pub volume_history : List Point
  pub bot_activity : BotActivity

pub record FinalReport : Type 0 where
  pub total_ticks : ℕ
  pub final_pnl : ℤ
  pub pnl_pct : ℤ
  pub final_position : ℤ
  pub total_fills : ℕ
  pub p50 : ℕ
  pub p90 : ℕ
  pub p99 : ℕ
  pub pnl_history : List Point
  pub latency_history : List Point
  pub volume_history : List Point
  pub bot_activity : BotActivity
  pub last_price : ℤ
  pub activities_log : List LogRow

-- What the worker posts.
pub data Message : Type 0 where
  tick_update : TickUpdate → Message
  simulation_complete simulation_stopped : FinalReport → Message

-- `buildFinalReport`
unfoldable pub final_report : Sim → FinalReport
unfolding sort_latencies percentile latency_points to_pct
final_report s =
    let sorted = sort_latencies s.latency_history in
    record {
      total_ticks = s.tick_count;
      final_pnl = to_cents s.pnl;
      pnl_pct = to_pct s.pnl;
      final_position = s.position;
      total_fills = s.total_fills;
      p50 = percentile 50 0 sorted;
      p90 = percentile 90 0 sorted;
      p99 = percentile 99 0 sorted;
      pnl_history = s.pnl_history;
      latency_history = latency_points s.tick_count s.latency_history;
      volume_history = s.volume_history;
      bot_activity = s.bot_activity;
      last_price = s.lob.last_trade_price;
      activities_log = s.log_rows;
    }

-- The telemetry that ends a batch.
unfoldable pub telemetry : Environment → Sim → TickUpdate
unfolding sort_latencies percentile latency_points to_pct
telemetry env s =
    let sorted = sort_latencies (last_of 100 s.latency_history) in
    record {
      tick = s.tick_count;
      max_ticks = env.max_ticks;
      pnl = to_cents s.pnl;
      pnl_pct = to_pct s.pnl;
      position = s.position;
      cash = to_cents s.cash;
      total_fills = s.total_fills;
      market = snapshot s.lob;
      p50 = percentile 50 100 sorted;
      p90 = percentile 90 200 sorted;
      p99 = percentile 99 500 sorted;
      pnl_history = last_of 100 s.pnl_history;
      latency_history = latency_points s.tick_count (last_of 100 s.latency_history);
      volume_history = last_of 100 s.volume_history;
      bot_activity = s.bot_activity;
    }
