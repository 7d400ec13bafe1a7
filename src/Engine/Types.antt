-- ===== src/Engine/Types.antt =====
-- The state of `VidhiEngine`, and the messages that it is sent. Cash and prices are in units of 0.0001
-- dollars and percentages in units of 0.0000001, so that the percentage of a profit, which is taken of
-- 100,000 dollars, is the same number.
use vidhi_trading_platform.Prelude.{ℕ, Bool, String, List, Option, ℤ}
use vidhi_trading_platform.Lob.Views.{DepthRow}
use vidhi_trading_platform.Sim.Types.{Point, BotActivity}
use vidhi_trading_platform.Sim.Batch.{Message}

pub data Status : Type 0 where
  idle queued running done error : Status

pub data Mode : Type 0 where
  local_mode backend_mode cloud_mode : Mode

-- `lastState`: an object whose fields are there or not. `progress` is a fraction, and `correctness` in
-- units of 0.0001.
pub record Shown : Type 0 where
  pub is_done : Bool
  pub run_id : Option String
  pub status : Option String
  pub error_message : Option String
  pub compile_error : Option String
  pub code : Option String
  pub mode : Option Mode
  pub tick : Option ℕ
  pub max_ticks : Option ℕ
  pub progress : Option (ℕ × ℕ)
  pub pnl : Option ℤ
  pub pnl_pct : Option ℤ
  pub position : Option ℤ
  pub cash : Option ℤ
  pub p50 : Option ℕ
  pub p90 : Option ℕ
  pub p99 : Option ℕ
  pub fill_count : Option ℕ
  pub total_fills : Option ℕ
  pub total_ticks : Option ℕ
  pub tl_count : Option ℕ
  pub oom : Option Bool
  pub violations : Option ℕ
  pub correctness : Option ℤ
  pub bid_price : Option ℤ
  pub ask_price : Option ℤ
  pub spread : Option ℤ
  pub last_trade : Option ℤ
  pub bid_depth : Option (List DepthRow)
  pub ask_depth : Option (List DepthRow)
  pub pnl_history : Option (List Point)
  pub latency_history : Option (List Point)
  pub volume_history : Option (List Point)
  pub bot_activity : Option BotActivity
  pub final_pnl : Option ℤ
  pub final_position : Option ℤ
  pub last_price : Option ℤ

-- The payload of `RUN_UPDATE`.
pub record RunUpdate : Type 0 where
  pub run_id : String
  pub status : String
  pub pnl : Option ℤ
  pub pnl_pct : Option ℤ
  pub p50_ns : Option ℕ
  pub p99_ns : Option ℕ
  pub total_fills : Option ℕ
  pub total_ticks : Option ℕ
  pub tle_count : Option ℕ
  pub oom : Option Bool
  pub violations : Option ℕ
  pub correctness : Option ℤ

-- The payload of `TICK_TELEMETRY`.
pub record Tick : Type 0 where
  pub tick_id : Option ℕ
  pub pnl : Option ℤ
  pub position : Option ℤ
  pub p50_ns : Option ℕ
  pub p99_ns : Option ℕ
  pub bid_price : Option ℤ
  pub ask_price : Option ℤ
  pub spread : Option ℤ
  pub last_trade : Option ℤ
  pub fill_count : Option ℕ
  pub bid_vol : ℕ → Option ℤ
  pub ask_vol : ℕ → Option ℤ
  pub bot_activity : Option BotActivity

-- What the websocket delivers. A message with no payload is `other`.
pub data WsMessage : Type 0 where
  run_update : RunUpdate → WsMessage
  tick_telemetry : String → Tick → WsMessage
  other : WsMessage

-- What the worker posts.
pub data WorkerMessage : Type 0 where
  compile_ok compile_error : String → WorkerMessage
  of_simulation : Message → WorkerMessage

-- The payload of `START_SIMULATION`, and what the engine posts to the worker.
pub record StartPayload : Type 0 where
  pub code : String
  pub dataset_key : String
  pub bot_config : String
  pub base_price : ℤ
  pub asset_name : String
  pub max_ticks : ℕ

pub data ToWorker : Type 0 where
  start_simulation : StartPayload → ToWorker
  stop_simulation : ToWorker

-- A call of a subscriber.
pub data Told : Type 0 where
  state_told complete_told : ℕ → Shown → Told
  status_told : ℕ → Status → Option String → Told

-- `worker` is what a worker that is there was posted; `current_run_id` is "" for none; the histories
-- are those of `_decimation`.
pub record Engine : Type 0 where
  pub worker : Option (List ToWorker)
  pub is_simulating : Bool
  pub subscribers : List ℕ
  pub status_subscribers : List ℕ
  pub complete_subscribers : List ℕ
  pub told : List Told
  pub last_state : Option Shown
  pub status : Status
  pub mode : Mode
  pub current_run_id : String
  pub current_code : String
  pub socket_open : Bool
  pub log_history : List String
  pub pnl_points : List Point
  pub latency_points : List Point
  pub volume_points : List Point
  pub telemetry_buffer : Option Tick
  pub timer_set : Bool
  pub poll_stopped : Bool
  pub reconnect_attempt : ℕ
  pub cloud_available : Bool
  pub local_available : Bool
