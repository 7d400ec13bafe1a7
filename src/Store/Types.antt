-- ===== src/Store/Types.antt =====
-- The state of `ContestStore`. The code tests a text or a number for being absent only together with
-- being empty or zero, so an absent one is "" or 0 here. A percentage is in units of 0.0000001, so that
-- a profit in units of 0.0001 dollars is the same number; a time is in milliseconds.
use vidhi_trading_platform.Prelude.{ℕ, Bool, String, List, [], Option, ℤ}
use vidhi_trading_platform.Sim.Types.{Point, BotActivity}

-- The list of bots alone is told apart from an empty one. The aggressiveness is the number as
-- JavaScript prints it. `asset_*` are the fields of `asset`.
pub record Round : Type 0 where
  pub id : String
  pub name : String
  pub description : String
  pub status : String
  pub tick_count : ℕ
  pub tick_rate : ℕ
  pub position_limit : ℕ
  pub starting_capital : ℕ
  pub active_bots : Option (List String)
  pub bot_aggressiveness : String
  pub asset_name : String
  pub asset_base_price : ℤ
  pub own_asset_name : String
  pub base_price : ℤ
  pub test_data_name : String
  pub test_data_key : String
  pub dataset_path : String
  pub final_data_name : String
  pub final_data_key : String
  pub start_at : ℕ
  pub end_at : ℕ

-- `rounds` is the sparse array of a participant's results, and `result_outside` its property "-1".
pub record Participant : Type 0 where
  pub id : String
  pub name : String
  pub team : String
  pub pnl_pct : ℤ
  pub p99 : ℤ
  pub fills : ℕ
  pub rounds : List (Option ℤ)
  pub result_outside : Option ℤ
  pub joined_at : ℕ
  pub last_code : Option String

pub record Contest : Type 0 where
  pub id : String
  pub name : String
  pub description : String
  pub status : String
  pub created_at : ℕ
  pub ends_at : ℕ
  pub max_participants : ℕ
  pub participants : List Participant
  pub rounds : List Round

-- What the engine hands to `addRunHistory`, and the time that is added to it.
pub record Run : Type 0 where
  pub id : String
  pub status : String
  pub mode : String
  pub pnl : ℤ
  pub pnl_pct : ℤ
  pub p50 : ℕ
  pub p99 : ℕ
  pub fills : ℕ
  pub ticks : ℕ
  pub correctness : Option ℤ
  pub violations : ℕ
  pub history : List Point
  pub bot_activity : Option BotActivity
  pub code : String

pub record Submission : Type 0 where
  pub run : Run
  pub timestamp : ℕ

pub data Link : Type 0 where
  offline connecting online : Link

-- The payload of a telemetry message, which the store passes on unread.
pub record Telemetry : Type 0 where
  pub status : Link
  pub data_by_run : List (String × String)

pub record State : Type 0 where
  pub role : String
  pub student_id : String
  pub student_name : String
  pub student_team : String
  pub student_api_key : String
  pub active_contest_id : String
  pub contests : List Contest
  pub my_submissions : List Submission
  pub telemetry : Telemetry

-- `DEFAULT_STATE`
abbrev pub default_state : State
default_state = record {
  role = "";
  student_id = "";
  student_name = "";
  student_team = "";
  student_api_key = "";
  active_contest_id = "";
  contests = [];
  my_submissions = [];
  telemetry = record { status = offline; data_by_run = [] };
}

-- What the browser keeps under the store's key: the JSON of a state, or text that is not JSON.
pub data Stored : Type 0 where
  written : State → Stored
  broken : Stored

-- The store, with its listeners and what each was told, the websocket, the telemetry that waits for
-- the timer, and whether the timer is set.
pub record Store : Type 0 where
  pub state : State
  pub storage : Option Stored
  pub listeners : List ℕ
  pub notices : List (ℕ × State)
  pub socket_open : Bool
  pub telemetry_buffer : List (String × String)
  pub timer_set : Bool

-- What the browser decides: whether a state fits into its storage, and the time.
pub record Browser : Type 0 where
  pub fits : State → Bool
  pub now : ℕ
