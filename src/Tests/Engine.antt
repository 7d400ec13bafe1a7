-- ===== src/Tests/Engine.antt =====
-- An engine with a subscriber, runs of the worker and of a server on it, and events in a row.
use vidhi_trading_platform.Prelude.{
  true, false, String, List, [], ◌∷◌, some, none, ◌≡◌, refl, pos, negsuc, arith,
}
use vidhi_trading_platform.Store.Types.{Browser}
use vidhi_trading_platform.Client.Http.{rejected, ok}
use vidhi_trading_platform.Engine.Types.{
  queued, cloud_mode, Engine, RunUpdate, run_update, tick_telemetry, Tick,
}
use vidhi_trading_platform.Engine.Messages.{Texts, handle_ws}
use vidhi_trading_platform.Engine.Validate.{state_fields, validate_backend_python}
use vidhi_trading_platform.Engine.Config.{Options}
use vidhi_trading_platform.Engine.Submit.{Backend}
use vidhi_trading_platform.Engine.Polling.{on_poll_cloud, on_poll_backend, on_polls}
use vidhi_trading_platform.Engine.Polling.Ended.{IsEnded, handle_ws_ends, IsGoing, on_polls-IsGoing}
use vidhi_trading_platform.Engine.Events.{
  Event, received, started, timer_fired, stopped, polled_cloud, handles,
}
use vidhi_trading_platform.Engine.Events.Settled.{IsSettled}
use vidhi_trading_platform.Engine.Events.Every.{handles-IsSettled}
use vidhi_trading_platform.Tests.Store.{browser, store}
use vidhi_trading_platform.Tests.Client.{run}

abbrev pub texts : Texts
texts = record {
  show = λ n. "0";
  locale = λ n. "0";
  pct = λ z. "0";
  ns = λ n. "0";
  ratio = λ z. "0";
  seconds = λ n. "0";
}

abbrev pub engine : Engine
engine = record {
  worker = none;
  is_simulating = true;
  subscribers = 1 ∷ [];
  status_subscribers = 2 ∷ [];
  complete_subscribers = 3 ∷ [];
  told = [];
  last_state = none;
  status = queued;
  mode = cloud_mode;
  current_run_id = "r";
  current_code = "pass";
  socket_open = true;
  log_history = [];
  pnl_points = [];
  latency_points = [];
  volume_points = [];
  telemetry_buffer = none;
  timer_set = false;
  poll_stopped = false;
  reconnect_attempt = 0;
  cloud_available = true;
  local_available = false;
}

-- The names are read off the text: not those of another name's end, and the whole name.
found_fields :
    state_fields "x = state.position + my_state.a + state.s0.b\nif state.pos: state.9"
    ≡ "position" ∷ "s0" ∷ "pos" ∷ []
unfolding state_fields
found_fields = refl

accepted : validate_backend_python "buy(state.cash, state.s7)" ≡ none
unfolding validate_backend_python
accepted = refl

abbrev update : String → RunUpdate
update status = record {
  run_id = "r";
  status = status;
  pnl = some (pos 7);
  pnl_pct = some (pos 7);
  p50_ns = none;
  p99_ns = some 90;
  total_fills = some 3;
  total_ticks = some 100;
  tle_count = none;
  oom = none;
  violations = none;
  correctness = none;
}

handle_ws_ends_example :
    let e' = (handle_ws texts browser (run_update (update "tle")) (engine, store)).0 in
    IsEnded (update "tle") engine e'
    × (on_polls (on_poll_cloud texts 100) (run "error" ∷ []) e' ≡ e')
handle_ws_ends_example =
    handle_ws_ends texts browser (update "tle") (engine, store) 100 (run "error" ∷ []) refl refl

on_polls-IsGoing_example :
    IsGoing engine (on_polls (on_poll_cloud texts 100) (run "running" ∷ run "complete" ∷ []) engine)
    × IsGoing engine
        (on_polls (on_poll_backend texts 100) (run "running" ∷ run "complete" ∷ []) engine)
on_polls-IsGoing_example =
    on_polls-IsGoing texts 100 (run "running" ∷ run "complete" ∷ []) engine (refl, (refl, tt))

abbrev backend : Backend
backend = record {
  local_up = false;
  key = λ i. ok "k";
  submit = λ r. ok "r2";
  key_again = λ i. rejected "Failed to fetch";
  submit_again = λ r. rejected "Failed to fetch";
  cloud_base = "/api";
  slug = λ name. name;
}

abbrev options : Options
options = record { force_local = false; force_cloud = true; is_practice = true; max_ticks = 0 }

abbrev tick : Tick
tick = record {
  tick_id = some 4;
  pnl = some (negsuc 3);
  position = some (negsuc 1);
  p50_ns = none;
  p99_ns = none;
  bid_price = some (pos 100);
  ask_price = none;
  spread = none;
  last_trade = none;
  fill_count = some 1;
  bid_vol = λ i. none;
  ask_vol = λ i. none;
  bot_activity = none;
}

abbrev events : List (Browser × Backend × Event)
events =
    (browser, backend, started "pass" options)
    ∷ (browser, backend, received (tick_telemetry "r2" tick))
    ∷ (browser, backend, timer_fired)
    ∷ (browser, backend, polled_cloud 100 (run "running"))
    ∷ (browser, backend, received (run_update (record (update "complete") { run_id = "r2" })))
    ∷ (browser, backend, stopped)
    ∷ []

settled : IsSettled engine
settled = record {
  lines = omega arith;
  kept = (omega arith, omega arith, omega arith, λ c. cc);
  flags = (λ c. refl, λ q. refl);
}

handles-IsSettled_example : IsSettled (handles texts events ((engine, store), none)).0.0
handles-IsSettled_example = handles-IsSettled texts events ((engine, store), none) settled
