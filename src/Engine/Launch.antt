-- ===== src/Engine/Launch.antt =====
-- `startSimulation`, the local run, `stopSimulation` and `loadHistoricState`.
use vidhi_trading_platform.Prelude.{
  true, false, String, str_eq, List, [], ◌∷◌, ◌++◌, Option, none, some, if◌then◌else◌,
}
use vidhi_trading_platform.Store.Types.{Run, Browser}
use vidhi_trading_platform.Store.Board.{get_active_contest, get_active_round_id}
use vidhi_trading_platform.Engine.Types.{
  idle, queued, done, Mode, local_mode, backend_mode, cloud_mode, ToWorker, start_simulation,
  stop_simulation, Engine,
}
use vidhi_trading_platform.Engine.Shown.{nothing_shown}
use vidhi_trading_platform.Engine.Notify.{set_status, log, tell_states}
use vidhi_trading_platform.Engine.Telemetry.{or_value}
use vidhi_trading_platform.Engine.Messages.{Texts, World}
use vidhi_trading_platform.Engine.Config.{Options, find_round, or_first_round, start_payload}
use vidhi_trading_platform.Engine.Submit.{
  Backend, Stage, on_engine, disconnect_ws, start_cloud_run, start_backend_run,
}

-- `_startLocalRun`: a worker of its own, which is posted the start.
unfoldable pub start_local_run : Browser → String → Options → World → World
unfolding log
start_local_run b code options (e, st) =
    let (contest, st1) = get_active_contest b st in
    let (round_id, st2) = get_active_round_id b st1 in
    let round = or_first_round (find_round (or_value round_id "") contest) contest in
    let starting = log "[LOCAL] ⚡ Starting JS Web Worker simulation with real CSV tick data..." e in
    (
      record starting { worker = some (start_simulation (start_payload code options round) ∷ []) },
      st2,
    )

-- The resets of `startSimulation`. The id of the run before stays until a submission is answered.
unfoldable pub prepare : String → Engine → Engine
unfolding set_status disconnect_ws
prepare code e = disconnect_ws (record (set_status queued (record e { is_simulating = true })) {
  last_state = none;
  current_code = code;
  pnl_points = [];
  latency_points = [];
  volume_points = [];
  log_history = [];
  poll_stopped = false;
})

abbrev pub in_mode : Mode → String → Engine → Engine
in_mode mode line e = log line (record e { mode = mode })

abbrev pub on_world : (World → World) → Stage → Stage
on_world f (w, key) = (f w, key)

-- `startSimulation`
unfoldable pub start : Texts → Browser → Backend → String → Options → Stage → Stage
unfolding prepare
start texts b k code options s =
    let s1 = on_engine (prepare code) s in
    if options.force_local
    then on_world (start_local_run b code options)
        (on_engine (in_mode local_mode "[ENGINE] ⚡ Local JS Worker simulation starting...") s1)
    else (if options.force_cloud
        then start_cloud_run texts b k code
            (on_engine (in_mode cloud_mode "[ENGINE] ☁ Cloud (AWS) simulation starting...") s1)
        else (if k.local_up
            then start_backend_run texts b k code options (
                on_engine
                  (in_mode backend_mode "[ENGINE] ✓ Auto-selected local backend (localhost:8080).")
                  s1)
            else on_world (start_local_run b code options) (
                on_engine
                  (in_mode local_mode
                    "[ENGINE] Backend offline — using JS Web Worker simulation (fallback).")
                  s1)))

-- `stopSimulation`
unfoldable pub stop : Engine → Engine
unfolding disconnect_ws set_status log
stop e =
    let posted : Option (List ToWorker) = elim e.worker [
      | none ↦ none
      | some inbox ↦ some (inbox ++ (stop_simulation ∷ []))
    ] in
    log "[SYS] Simulation halted by user."
      (set_status idle (disconnect_ws (record e { is_simulating = false; worker = posted })))

abbrev pub mode_of_name : String → Mode
mode_of_name m =
    if str_eq m "cloud"
    then cloud_mode
    else (if str_eq m "backend" then backend_mode else local_mode)

-- `loadHistoricState`
unfoldable pub load_historic : Run → Engine → Engine
unfolding set_status
load_historic run e =
    let shown = record nothing_shown {
      is_done = true;
      run_id = some run.id;
      pnl = some run.pnl;
      pnl_pct = some run.pnl_pct;
      p50 = some run.p50;
      p99 = some run.p99;
      total_fills = some run.fills;
      total_ticks = some run.ticks;
      tick = some run.ticks;
      correctness = run.correctness;
      pnl_history = some run.history;
      bot_activity = run.bot_activity;
      mode = some (mode_of_name run.mode);
    } in
    tell_states shown (record (set_status done (record e { is_simulating = false })) {
      current_run_id = run.id;
      last_state = some shown;
    })
