-- ===== src/Engine/Messages.antt =====
-- `_handleWSMessage` and `_handleLocalMessage`: what a run reports, on a server or in the worker.
pub mod Local
use vidhi_trading_platform.Prelude.{
  ℕ, Bool, ◌||◌, true, false, String, ◌+++◌, str_eq, none, some, ℤ, pos, if◌then◌else◌, List, [],
}
use vidhi_trading_platform.Sim.Batch.{
  FinalReport, tick_update, simulation_complete, simulation_stopped,
}
use vidhi_trading_platform.Store.Types.{Run, Store, Browser}
use vidhi_trading_platform.Store.Student.{RoundResult, record_result, add_run_history, or_text}
use vidhi_trading_platform.Store.Board.{get_active_round_id}
use vidhi_trading_platform.Engine.Types.{
  Status, running, done, idle, Mode, local_mode, backend_mode, cloud_mode, Shown, RunUpdate,
  WsMessage, run_update, tick_telemetry, other, WorkerMessage, compile_ok, compile_error,
  of_simulation, Engine,
}
use vidhi_trading_platform.Engine.Shown.{
  nothing_shown, spread_over, or_empty, shown_of_update, shown_of_report,
}
use vidhi_trading_platform.Engine.Notify.{set_status, log, tell_states, tell_complete}
use vidhi_trading_platform.Engine.Telemetry.{or_value, is_foreign, buffer_tick}

-- How JavaScript prints numbers, and the texts of the names that the code makes up.
pub record Texts : Type 0 where
  pub show : ℕ → String
  pub locale : ℕ → String
  pub pct : ℤ → String
  pub ns : ℕ → String
  pub ratio : ℤ → String
  pub seconds : ℕ → String

-- The engine and the store that it writes to.
abbrev pub World : Type 0
World = Engine × Store

abbrev pub mode_name : Mode → String
mode_name local_mode = "local"
mode_name backend_mode = "backend"
mode_name cloud_mode = "cloud"

abbrev pub is_cloud : Mode → Bool
is_cloud cloud_mode = true
is_cloud _ = false

-- `mapped`
unfoldable pub mapped_run : RunUpdate → String → Shown
mapped_run r code = record nothing_shown {
  run_id = some r.run_id;
  status = some r.status;
  pnl = some (or_value r.pnl (pos 0));
  pnl_pct = some (or_value r.pnl_pct (pos 0));
  p50 = some (or_value r.p50_ns 0);
  p99 = some (or_value r.p99_ns 0);
  total_fills = some (or_value r.total_fills 0);
  total_ticks = some (or_value r.total_ticks 0);
  tl_count = some (or_value r.tle_count 0);
  oom = some (or_value r.oom false);
  violations = some (or_value r.violations 0);
  correctness = some (or_value r.correctness (pos 10_000));
  code = some code;
}

abbrev pub failure_text : Bool → Mode → String
failure_text is_tle mode =
    if is_tle
    then (if is_cloud mode
        then "Cloud submission timed out during backend execution."
        else "Submission timed out during backend execution.")
    else (if is_cloud mode
        then "Cloud submission failed in the Forge pipeline or C++ Game Master execution."
        else "Submission failed in the Forge pipeline or local Game Master execution.")

abbrev pub is_ended : String → Bool
is_ended s = str_eq s "complete" || (str_eq s "error" || str_eq s "tle")

abbrev pub ended_log : Texts → RunUpdate → String
ended_log texts r =
    if str_eq r.status "complete"
    then "[GM] Run complete — PnL="
      +++ texts.pct (or_value r.pnl_pct (pos 0))
      +++ "% p99="
      +++ texts.ns (or_value r.p99_ns 0)
      +++ "ns correctness="
      +++ texts.ratio (or_value r.correctness (pos 10_000))
    else (if str_eq r.status "tle"
        then "[ERROR] Run hit the time limit before producing a valid result."
        else "[ERROR] Run failed before simulation output was produced.")

-- What a run that ended leaves in the history.
unfoldable pub run_of_update : RunUpdate → Engine → Run
run_of_update r e = record {
  id = r.run_id;
  status = r.status;
  mode = mode_name e.mode;
  pnl = or_value r.pnl (pos 0);
  pnl_pct = or_value r.pnl_pct (pos 0);
  p50 = or_value r.p50_ns 0;
  p99 = or_value r.p99_ns 0;
  fills = or_value r.total_fills 0;
  ticks = or_value r.total_ticks 0;
  correctness = some (or_value r.correctness (pos 10_000));
  violations = or_value r.violations 0;
  history = e.pnl_points;
  bot_activity = (or_empty e.last_state).bot_activity;
  code = e.current_code;
}

-- The engine's part of a run that ended.
unfoldable pub end_run : Texts → RunUpdate → Engine → Engine
unfolding mapped_run set_status log
end_run texts r e =
    let is_tle = str_eq r.status "tle" in
    let shown = record (spread_over (or_empty e.last_state) (mapped_run r e.current_code)) {
      error_message = some (failure_text is_tle e.mode);
      is_done = true;
    } in
    let e1 =
      set_status (if str_eq r.status "complete" then done else Status.error)
        (record e { is_simulating = false; poll_stopped = true; last_state = some shown }) in
    log (ended_log texts r) (tell_complete shown e1)

-- The store's part: the result of a complete run, and the history of every one.
unfoldable pub record_run : Browser → RunUpdate → Engine → Store → Store
record_run b r e st =
    let (round, st1) = get_active_round_id b st in
    let result : RoundResult = record {
      contest_id = st1.state.active_contest_id;
      round_id = or_text (or_value round "") "round1";
      pnl_pct = or_value r.pnl_pct (pos 0);
      p99 = pos (or_value r.p99_ns 0);
      fills = or_value r.total_fills 0;
    } in
    add_run_history b (run_of_update r e)
      (if str_eq r.status "complete" then record_result b result st1 else st1)

-- A run that goes on.
unfoldable pub show_run : RunUpdate → Engine → Engine
unfolding mapped_run log
show_run r e =
    let shown = spread_over (or_empty e.last_state) (mapped_run r e.current_code) in
    log ("[GM] Status: " +++ r.status) (tell_states shown (record e { last_state = some shown }))

-- `_handleWSMessage`
unfoldable pub handle_ws : Texts → Browser → WsMessage → World → World
handle_ws texts b (run_update r) (e, st) =
    let ended = end_run texts r e in
    if is_foreign r.run_id e
    then (e, st)
    else (if is_ended r.status then (ended, record_run b r ended st) else (show_run r e, st))
handle_ws texts b (tick_telemetry i t) (e, st) = (buffer_tick i t e, st)
handle_ws texts b other w = w

-- What a local run leaves in the history; `finalPnl || pnl || 0`, and so on.
unfoldable pub run_of_report : Texts → Browser → FinalReport → Engine → Run
run_of_report texts b r e = record {
  id = "local_" +++ texts.show b.now;
  status = "complete";
  mode = "local";
  pnl = r.final_pnl;
  pnl_pct = r.pnl_pct;
  p50 = r.p50;
  p99 = r.p99;
  fills = r.total_fills;
  ticks = r.total_ticks;
  correctness = none;
  violations = 0;
  history = r.pnl_history;
  bot_activity = some r.bot_activity;
  code = e.current_code;
}

-- The engine's part of a local run that is complete.
unfoldable pub end_local : Texts → FinalReport → Engine → Engine
unfolding shown_of_report set_status log
end_local texts r e =
    let final = record (shown_of_report r) { code = some e.current_code; mode = some local_mode } in
    let e1 = set_status done (record e { is_simulating = false }) in
    let shown = record (spread_over (or_empty e.last_state) final) { is_done = true } in
    log ("[OK] Local simulation complete. PnL: " +++ texts.pct r.pnl_pct +++ "%")
      (tell_complete final (record e1 { last_state = some shown }))

-- `_handleLocalMessage`
unfoldable pub handle_local : Texts → Browser → WorkerMessage → World → World
unfolding shown_of_update set_status log
handle_local texts b (of_simulation (tick_update u)) (e, st) =
    (tell_states (shown_of_update u) (record e { last_state = some (shown_of_update u) }), st)
handle_local texts b (compile_ok message) (e, st) =
    (log ("[OK] " +++ message) (set_status running e), st)
handle_local texts b (compile_error message) (e, st) =
    let shown = record (or_empty e.last_state) { compile_error = some message } in
    (
      log ("[ERROR] Compile failed: " +++ message)
          (set_status Status.error (record e { last_state = some shown })),
      st,
    )
handle_local texts b (of_simulation (simulation_complete r)) (e, st) =
    (end_local texts r e, add_run_history b (run_of_report texts b r e) st)
handle_local texts b (of_simulation (simulation_stopped r)) (e, st) =
    (set_status idle (record e { is_simulating = false }), st)

unfoldable pub handle_locals : Texts → Browser → List WorkerMessage → World → World
handle_locals texts b [] w = w
handle_locals texts b (List.◌∷◌ m ms) w = handle_locals texts b ms (handle_local texts b m w)
