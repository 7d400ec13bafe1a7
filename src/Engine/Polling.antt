-- ===== src/Engine/Polling.antt =====
-- What the engine does with a run that `pollRunUntilDone` reports, `_detectBackends`, and the callbacks of
-- the websocket's connection.
pub mod Ended
use vidhi_trading_platform.Prelude.{
  ℕ, ◌+◌, ◌*◌, ◌^◌, min, Bool, ◌||◌, true, false, List, [], ◌∷◌, String, ◌+++◌, str_eq, none, some,
  if◌then◌else◌,
}
use vidhi_trading_platform.Client.Poll.{RunInfo}
use vidhi_trading_platform.Engine.Types.{Status, cloud_mode, Shown, Engine}
use vidhi_trading_platform.Engine.Shown.{or_empty}
use vidhi_trading_platform.Engine.Notify.{set_status, log, tell_states, tell_complete, tell_status}
use vidhi_trading_platform.Engine.Messages.{Texts}

-- The object of a run that is running.
unfoldable pub running_shown : ℕ → RunInfo → Shown → Shown
running_shown max_ticks r prev = record prev {
  tick = some r.total_ticks;
  max_ticks = some max_ticks;
  progress = some (r.total_ticks, max_ticks);
  pnl = some r.pnl;
  pnl_pct = some r.pnl_pct;
}

-- The object of a run that failed.
unfoldable pub failed_shown : RunInfo → String → String → Shown → Shown
failed_shown r message code prev = record prev {
  run_id = some r.run_id;
  status = some r.status;
  error_message = some message;
  tl_count = some r.tle_count;
  is_done = true;
  code = some code;
}

abbrev pub is_failed : String → Bool
is_failed s = str_eq s "error" || str_eq s "tle"

-- The callback of `_startCloudRun`
unfoldable pub on_poll_cloud : Texts → ℕ → RunInfo → Engine → Engine
unfolding log set_status running_shown failed_shown
on_poll_cloud texts max_ticks r e =
    let seen = log ("[POLL/CLOUD] " +++ r.status +++ " — tick " +++ texts.locale r.total_ticks) e in
    let shown = record (running_shown max_ticks r (or_empty e.last_state)) {
      mode = some cloud_mode;
    } in
    let message =
      if str_eq r.status "tle"
      then "Cloud submission timed out during backend execution."
      else "Cloud submission failed in the Forge pipeline before live simulation ticks started." in
    let failed = record (failed_shown r message e.current_code (or_empty e.last_state)) {
      mode = some cloud_mode;
    } in
    if e.poll_stopped
    then e
    else (if str_eq r.status "running"
        then tell_states shown (record seen { last_state = some shown })
        else (if is_failed r.status
            then tell_complete failed (
                set_status Status.error (record seen {
                  is_simulating = false;
                  poll_stopped = true;
                  last_state = some failed;
                }))
            else seen))

-- The callback of `_startBackendRun`, which does not ask whether the run has ended already.
unfoldable pub on_poll_backend : Texts → ℕ → RunInfo → Engine → Engine
unfolding log set_status running_shown failed_shown
on_poll_backend texts max_ticks r e =
    let seen = log ("[POLL] " +++ r.status +++ " — tick " +++ texts.locale r.total_ticks) e in
    let shown = running_shown max_ticks r (or_empty e.last_state) in
    let message =
      if str_eq r.status "tle"
      then "Submission timed out during backend execution."
      else "Submission failed in the Forge pipeline before live simulation ticks started." in
    let failed = failed_shown r message e.current_code (or_empty e.last_state) in
    if str_eq r.status "running"
    then tell_states shown (record seen { last_state = some shown })
    else (if is_failed r.status
        then tell_complete failed
            (record (set_status Status.error (record seen { is_simulating = false })) {
              last_state = some failed;
            })
        else seen)

-- The callback on the runs that a poll reports, one after the other.
unfoldable pub on_polls : (RunInfo → Engine → Engine) → List RunInfo → Engine → Engine
on_polls callback [] e = e
on_polls callback (r ∷ rs) e = on_polls callback rs (callback r e)

-- `_detectBackends`
unfoldable pub detect_backends : Bool → Bool → Engine → Engine
unfolding log
detect_backends local_up cloud_up e =
    let e1 =
      log
        (if cloud_up
          then "[ENGINE] ✓ AWS Cloud backend reachable."
          else "[ENGINE] ⚠ AWS Cloud backend unreachable (check VITE_CLOUD_API_URL).")
        (record e { cloud_available = cloud_up }) in
    let e2 =
      if local_up then log "[ENGINE] ✓ Local backend reachable (localhost:8080)." e1 else e1 in
    let e3 = record e2 { local_available = local_up } in tell_status e3.status none e3

-- The callbacks of `_connectWS` on a connection and on its loss.
unfoldable pub on_connected : Bool → Engine → Engine
unfolding log
on_connected is_cloud e =
    record (log
      ("[WS] Telemetry stream connected" +++ (if is_cloud then " (AWS Cloud)" else " (localhost)"))
      e) { reconnect_attempt = 0 }

unfoldable pub on_disconnected : Texts → Engine → Engine
unfolding log
on_disconnected texts e =
    let delay = min (1000 * 2 ^ e.reconnect_attempt) 30000 in
    let lost = log "[WS] Telemetry disconnected — reconnecting..." e in
    let counted = record lost { reconnect_attempt = e.reconnect_attempt + 1 } in
    log
      ("[WS] Retry in "
        +++ texts.seconds delay
        +++ "s (attempt "
        +++ texts.show counted.reconnect_attempt
        +++ ")")
      counted
