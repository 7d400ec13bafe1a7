-- ===== src/Engine/Events/Every.antt =====
-- Any sequence of events keeps the engine settled.
use vidhi_trading_platform.Prelude.{List, [], ◌∷◌, refl, Option-cases, inl, inr}
use vidhi_trading_platform.Store.Types.{Browser}
use vidhi_trading_platform.Engine.Types.{idle, done, Engine}
use vidhi_trading_platform.Engine.Notify.{
  set_status, subscribe, on_status, on_complete, unsubscribe, off_status, off_complete,
}
use vidhi_trading_platform.Engine.Messages.{Texts}
use vidhi_trading_platform.Engine.Submit.{Backend, Stage, disconnect_ws, worker_crashed}
use vidhi_trading_platform.Engine.Launch.{stop, load_historic}
use vidhi_trading_platform.Engine.Polling.{on_connected, on_disconnected}
use vidhi_trading_platform.Engine.Events.{
  Event, received, timer_fired, from_worker, crashed, polled_cloud, polled_backend, probed,
  connected, disconnected, started, stopped, loaded, subscribed, status_subscribed,
  complete_subscribed, unsubscribed, status_unsubscribed, complete_unsubscribed, handle_own, handle,
  handles,
}
use vidhi_trading_platform.Engine.Events.Started.{IsSettledStage, start-IsSettled}
use vidhi_trading_platform.Engine.Events.Settled.{
  IsSettled, ended_flags, log-IsSettled, on_timer-IsSettled, fail_before_run-IsSettled,
  handle_ws-IsSettled, handle_local-IsSettled, poll_cloud-IsSettled, poll_backend-IsSettled,
  detect_backends-IsSettled,
}

stop-IsSettled : (e : Engine) → IsSettled e → IsSettled (stop e)
unfolding stop set_status disconnect_ws
stop-IsSettled e h =
    log-IsSettled _ _ (record { lines = h.lines; kept = h.kept; flags = ended_flags idle refl })

handle_own-IsSettled :
    (texts : Texts) (ev : Event) (e : Engine) → IsSettled e → IsSettled (handle_own texts ev e)
unfolding handle_own worker_crashed load_historic set_status on_connected on_disconnected subscribe
    on_status on_complete unsubscribe off_status off_complete
handle_own-IsSettled texts timer_fired e h = on_timer-IsSettled e h
handle_own-IsSettled texts (crashed m) e h = fail_before_run-IsSettled _ e h
handle_own-IsSettled texts (polled_cloud n r) e h = poll_cloud-IsSettled texts n r e h
handle_own-IsSettled texts (polled_backend n r) e h = poll_backend-IsSettled texts n r e h
handle_own-IsSettled texts (probed l c) e h = detect_backends-IsSettled l c e h
handle_own-IsSettled texts (connected c) e h =
    let s = log-IsSettled _ e h in record { lines = s.lines; kept = s.kept; flags = s.flags }
handle_own-IsSettled texts disconnected e h =
    let s = log-IsSettled _ e h in
    log-IsSettled _ _ (record { lines = s.lines; kept = s.kept; flags = s.flags })
handle_own-IsSettled texts stopped e h = stop-IsSettled e h
handle_own-IsSettled texts (loaded run) e h = record {
  lines = h.lines;
  kept = h.kept;
  flags = ended_flags done refl;
}
handle_own-IsSettled texts (subscribed i) e h = elim (Option-cases e.last_state) [
  | inl none_yet ↦ rw none_yet (record { lines = h.lines; kept = h.kept; flags = h.flags })
  | inr (s, shown) ↦ rw shown (record { lines = h.lines; kept = h.kept; flags = h.flags })
]
handle_own-IsSettled texts (status_subscribed i) e h = record {
  lines = h.lines;
  kept = h.kept;
  flags = h.flags;
}
handle_own-IsSettled texts (complete_subscribed i) e h = record {
  lines = h.lines;
  kept = h.kept;
  flags = h.flags;
}
handle_own-IsSettled texts (unsubscribed i) e h = record {
  lines = h.lines;
  kept = h.kept;
  flags = h.flags;
}
handle_own-IsSettled texts (status_unsubscribed i) e h = record {
  lines = h.lines;
  kept = h.kept;
  flags = h.flags;
}
handle_own-IsSettled texts (complete_unsubscribed i) e h = record {
  lines = h.lines;
  kept = h.kept;
  flags = h.flags;
}
handle_own-IsSettled texts (received m) e h = h
handle_own-IsSettled texts (from_worker m) e h = h
handle_own-IsSettled texts (started code options) e h = h

handle-IsSettled :
    (texts : Texts) (b : Browser) (k : Backend) (ev : Event) (s : Stage)
    → IsSettledStage s
    → IsSettledStage (handle texts b k ev s)
unfolding handle
handle-IsSettled texts b k (received m) (w, key) h = handle_ws-IsSettled texts b m w h
handle-IsSettled texts b k (from_worker m) (w, key) h = handle_local-IsSettled texts b m w h
handle-IsSettled texts b k (started code options) s h = start-IsSettled texts b k code options s h
handle-IsSettled texts b k timer_fired ((e, st), key) h = handle_own-IsSettled texts timer_fired e h
handle-IsSettled texts b k (crashed m) ((e, st), key) h = handle_own-IsSettled texts (crashed m) e h
handle-IsSettled texts b k (polled_cloud n r) ((e, st), key) h =
    handle_own-IsSettled texts (polled_cloud n r) e h
handle-IsSettled texts b k (polled_backend n r) ((e, st), key) h =
    handle_own-IsSettled texts (polled_backend n r) e h
handle-IsSettled texts b k (probed l c) ((e, st), key) h =
    handle_own-IsSettled texts (probed l c) e h
handle-IsSettled texts b k (connected c) ((e, st), key) h =
    handle_own-IsSettled texts (connected c) e h
handle-IsSettled texts b k disconnected ((e, st), key) h =
    handle_own-IsSettled texts disconnected e h
handle-IsSettled texts b k stopped ((e, st), key) h = handle_own-IsSettled texts stopped e h
handle-IsSettled texts b k (loaded run) ((e, st), key) h =
    handle_own-IsSettled texts (loaded run) e h
handle-IsSettled texts b k (subscribed i) ((e, st), key) h =
    handle_own-IsSettled texts (subscribed i) e h
handle-IsSettled texts b k (status_subscribed i) ((e, st), key) h =
    handle_own-IsSettled texts (status_subscribed i) e h
handle-IsSettled texts b k (complete_subscribed i) ((e, st), key) h =
    handle_own-IsSettled texts (complete_subscribed i) e h
handle-IsSettled texts b k (unsubscribed i) ((e, st), key) h =
    handle_own-IsSettled texts (unsubscribed i) e h
handle-IsSettled texts b k (status_unsubscribed i) ((e, st), key) h =
    handle_own-IsSettled texts (status_unsubscribed i) e h
handle-IsSettled texts b k (complete_unsubscribed i) ((e, st), key) h =
    handle_own-IsSettled texts (complete_unsubscribed i) e h

-- Whatever happens, in any order, a settled engine stays settled: it keeps fifty lines of the log and a
-- thousand points of each history at most, telemetry waits only while the timer is set, a simulation that
-- goes on is queued, running or in error, and a status of queued means that a simulation goes on.
pub handles-IsSettled :
    (texts : Texts) (evs : List (Browser × Backend × Event)) (s : Stage)
    → IsSettled s.0.0
    → IsSettled (handles texts evs s).0.0
unfolding handles
handles-IsSettled texts [] s h = h
handles-IsSettled texts ((b, k, ev) ∷ evs) s h =
    handles-IsSettled texts evs (handle texts b k ev s) (handle-IsSettled texts b k ev s h)
