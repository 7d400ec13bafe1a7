-- ===== src/Engine/Events.antt =====
-- What happens to the engine, one thing after another, with the store and the key that it uses.
pub mod Settled
pub mod Started
pub mod Every
use vidhi_trading_platform.Prelude.{ℕ, Bool, String, List, [], ◌∷◌, Option}
use vidhi_trading_platform.Store.Types.{Run, Browser}
use vidhi_trading_platform.Client.Poll.{RunInfo}
use vidhi_trading_platform.Engine.Types.{WsMessage, WorkerMessage, Engine}
use vidhi_trading_platform.Engine.Notify.{
  subscribe, on_status, on_complete, unsubscribe, off_status, off_complete,
}
use vidhi_trading_platform.Engine.Telemetry.{on_timer}
use vidhi_trading_platform.Engine.Messages.{Texts, handle_ws, handle_local}
use vidhi_trading_platform.Engine.Config.{Options}
use vidhi_trading_platform.Engine.Submit.{Backend, Stage, on_engine, worker_crashed}
use vidhi_trading_platform.Engine.Launch.{on_world, start, stop, load_historic}
use vidhi_trading_platform.Engine.Polling.{
  on_poll_cloud, on_poll_backend, detect_backends, on_connected, on_disconnected,
}

pub data Event : Type 0 where
  received : WsMessage → Event
  timer_fired : Event
  from_worker : WorkerMessage → Event
  crashed : String → Event
  polled_cloud polled_backend : ℕ → RunInfo → Event
  probed : Bool → Bool → Event
  connected : Bool → Event
  disconnected : Event
  started : String → Options → Event
  stopped : Event
  loaded : Run → Event
  subscribed status_subscribed complete_subscribed : ℕ → Event
  unsubscribed status_unsubscribed complete_unsubscribed : ℕ → Event

-- What an event does that touches the engine alone.
unfoldable pub handle_own : Texts → Event → Engine → Engine
unfolding on_timer worker_crashed on_poll_cloud on_poll_backend detect_backends on_connected
    on_disconnected stop load_historic subscribe on_status on_complete unsubscribe off_status
    off_complete
handle_own texts timer_fired e = on_timer e
handle_own texts (crashed message) e = worker_crashed message e
handle_own texts (polled_cloud max_ticks r) e = on_poll_cloud texts max_ticks r e
handle_own texts (polled_backend max_ticks r) e = on_poll_backend texts max_ticks r e
handle_own texts (probed local_up cloud_up) e = detect_backends local_up cloud_up e
handle_own texts (connected is_cloud) e = on_connected is_cloud e
handle_own texts disconnected e = on_disconnected texts e
handle_own texts stopped e = stop e
handle_own texts (loaded run) e = load_historic run e
handle_own texts (subscribed i) e = subscribe i e
handle_own texts (status_subscribed i) e = on_status i e
handle_own texts (complete_subscribed i) e = on_complete i e
handle_own texts (unsubscribed i) e = unsubscribe i e
handle_own texts (status_unsubscribed i) e = off_status i e
handle_own texts (complete_unsubscribed i) e = off_complete i e
handle_own texts _ e = e

unfoldable pub handle : Texts → Browser → Backend → Event → Stage → Stage
unfolding handle_ws handle_local start handle_own
handle texts b k (received m) s = on_world (handle_ws texts b m) s
handle texts b k (from_worker m) s = on_world (handle_local texts b m) s
handle texts b k (started code options) s = start texts b k code options s
handle texts b k ev s = on_engine (handle_own texts ev) s

-- Each event has a browser, with its time, and servers of its own.
unfoldable pub handles : Texts → List (Browser × Backend × Event) → Stage → Stage
unfolding handle
handles texts [] s = s
handles texts ((b, k, ev) ∷ evs) s = handles texts evs (handle texts b k ev s)
