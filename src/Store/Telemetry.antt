-- ===== src/Store/Telemetry.antt =====
-- The telemetry stream: the callbacks of the websocket, and the timer that hands its messages on.
pub mod Delivered
use vidhi_trading_platform.Prelude.{
  true, false, String, str_eq, List, [], ◌∷◌, Option, none, some, if◌then◌else◌,
}
use vidhi_trading_platform.Store.Types.{Link, offline, connecting, online, Store, Browser}
use vidhi_trading_platform.Store.Storage.{save}

-- An object with runs for keys, as an association list: `o[key] = v` and `o[key]`.
unfoldable pub put_run : String → String → List (String × String) → List (String × String)
put_run k v [] = (k, v) ∷ []
put_run k v ((i, w) ∷ o) = if str_eq i k then (i, v) ∷ o else (i, w) ∷ put_run k v o

unfoldable pub get_run : String → List (String × String) → Option String
get_run k [] = none
get_run k ((i, w) ∷ o) = if str_eq i k then some w else get_run k o

-- `{ ...o, ...p }`
unfoldable pub spread_over :
    List (String × String) → List (String × String) → List (String × String)
unfolding put_run
spread_over o [] = o
spread_over o ((k, v) ∷ p) = spread_over (put_run k v o) p

abbrev pub set_link : Link → Store → Store
set_link l st = record st {
  state = record (st.state) { telemetry = record (st.state.telemetry) { status = l } };
}

-- `connectTelemetry`
unfoldable pub connect_telemetry : Browser → Store → Store
unfolding save
connect_telemetry b st = elim st.state.telemetry.status [
  | online ↦ st
  | _ ↦ record (save b (set_link connecting st)) { socket_open = true }
]

-- The callback `onConnect`, and `onDisconnect`.
unfoldable pub on_connect : Browser → Store → Store
unfolding save
on_connect b st = save b (set_link online st)

unfoldable pub on_disconnect : Browser → Store → Store
unfolding save
on_disconnect b st = save b (set_link offline st)

pub record TickMessage : Type 0 where
  pub kind : String
  pub run_id : String
  pub payload : String

-- The callback `onMessage`: it buffers the payload, and sets the timer if it is not set.
unfoldable pub on_message : TickMessage → Store → Store
unfolding put_run
on_message m st =
    if str_eq m.kind "TICK_TELEMETRY"
    then (if str_eq m.run_id "" then st else record st {
      telemetry_buffer = put_run m.run_id m.payload st.telemetry_buffer;
      timer_set = true;
    })
    else st

unfoldable pub on_messages : List TickMessage → Store → Store
on_messages [] st = st
on_messages (m ∷ ms) st = on_messages ms (on_message m st)

-- The timer of 100 ms.
unfoldable pub on_timer : Browser → Store → Store
unfolding save spread_over
on_timer b st =
    let t = st.state.telemetry in
    let merged = spread_over t.data_by_run st.telemetry_buffer in
    save b (record st {
      state = record (st.state) { telemetry = record t { data_by_run = merged } };
      telemetry_buffer = [];
      timer_set = false;
    })

-- `disconnectTelemetry`
unfoldable pub disconnect_telemetry : Store → Store
disconnect_telemetry st = record st { socket_open = false }
