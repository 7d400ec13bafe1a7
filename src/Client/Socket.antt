-- ===== src/Client/Socket.antt =====
-- `connectTelemetryWS`: a websocket that connects again after a delay, until it is closed.
pub mod Alive
use vidhi_trading_platform.Prelude.{
  ℕ, suc, ◌+◌, ◌*◌, ◌^◌, ◌≤◌, Bool, true, false, min, Option, none, some, if◌then◌else◌, ◌≡◌, refl,
  arith, List, [], ◌∷◌, ◌++◌,
}

-- The locals of `connectTelemetryWS`: `closed`, `retries`, whether `ws` is a socket that has not ended,
-- the delay of the timer that is set, and what the callbacks were told.
pub data Notice : Type 0 where
  connected disconnected : Notice

pub record Socket : Type 0 where
  pub closed : Bool
  pub retries : ℕ
  pub live : Bool
  pub timer : Option ℕ
  pub notices : List Notice

-- `connect`
unfoldable pub connect : Socket → Socket
connect s = if s.closed then s else record s { live = true }

-- A call of `connectTelemetryWS`
unfoldable pub open_socket : Socket
unfolding connect
open_socket =
    connect (record { closed = false; retries = 0; live = false; timer = none; notices = [] })

-- `onopen`
unfoldable pub on_open : Socket → Socket
on_open s = record s { retries = 0; notices = s.notices ++ (connected ∷ []) }

-- `Math.min(30_000, 1_000 * 2 ** retries++)`
abbrev pub delay : ℕ → ℕ
delay retries = min 30000 (1000 * 2 ^ retries)

-- `onclose`, also after `onerror`, which closes the socket.
unfoldable pub on_close : Socket → Socket
on_close s = if s.closed then record s { live = false } else record s {
  live = false;
  retries = s.retries + 1;
  timer = some (delay s.retries);
  notices = s.notices ++ (disconnected ∷ []);
}

-- The timer that `onclose` set.
unfoldable pub on_timer : Socket → Socket
unfolding connect
on_timer s = connect (record s { timer = none })

-- `close` of the handle. The socket ends later, by `onclose`.
unfoldable pub close_socket : Socket → Socket
close_socket s = record s { closed = true }

-- What may happen: a socket that lives opens, or ends; a timer that is set fires; the handle is closed.
pub data SocketStep : Socket → Socket → Type 0 where
  opens : (s : Socket) → s.live ≡ true → SocketStep s (on_open s)
  ends : (s : Socket) → s.live ≡ true → SocketStep s (on_close s)
  fires : (s : Socket) (d : ℕ) → s.timer ≡ some d → SocketStep s (on_timer s)
  closes : (s : Socket) → SocketStep s (close_socket s)

pub data SocketReach : Socket → Type 0 where
  start : SocketReach open_socket
  next : {s t : Socket} → SocketReach s → SocketStep s t → SocketReach t
