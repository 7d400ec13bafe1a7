-- ===== src/Client/Socket/Alive.antt =====
-- The websocket is given up only by closing it, and waits at most half a minute.
use vidhi_trading_platform.Prelude.{
  ℕ, ◌^◌, ◌≤◌, true, false, Bool, not, Option, some, none, ◌≡◌, refl, arith, inl, inr, Bool-cases,
}
use native.Mathlib.Nat.{one-le-pow}
use vidhi_trading_platform.Client.Socket.{
  Socket, SocketStep, opens, ends, fires, closes, SocketReach, start, next, open_socket, connect,
  on_open, on_close, on_timer, close_socket, delay,
}

abbrev is_set : Option ℕ → Bool
is_set none = false
is_set (some d) = true

-- While it is not closed, a socket lives or a timer is set to try again, never both; and the timer
-- waits for a second at least and half a minute at most.
pub record IsAlive (s : Socket) : Type 0 where
  pub one_of : s.closed ≡ false → is_set s.timer ≡ not s.live
  pub waits : (d : ℕ) → s.timer ≡ some d → (1000 ≤ d) × (d ≤ 30000)

delay_range : (n : ℕ) → (1000 ≤ delay n) × (delay n ≤ 30000)
delay_range n = let one : 1 ≤ 2 ^ n = one-le-pow n 2 (omega arith) in (omega arith, omega arith)

step-IsAlive : {s t : Socket} → SocketStep s t → IsAlive s → IsAlive t
unfolding on_open on_close on_timer connect close_socket
step-IsAlive (opens s live) a = record { one_of = a.one_of; waits = a.waits }
step-IsAlive (ends s live) a = elim (Bool-cases s.closed) [
  | inl e ↦ rw e (record { one_of = λ c. cc; waits = a.waits })
  | inr e ↦
      rw e (record { one_of = λ c. refl; waits = λ d h. ground (arith, delay_range s.retries) })
]
step-IsAlive (fires s d set) a = elim (Bool-cases s.closed) [
  | inl e ↦ rw e (record { one_of = λ c. cc; waits = λ d h. cc })
  | inr e ↦ rw e (record { one_of = λ c. refl; waits = λ d h. cc })
]
step-IsAlive (closes s) a = record { one_of = λ c. cc; waits = a.waits }

-- Whatever happens to a connection, the socket is alive in this sense: while the handle is not closed,
-- either the socket lives or a timer is set to connect again, never both, and a timer that is set waits for
-- a second at least and half a minute at most.
pub SocketReach-IsAlive : {s : Socket} → SocketReach s → IsAlive s
unfolding open_socket connect
SocketReach-IsAlive start = record { one_of = λ c. refl; waits = λ d h. cc }
SocketReach-IsAlive (next r st) = step-IsAlive st (SocketReach-IsAlive r)
