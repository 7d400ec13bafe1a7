-- ===== src/Client/Poll.antt =====
-- `pollRunUntilDone`. The clock and the server are parameters: the milliseconds since the start at which
-- a round begins, and what the server answers in it.
pub mod Ends
use vidhi_trading_platform.Prelude.{
  ℕ, zero, suc, ◌+◌, ◌*◌, ◌≤◌, ◌<◌, Bool, true, false, ◌||◌, ◌&&◌, not, String, str_eq, List, [],
  ◌∷◌, ◌++◌, Option, none, some, ltb, if◌then◌else◌, ℤ, All, ◌≡◌, refl, Bool-cases, inl, inr, arith,
  lt→ltb,
}
use vidhi_trading_platform.Client.Http.{Response, Result, value, thrown, read}

-- A run as the server reports it.
pub record RunInfo : Type 0 where
  pub run_id : String
  pub status : String
  pub total_ticks : ℕ
  pub pnl : ℤ
  pub pnl_pct : ℤ
  pub tle_count : ℕ

-- `TERMINAL`
abbrev pub is_terminal : String → Bool
is_terminal status = str_eq status "complete" || (str_eq status "error" || str_eq status "tle")

abbrev pub max_wait : ℕ
max_wait = 10 * 60 * 1000

pub record PollEnv : Type 0 where
  pub elapsed : ℕ → ℕ
  pub answer : ℕ → Response RunInfo
  pub throws : RunInfo → Bool
  pub show : ℕ → String

-- How a poll ends: by a return, or by the error of the time-out.
pub data Polled : Type 0 where
  finished : RunInfo → Polled
  timed_out : Polled

-- The runs that `onProgress` was called with, and the end.
abbrev pub Polling : Type 0
Polling = List RunInfo × Polled

abbrev pub reported : RunInfo → Option Polling → Option Polling
reported run none = none
reported run (some (runs, end)) = some (run ∷ runs, end)

-- The condition of `return run`.
unfoldable pub is_returned : PollEnv → RunInfo → Bool
is_returned env run = is_terminal run.status && not (env.throws run)

-- The loop from round `i`; `none` where the fuel runs out. An error of the request, and one that
-- `onProgress` throws, is caught, so that the run is not looked at, and the loop goes on.
unfoldable pub poll_from : ℕ → PollEnv → ℕ → Option Polling
poll_from zero env i = none
poll_from (suc fuel) env i =
    let next = poll_from fuel env (suc i) in
    elim (ltb (env.elapsed i) max_wait) [
      | false ↦ some ([], timed_out)
      | true ↦ elim (read env.show (env.answer i)) [
        | thrown _ ↦ next
        | value run ↦ elim (is_returned env run) [
          | true ↦ some (run ∷ [], finished run)
          | false ↦ reported run next
        ]
      ]
    ]

unfoldable pub poll_run_until_done : ℕ → PollEnv → Option Polling
unfolding poll_from
poll_run_until_done fuel env = poll_from fuel env 0
