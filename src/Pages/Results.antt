-- ===== src/Pages/Results.antt =====
-- `CalculatingResults.jsx`: what the page that waits for a run shows of it.
use vidhi_trading_platform.Prelude.{
  ℕ, ◌+◌, ◌-◌, ◌==◌, Bool, false, not, String, str_eq, List, [], ◌∷◌, ◌++◌, length, drop, Option,
  none, some, if◌then◌else◌,
}
use vidhi_trading_platform.Engine.Types.{Status, running, done, error, Shown}

-- `engineStatus`, `engineLogs`, `finalState` and `showMatrix`, and the navigations to the leaderboard that
-- are set.
pub record Results : Type 0 where
  pub engine_status : Status
  pub engine_logs : List String
  pub final_state : Option Shown
  pub show_matrix : Bool
  pub leaving : ℕ

-- `xs.slice(-8)`
abbrev pub last_eight : List String → List String
last_eight xs = drop (length xs - 8) xs

abbrev pub is_error : Shown → Bool
is_error s = elim s.status [ none ↦ false | some t ↦ str_eq t "error" ]

abbrev pub finish : Shown → Results → Results
finish s r =
    if s.is_done then record r { final_state = some s; show_matrix = not (is_error s) } else r

-- The effect of the mount.
unfoldable pub mount : Status → List String → Option Shown → Results
mount status logs last =
    let r : Results = record {
      engine_status = status;
      engine_logs = last_eight logs;
      final_state = none;
      show_matrix = false;
      leaving = 0;
    } in
    elim last [ none ↦ r | some s ↦ finish s r ]

-- The callback of `onStatus`; an empty message is none.
unfoldable pub on_status : Status → Option String → Results → Results
on_status status none r = record r { engine_status = status }
on_status status (some m) r = record r {
  engine_status = status;
  engine_logs = if str_eq m "" then r.engine_logs else last_eight (r.engine_logs ++ (m ∷ []));
}

-- The callback of `subscribe`: the leaderboard follows a run that is done without an error.
unfoldable pub on_state : Shown → Results → Results
on_state s r =
    let shown = finish s r in
    if s.is_done
    then (if is_error s then shown else record shown { leaving = r.leaving + 1 })
    else r

-- `getStatusMessage`
unfoldable pub status_message : Status → String
status_message running = "Evaluating against Bot-Swarm in Sandbox..."
status_message done = "Simulation Complete! Generating Discrepancy Matrix..."
status_message error = "Submission Failed Before Execution"
status_message _ = "Queued for Execution..."

abbrev pub has_some : Option String → Bool
has_some none = false
has_some (some m) = not (str_eq m "")

abbrev pub text_of : Option String → String
text_of none = ""
text_of (some m) = m

abbrev pub is_slow : Shown → Bool
is_slow s = elim s.tl_count [ none ↦ false | some n ↦ not (n == 0) ]

abbrev pub is_oom : Shown → Bool
is_oom s = elim s.oom [ none ↦ false | some b ↦ b ]

abbrev pub failure_reason : Shown → String
failure_reason s =
    if has_some s.error_message
    then text_of s.error_message
    else (if is_slow s
        then "TLE (Time Limit Exceeded): Python script was too slow to respond (max 100µs)."
        else (if is_oom s
            then "OOM (Out of Memory): Contestant exceeded strict RAM limits."
            else "Security Violation (SIGKILL): Kernel terminated process due to unauthorized syscall (e.g. networking/file I/O)."))

-- `getTerminationReason`: nothing but for a final state that is an error.
unfoldable pub termination_reason : Option Shown → Option String
termination_reason none = none
termination_reason (some s) = if is_error s then some (failure_reason s) else none
