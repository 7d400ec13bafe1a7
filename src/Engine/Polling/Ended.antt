-- ===== src/Engine/Polling/Ended.antt =====
-- How the websocket and the poll share the end of a run.

use vidhi_trading_platform.Prelude.{
  ℕ, ◌+◌, true, false, str_eq, List, [], ◌∷◌, length, All, ◌≡◌, refl, ◌∙◌, ap, if_true, if_false,
  if_either, subst, sym, if◌then◌else◌,
}
use vidhi_trading_platform.Store.Types.{Browser}
use vidhi_trading_platform.Client.Poll.{RunInfo}
use vidhi_trading_platform.Engine.Types.{Status, done, RunUpdate, run_update, Engine}
use vidhi_trading_platform.Engine.Notify.{set_status, log}
use vidhi_trading_platform.Engine.Telemetry.{is_foreign}
use vidhi_trading_platform.Engine.Messages.{Texts, World, is_ended, handle_ws, end_run}
use vidhi_trading_platform.Engine.Messages.Local.{completions, tells}
use vidhi_trading_platform.Engine.Polling.{is_failed, on_poll_cloud, on_poll_backend, on_polls}

polls_stopped :
    (texts : Texts) (n : ℕ) (rs : List RunInfo) (e : Engine)
    → e.poll_stopped ≡ true
    → on_polls (on_poll_cloud texts n) rs e ≡ e
unfolding on_polls on_poll_cloud
polls_stopped texts n [] e h = refl
polls_stopped texts n (r ∷ rs) e h =
    ap (on_polls (on_poll_cloud texts n) rs) (if_true e.poll_stopped _ _ h)
    ∙ polls_stopped texts n rs e h

-- What a run that ended leaves of the engine, from `e`, in `e'`.
pub record IsEnded (r : RunUpdate) (e e' : Engine) : Type 0 where
  pub stopped : e'.is_simulating ≡ false
  pub judged : e'.status ≡ (if str_eq r.status "complete" then done else Status.error)
  pub told_once : completions e'.told ≡ completions e.told + length e.complete_subscribers
  pub polls_off : e'.poll_stopped ≡ true

end_run-IsEnded : (texts : Texts) (r : RunUpdate) (e : Engine) → IsEnded r e (end_run texts r e)
unfolding end_run log set_status
end_run-IsEnded texts r e = record {
  stopped = refl;
  judged = refl;
  told_once = simp tells;
  polls_off = refl;
}

-- A message of the websocket that a run is complete, failed or timed out, if the engine does not take it
-- for another run's, ends the run: the engine does not simulate, is done exactly if the run is complete and
-- else in error, told every subscriber once, and no run that the poll of a cloud run reports after that
-- changes anything.
pub handle_ws_ends :
    (texts : Texts) (b : Browser) (r : RunUpdate) (w : World) (n : ℕ) (rs : List RunInfo)
    → is_foreign r.run_id w.0 ≡ false
    → is_ended r.status ≡ true
    → let e' = (handle_ws texts b (run_update r) w).0 in
      IsEnded r w.0 e' × (on_polls (on_poll_cloud texts n) rs e' ≡ e')
unfolding handle_ws
handle_ws_ends texts b r (e, st) n rs mine ended =
    let eq : (handle_ws texts b (run_update r) (e, st)).0 ≡ end_run texts r e =
      ap (λ (w : World). w.0)
        (if_false (is_foreign r.run_id e) _ _ mine ∙ if_true (is_ended r.status) _ _ ended) in
    subst (λ e'. IsEnded r e e' × (on_polls (on_poll_cloud texts n) rs e' ≡ e')) (sym eq)
      (
        end_run-IsEnded texts r e,
        polls_stopped texts n rs (end_run texts r e) (end_run-IsEnded texts r e).polls_off,
      )

-- What a run that the poll reports leaves as it was where the run did not fail.
pub record IsGoing (e e' : Engine) : Type 0 where
  pub simulating : e'.is_simulating ≡ e.is_simulating
  pub same_status : e'.status ≡ e.status
  pub untold : completions e'.told ≡ completions e.told

poll_cloud-IsGoing :
    (texts : Texts) (n : ℕ) (r : RunInfo) (e : Engine)
    → is_failed r.status ≡ false
    → IsGoing e (on_poll_cloud texts n r e)
unfolding on_poll_cloud log
poll_cloud-IsGoing texts n r e ok =
    if_either (IsGoing e) e.poll_stopped
      (record { simulating = refl; same_status = refl; untold = refl })
      (if_either (IsGoing e) (str_eq r.status "running")
        (record { simulating = refl; same_status = refl; untold = simp tells })
        (subst (IsGoing e) (sym (if_false (is_failed r.status) _ _ ok))
          (record { simulating = refl; same_status = refl; untold = simp tells })))

poll_backend-IsGoing :
    (texts : Texts) (n : ℕ) (r : RunInfo) (e : Engine)
    → is_failed r.status ≡ false
    → IsGoing e (on_poll_backend texts n r e)
unfolding on_poll_backend log
poll_backend-IsGoing texts n r e ok =
    if_either (IsGoing e) (str_eq r.status "running")
      (record { simulating = refl; same_status = refl; untold = simp tells })
      (subst (IsGoing e) (sym (if_false (is_failed r.status) _ _ ok))
        (record { simulating = refl; same_status = refl; untold = simp tells }))

IsGoing-trans : {e e1 e2 : Engine} → IsGoing e e1 → IsGoing e1 e2 → IsGoing e e2
IsGoing-trans g h = record {
  simulating = h.simulating ∙ g.simulating;
  same_status = h.same_status ∙ g.same_status;
  untold = h.untold ∙ g.untold;
}

on_polls-IsGoing_by :
    (callback : RunInfo → Engine → Engine)
    → ((r : RunInfo) (e : Engine) → is_failed r.status ≡ false → IsGoing e (callback r e))
    → (rs : List RunInfo) (e : Engine) → All (λ (r : RunInfo). is_failed r.status ≡ false) rs
    → IsGoing e (on_polls callback rs e)
unfolding on_polls
on_polls-IsGoing_by callback one [] e h = record {
  simulating = refl;
  same_status = refl;
  untold = refl;
}
on_polls-IsGoing_by callback one (r ∷ rs) e (ok, rest) =
    IsGoing-trans (one r e ok) (on_polls-IsGoing_by callback one rs (callback r e) rest)

-- As long as no run that the poll reports failed, the poll leaves the engine's status and the flag of a
-- simulation as they were and tells no subscriber of a completion, on either server, also where the run
-- that it reports last is complete.
pub on_polls-IsGoing :
    (texts : Texts) (n : ℕ) (rs : List RunInfo) (e : Engine)
    → All (λ (r : RunInfo). is_failed r.status ≡ false) rs
    → IsGoing e (on_polls (on_poll_cloud texts n) rs e)
      × IsGoing e (on_polls (on_poll_backend texts n) rs e)
on_polls-IsGoing texts n rs e h = (
  on_polls-IsGoing_by (on_poll_cloud texts n) (poll_cloud-IsGoing texts n) rs e h,
  on_polls-IsGoing_by (on_poll_backend texts n) (poll_backend-IsGoing texts n) rs e h,
)
