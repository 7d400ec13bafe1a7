-- ===== src/Engine/Events/Started.antt =====
-- A start of a run keeps the engine settled.
use vidhi_trading_platform.Prelude.{
  Bool, true, false, String, if◌then◌else◌, refl, arith, Option-cases, if_either, inl, inr,
}
use vidhi_trading_platform.Store.Types.{Browser}
use vidhi_trading_platform.Client.Http.{Result, value, thrown}
use vidhi_trading_platform.Engine.Types.{Mode, local_mode, backend_mode, cloud_mode, Engine}
use vidhi_trading_platform.Engine.Notify.{set_status, log}
use vidhi_trading_platform.Engine.Messages.{Texts}
use vidhi_trading_platform.Engine.Validate.{validate_backend_python}
use vidhi_trading_platform.Engine.Config.{Options}
use vidhi_trading_platform.Engine.Submit.{
  Backend, Stage, submitted, submit_run, start_cloud_run, start_backend_run, connect_ws,
  disconnect_ws,
}
use vidhi_trading_platform.Engine.Launch.{start_local_run, on_world, prepare, in_mode, start}
use vidhi_trading_platform.Engine.Events.Settled.{
  IsSettled, log-IsSettled, fail_before_run-IsSettled,
}

abbrev pub IsSettledStage : Stage → Type 0
IsSettledStage s = IsSettled s.0.0

given_run-IsSettled :
    (again : Bool) (m run_id id_line steps : String) (e : Engine)
    → IsSettled e
    → IsSettled (
        log steps (log id_line (record (if again then log m e else e) { current_run_id = run_id })))
given_run-IsSettled again m run_id id_line steps e h =
    let s = if_either IsSettled again (log-IsSettled m e h) h in
    log-IsSettled _ _
      (log-IsSettled _ _ (record { lines = s.lines; kept = s.kept; flags = s.flags }))

submitted-IsSettled :
    (mode : Mode) (again : Bool) (base : String) (result : Result String) (e : Engine)
    → IsSettled e
    → IsSettled (submitted mode again base result e)
unfolding submitted
submitted-IsSettled cloud_mode again base (value run_id) e h =
    given_run-IsSettled again _ run_id _ _ e h
submitted-IsSettled cloud_mode true base (thrown m) e h =
    fail_before_run-IsSettled _ _ (log-IsSettled _ e h)
submitted-IsSettled cloud_mode false base (thrown m) e h = fail_before_run-IsSettled _ e h
submitted-IsSettled local_mode again base (value run_id) e h =
    given_run-IsSettled again _ run_id _ _ e h
submitted-IsSettled backend_mode again base (value run_id) e h =
    given_run-IsSettled again _ run_id _ _ e h
submitted-IsSettled local_mode again base (thrown m) e h =
    fail_before_run-IsSettled _ _ (if_either IsSettled again (log-IsSettled _ e h) h)
submitted-IsSettled backend_mode again base (thrown m) e h =
    fail_before_run-IsSettled _ _ (if_either IsSettled again (log-IsSettled _ e h) h)

submit_run-IsSettled :
    (texts : Texts) (mode : Mode) (b : Browser) (k : Backend) (code : String) (practice : Bool)
    (base : String) (s : Stage)
    → IsSettledStage s
    → IsSettledStage (submit_run texts mode b k code practice base s)
unfolding submit_run
submit_run-IsSettled texts mode b k code practice base ((e, st), key) h =
    submitted-IsSettled mode _ base _ e h

connected-IsSettled : (m : String) (e : Engine) → IsSettled e → IsSettled (log m (connect_ws e))
unfolding connect_ws
connected-IsSettled m e h =
    log-IsSettled m _ (record { lines = h.lines; kept = h.kept; flags = h.flags })

start_backend_run-IsSettled :
    (texts : Texts) (b : Browser) (k : Backend) (code : String) (options : Options) (s : Stage)
    → IsSettledStage s
    → IsSettledStage (start_backend_run texts b k code options s)
unfolding start_backend_run
start_backend_run-IsSettled texts b k code options ((e, st), key) h =
    elim (Option-cases (validate_backend_python code)) [
      | inl valid ↦
          rw (valid, start_backend_run)
            (submit_run-IsSettled texts backend_mode b k code _ "" _ (connected-IsSettled _ e h))
      | inr (m, bad) ↦ rw (bad, start_backend_run) (fail_before_run-IsSettled m e h)
    ]

start_cloud_run-IsSettled :
    (texts : Texts) (b : Browser) (k : Backend) (code : String) (s : Stage)
    → IsSettledStage s
    → IsSettledStage (start_cloud_run texts b k code s)
unfolding start_cloud_run
start_cloud_run-IsSettled texts b k code ((e, st), key) h =
    elim (Option-cases (validate_backend_python code)) [
      | inl valid ↦
          rw (valid, start_cloud_run)
            (submit_run-IsSettled texts cloud_mode b k code _ _ _
              (connected-IsSettled _ _ (log-IsSettled _ _ (log-IsSettled _ e h))))
      | inr (m, bad) ↦
          rw (bad, start_cloud_run) (fail_before_run-IsSettled m _ (log-IsSettled _ e h))
    ]

start_local_run-IsSettled :
    (b : Browser) (code : String) (options : Options) (s : Stage)
    → IsSettledStage s
    → IsSettledStage (on_world (start_local_run b code options) s)
unfolding start_local_run
start_local_run-IsSettled b code options ((e, st), key) h =
    let s = log-IsSettled _ e h in record { lines = s.lines; kept = s.kept; flags = s.flags }

in_mode-IsSettled :
    (mode : Mode) (line : String) (e : Engine) → IsSettled e → IsSettled (in_mode mode line e)
in_mode-IsSettled mode line e h =
    log-IsSettled line _ (record { lines = h.lines; kept = h.kept; flags = h.flags })

prepare-IsSettled : (code : String) (e : Engine) → IsSettled e → IsSettled (prepare code e)
unfolding prepare set_status disconnect_ws
prepare-IsSettled code e h =
    let (pnls, latencies, volumes, buffered) = h.kept in
    record {
      lines = omega arith;
      kept = (omega arith, omega arith, omega arith, buffered);
      flags = (λ c. refl, λ q. refl);
    }

pub start-IsSettled :
    (texts : Texts) (b : Browser) (k : Backend) (code : String) (options : Options) (s : Stage)
    → IsSettledStage s
    → IsSettledStage (start texts b k code options s)
unfolding start
start-IsSettled texts b k code options ((e, st), key) h =
    let p = prepare-IsSettled code e h in
    if_either IsSettledStage options.force_local
      (start_local_run-IsSettled b code options ((_, st), key) (in_mode-IsSettled local_mode _ _ p))
      (if_either IsSettledStage options.force_cloud
        (start_cloud_run-IsSettled texts b k code _ (in_mode-IsSettled cloud_mode _ _ p))
        (if_either IsSettledStage k.local_up
          (start_backend_run-IsSettled texts b k code options _
            (in_mode-IsSettled backend_mode _ _ p))
          (start_local_run-IsSettled b code options ((_, st), key)
            (in_mode-IsSettled local_mode _ _ p))))
