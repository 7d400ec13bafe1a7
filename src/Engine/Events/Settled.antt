-- ===== src/Engine/Events/Settled.antt =====
-- The engine keeps its lists short, and its status fits the flag of a simulation.
use vidhi_trading_platform.Prelude.{
  ℕ, ◌≤◌, Bool, true, false, String, str_eq, push_capped, length, ◌≡◌, refl, length-push_capped,
  Option, none, some, Option-cases, if_either, if◌then◌else◌, inl, inr,
}
use vidhi_trading_platform.Sim.Batch.{tick_update, simulation_complete, simulation_stopped}
use vidhi_trading_platform.Store.Types.{Browser}
use vidhi_trading_platform.Client.Poll.{RunInfo}
use vidhi_trading_platform.Engine.Types.{
  Status, idle, queued, running, done, Tick, Engine, WsMessage, run_update, tick_telemetry, other,
  WorkerMessage, compile_ok, compile_error, of_simulation,
}
use vidhi_trading_platform.Engine.Notify.{set_status, log}
use vidhi_trading_platform.Engine.Telemetry.{process_tick, is_foreign, buffer_tick, on_timer}
use vidhi_trading_platform.Engine.Messages.{
  Texts, World, is_ended, handle_ws, end_run, show_run, handle_local, end_local,
}
use vidhi_trading_platform.Engine.Polling.{
  is_failed, on_poll_cloud, on_poll_backend, detect_backends,
}
use vidhi_trading_platform.Engine.Submit.{fail_before_run}

abbrev pub is_active : Status → Bool
is_active queued = true
is_active running = true
is_active Status.error = true
is_active _ = false

abbrev pub is_queued : Status → Bool
is_queued queued = true
is_queued _ = false

abbrev pub is_there {ℓ} : {A : Type ℓ} → Option A → Bool
is_there none = false
is_there (some a) = true

-- A simulation that goes on is queued, running or in error, and one that is queued goes on.
abbrev pub IsFlagged : Bool → Status → Type 0
IsFlagged simulating s =
    (simulating ≡ true → is_active s ≡ true) × (is_queued s ≡ true → simulating ≡ true)

-- A thousand points of each history at most are kept, and telemetry waits only while the timer is set.
abbrev pub IsKept : Engine → Type 0
IsKept e =
    (length e.pnl_points ≤ 1000)
    × (length e.latency_points ≤ 1000)
    × (length e.volume_points ≤ 1000)
    × (is_there e.telemetry_buffer ≡ true → e.timer_set ≡ true)

pub record IsSettled (e : Engine) : Type 0 where
  pub lines : length e.log_history ≤ 50
  pub kept : IsKept e
  pub flags : IsFlagged e.is_simulating e.status

pub ended_flags : (s : Status) → is_queued s ≡ false → IsFlagged false s
ended_flags s h = (λ c. cc, λ q. cc)

pub log-IsSettled : (m : String) (e : Engine) → IsSettled e → IsSettled (log m e)
unfolding log
log-IsSettled m e h = record {
  lines = length-push_capped 50 e.log_history m h.lines;
  kept = h.kept;
  flags = h.flags;
}

pub on_timer-IsSettled : (e : Engine) → IsSettled e → IsSettled (on_timer e)
unfolding on_timer process_tick
on_timer-IsSettled e h =
    let (pnls, latencies, volumes, buffered) = h.kept in
    elim (Option-cases e.telemetry_buffer) [
      | inl empty ↦
          rw empty (record {
            lines = h.lines;
            kept = (pnls, latencies, volumes, λ c. cc);
            flags = h.flags;
          })
      | inr (t, waits) ↦ rw waits (record {
        lines = h.lines;
        kept = (
          length-push_capped 1000 _ _ pnls,
          length-push_capped 1000 _ _ latencies,
          length-push_capped 1000 _ _ volumes,
          λ c. cc,
        );
        flags = h.flags;
      })
    ]

pub buffer_tick-IsSettled :
    (i : String) (t : Tick) (e : Engine) → IsSettled e → IsSettled (buffer_tick i t e)
unfolding buffer_tick
buffer_tick-IsSettled i t e h =
    let (pnls, latencies, volumes, buffered) = h.kept in
    if_either IsSettled e.is_simulating
      (if_either IsSettled (is_foreign i e) h
        (record { lines = h.lines; kept = (pnls, latencies, volumes, λ c. refl); flags = h.flags }))
      h

pub fail_before_run-IsSettled :
    (m : String) (e : Engine) → IsSettled e → IsSettled (fail_before_run m e)
unfolding fail_before_run log set_status
fail_before_run-IsSettled m e h = record {
  lines = length-push_capped 50 e.log_history _ h.lines;
  kept = h.kept;
  flags = ended_flags Status.error refl;
}

done_or_error : (b : Bool) → IsFlagged false (if b then done else Status.error)
done_or_error true = ended_flags done refl
done_or_error false = ended_flags Status.error refl

pub handle_ws-IsSettled :
    (texts : Texts) (b : Browser) (m : WsMessage) (w : World)
    → IsSettled w.0
    → IsSettled (handle_ws texts b m w).0
unfolding handle_ws end_run show_run log set_status
handle_ws-IsSettled texts b other (e, st) h = h
handle_ws-IsSettled texts b (tick_telemetry i t) (e, st) h = buffer_tick-IsSettled i t e h
handle_ws-IsSettled texts b (run_update r) (e, st) h =
    let P : World → Type 0 = λ w. IsSettled w.0 in
    if_either P (is_foreign r.run_id e) h (
      if_either P (is_ended r.status)
        (record {
          lines = length-push_capped 50 e.log_history _ h.lines;
          kept = h.kept;
          flags = done_or_error (str_eq r.status "complete");
        })
        (record {
          lines = length-push_capped 50 e.log_history _ h.lines;
          kept = h.kept;
          flags = h.flags;
        }))

pub handle_local-IsSettled :
    (texts : Texts) (b : Browser) (m : WorkerMessage) (w : World)
    → IsSettled w.0
    → IsSettled (handle_local texts b m w).0
unfolding handle_local end_local log set_status
handle_local-IsSettled texts b (of_simulation (tick_update u)) (e, st) h = record {
  lines = h.lines;
  kept = h.kept;
  flags = h.flags;
}
handle_local-IsSettled texts b (compile_ok m) (e, st) h = record {
  lines = length-push_capped 50 e.log_history _ h.lines;
  kept = h.kept;
  flags = (λ c. refl, λ q. cc);
}
handle_local-IsSettled texts b (compile_error m) (e, st) h = record {
  lines = length-push_capped 50 e.log_history _ h.lines;
  kept = h.kept;
  flags = (λ c. refl, λ q. cc);
}
handle_local-IsSettled texts b (of_simulation (simulation_complete r)) (e, st) h = record {
  lines = length-push_capped 50 e.log_history _ h.lines;
  kept = h.kept;
  flags = ended_flags done refl;
}
handle_local-IsSettled texts b (of_simulation (simulation_stopped r)) (e, st) h = record {
  lines = h.lines;
  kept = h.kept;
  flags = ended_flags idle refl;
}

pub poll_cloud-IsSettled :
    (texts : Texts) (n : ℕ) (r : RunInfo) (e : Engine)
    → IsSettled e
    → IsSettled (on_poll_cloud texts n r e)
unfolding on_poll_cloud log set_status
poll_cloud-IsSettled texts n r e h =
    let lines : length (push_capped 50 e.log_history _) ≤ 50 =
      length-push_capped 50 e.log_history _ h.lines in
    if_either IsSettled e.poll_stopped h (
      if_either IsSettled (str_eq r.status "running")
        (record { lines = lines; kept = h.kept; flags = h.flags })
        (if_either IsSettled (is_failed r.status)
          (record { lines = lines; kept = h.kept; flags = ended_flags Status.error refl })
          (record { lines = lines; kept = h.kept; flags = h.flags })))

pub poll_backend-IsSettled :
    (texts : Texts) (n : ℕ) (r : RunInfo) (e : Engine)
    → IsSettled e
    → IsSettled (on_poll_backend texts n r e)
unfolding on_poll_backend log set_status
poll_backend-IsSettled texts n r e h =
    let lines : length (push_capped 50 e.log_history _) ≤ 50 =
      length-push_capped 50 e.log_history _ h.lines in
    if_either IsSettled (str_eq r.status "running")
      (record { lines = lines; kept = h.kept; flags = h.flags })
      (if_either IsSettled (is_failed r.status)
        (record { lines = lines; kept = h.kept; flags = ended_flags Status.error refl })
        (record { lines = lines; kept = h.kept; flags = h.flags }))

pub detect_backends-IsSettled :
    (local_up cloud_up : Bool) (e : Engine)
    → IsSettled e
    → IsSettled (detect_backends local_up cloud_up e)
unfolding detect_backends
detect_backends-IsSettled true cloud_up e h =
    let s = log-IsSettled _ _ (log-IsSettled _ e h) in
    record { lines = s.lines; kept = s.kept; flags = s.flags }
detect_backends-IsSettled false cloud_up e h =
    let s = log-IsSettled _ e h in record { lines = s.lines; kept = s.kept; flags = s.flags }
