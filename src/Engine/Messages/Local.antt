-- ===== src/Engine/Messages/Local.antt =====
-- A local run as a whole: the batches of the worker, and what the engine and the store make of the
-- messages that they post.
use native.Mathlib.Nat.{add-zero}
use vidhi_trading_platform.Prelude.{
  ℕ, suc, ◌+◌, ◌*◌, ◌≤◌, ◌≡◌, refl, sym, subst, ◌∙◌, ap, true, false, String, List, [], ◌∷◌, ◌++◌,
  map, Option, some, length, take, arith,
}
use vidhi_trading_platform.Sim.Types.{Environment, Sim}
use vidhi_trading_platform.Sim.Batch.{
  FinalReport, TickUpdate, Message, tick_update, simulation_complete, simulation_stopped,
  run_batches,
}
use vidhi_trading_platform.Sim.Progress.{EndsWith, run_batches_end}
use vidhi_trading_platform.Store.Types.{Run, Browser}
use vidhi_trading_platform.Store.Storage.{change, save}
use vidhi_trading_platform.Store.Student.{add_run_history}
use vidhi_trading_platform.Engine.Types.{
  Status, done, Shown, compile_ok, of_simulation, Told, state_told, complete_told, status_told,
}
use vidhi_trading_platform.Engine.Notify.{set_status, log}
use vidhi_trading_platform.Engine.Messages.{
  Texts, World, handle_local, handle_locals, end_local, run_of_report,
}

-- How often a subscriber was told that a run is complete.
abbrev pub completions : List Told → ℕ
completions [] = 0
completions (complete_told i s ∷ ts) = suc (completions ts)
completions (state_told i s ∷ ts) = completions ts
completions (status_told i s m ∷ ts) = completions ts

pub completions-append :
    (xs ys : List Told) → completions (xs ++ ys) ≡ completions xs + completions ys
completions-append [] ys = omega arith
completions-append (complete_told i s ∷ xs) ys = omega (arith, completions-append xs ys)
completions-append (state_told i s ∷ xs) ys = completions-append xs ys
completions-append (status_told i s m ∷ xs) ys = completions-append xs ys

pub completions_states : (s : Shown) (is : List ℕ) → completions (map (λ i. state_told i s) is) ≡ 0
completions_states s [] = refl
completions_states s (i ∷ is) = completions_states s is

pub completions_statuses :
    (s : Status) (m : Option String) (is : List ℕ)
    → completions (map (λ i. status_told i s m) is) ≡ 0
completions_statuses s m [] = refl
completions_statuses s m (i ∷ is) = completions_statuses s m is

pub completions_completes :
    (s : Shown) (is : List ℕ) → completions (map (λ i. complete_told i s) is) ≡ length is
completions_completes s [] = refl
completions_completes s (i ∷ is) = omega (arith, completions_completes s is)

pub ruleset tells =
    (completions-append, completions_states, completions_statuses, completions_completes, add-zero)

-- What a local run of `n` ticks leaves, from `w`, in `w'`: it is over, every subscriber was told so once
-- more, and the newest run of the history is that run of the engine's code.
pub record IsLocalEnd (b : Browser) (n : ℕ) (w w' : World) : Type 0 where
  pub is_done : w'.0.status ≡ done
  pub stopped : w'.0.is_simulating ≡ false
  pub told_once : completions w'.0.told ≡ completions w.0.told + length w.0.complete_subscribers
  pub recorded :
      (run : Run) × (run.ticks ≡ n)
      × (run.code ≡ w.0.current_code)
      × (w'.1.state.my_submissions
          ≡ take 50 (record { run = run; timestamp = b.now } ∷ w.1.state.my_submissions))

handle_local_complete :
    (texts : Texts) (b : Browser) (r : FinalReport) (w : World)
    → IsLocalEnd b r.total_ticks w (handle_local texts b (of_simulation (simulation_complete r)) w)
unfolding handle_local end_local set_status log add_run_history change save run_of_report
handle_local_complete texts b r (e, st) = record {
  is_done = refl;
  stopped = refl;
  told_once = simp tells;
  recorded = (run_of_report texts b r e, refl, refl, refl);
}

-- A message before the end leaves what the end depends on.
record IsBefore (w w' : World) : Type 0 where
  told : completions w'.0.told ≡ completions w.0.told
  subscribed : w'.0.complete_subscribers ≡ w.0.complete_subscribers
  coded : w'.0.current_code ≡ w.0.current_code
  submitted : w'.1.state.my_submissions ≡ w.1.state.my_submissions

after_before :
    {b : Browser} {n : ℕ} {w w1 w2 : World}
    → IsBefore w w1
    → IsLocalEnd b n w1 w2
    → IsLocalEnd b n w w2
after_before {b} {n} {w} {w1} {w2} before end =
    let (run, ticks, code, kept) = end.recorded in
    record {
      is_done = end.is_done;
      stopped = end.stopped;
      told_once =
          end.told_once
          ∙ ap (λ k. k + length w1.0.complete_subscribers) before.told
          ∙ ap (λ is. completions w.0.told + length is) before.subscribed;
      recorded = (
        run,
        ticks,
        code ∙ before.coded,
        kept ∙ ap (λ rs. take 50 (record { run = run; timestamp = b.now } ∷ rs)) before.submitted,
      );
    }

handle_local_update :
    (texts : Texts) (b : Browser) (u : TickUpdate) (w : World)
    → IsBefore w (handle_local texts b (of_simulation (tick_update u)) w)
unfolding handle_local
handle_local_update texts b u (e, st) = record {
  told = simp tells;
  subscribed = refl;
  coded = refl;
  submitted = refl;
}

handle_local_compiled :
    (texts : Texts) (b : Browser) (m : String) (w : World)
    → IsBefore w (handle_local texts b (compile_ok m) w)
unfolding handle_local set_status log
handle_local_compiled texts b m (e, st) = record {
  told = simp tells;
  subscribed = refl;
  coded = refl;
  submitted = refl;
}

handle_locals_end :
    (texts : Texts) (b : Browser) (n : ℕ) (ms : List Message) (w : World)
    → EndsWith n ms
    → IsLocalEnd b n w (handle_locals texts b (map of_simulation ms) w)
unfolding handle_locals
handle_locals_end texts b n [] w h = absurd h
handle_locals_end texts b n (tick_update u ∷ ms) w h =
    after_before (handle_local_update texts b u w) (handle_locals_end texts b n ms _ h)
handle_locals_end texts b n (simulation_stopped r ∷ ms) w h = absurd h
handle_locals_end texts b n (simulation_complete r ∷ ms) w (ticks, none_left) =
    subst
      (λ ms. IsLocalEnd b n w (
        handle_locals texts b (map of_simulation ms)
          (handle_local texts b (of_simulation (simulation_complete r)) w)))
      (sym none_left)
      (subst
        (λ k. IsLocalEnd b k w (handle_local texts b (of_simulation (simulation_complete r)) w))
        ticks (handle_local_complete texts b r w))

-- A local run that compiles comes to its end: the worker, started at a running simulation that has not
-- passed its last tick, posts within the given number of batches messages after which the engine is done
-- and no longer simulating, every subscriber was told of one completion more, and the newest run of the
-- history is one of all the ticks, of the engine's code.
pub local_run_completes :
    (texts : Texts) (b : Browser) (env : Environment) (k : ℕ) (s : Sim) (message : String)
    (w : World)
    → s.is_running ≡ true
    → s.tick_count ≤ env.max_ticks
    → env.max_ticks ≤ s.tick_count + 500 * k
    → (ms : List Message) × (end : Sim) × (run_batches (suc k) env s ≡ some (ms, end))
      × IsLocalEnd b env.max_ticks w
          (handle_locals texts b (compile_ok message ∷ map of_simulation ms) w)
unfolding handle_locals
local_run_completes texts b env k s message w runs low high =
    let (ms, end, eq, stopped, full, posted) = run_batches_end k env s runs low high in
    (
      ms,
      end,
      eq,
      after_before (handle_local_compiled texts b message w)
          (handle_locals_end texts b env.max_ticks ms _ posted),
    )
