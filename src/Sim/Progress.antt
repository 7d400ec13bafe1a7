-- ===== src/Sim/Progress.antt =====
-- The simulation makes progress and ends: a batch moves on by at most 500 ticks, and after enough
-- batches the worker has posted its one final report.
use vidhi_trading_platform.Prelude.{
  ℕ, zero, suc, ◌+◌, ◌*◌, ◌≤◌, ◌≡◌, refl, true, false, inl, inr, List, [], ◌∷◌, Option, some, arith,
  ltb, leb, ltb→lt, leb→le, min, Bool-cases, ap, ◌∙◌,
}
use vidhi_trading_platform.Sim.Types.{Environment, Sim, tick_batch}
use vidhi_trading_platform.Sim.Tick.{run_tick}
use vidhi_trading_platform.Sim.Batch.{
  Message, tick_update, simulation_complete, simulation_stopped, final_report, telemetry, run_ticks,
  run_batch, run_batches, after_batch,
}

run_tick_count :
    (env : Environment) (s : Sim)
    → ((run_tick env s).tick_count ≡ s.tick_count + 1)
      × ((run_tick env s).is_running ≡ s.is_running)
unfolding run_tick
run_tick_count env s = (refl, refl)

-- The loop of a batch stops at its rounds or at the last tick, whichever comes first.
pub run_ticks_count :
    (env : Environment) (n : ℕ) (s : Sim)
    → s.tick_count ≤ env.max_ticks
    → ((run_ticks env n s).tick_count ≡ min (s.tick_count + n) env.max_ticks)
      × ((run_ticks env n s).is_running ≡ s.is_running)
unfolding run_ticks
run_ticks_count env zero s h = (omega arith, refl)
run_ticks_count env (suc n) s h =
    let step = run_tick_count env s in
    elim (Bool-cases (ltb s.tick_count env.max_ticks)) [
      | inl more ↦
          let less = ltb→lt s.tick_count env.max_ticks more in
          let ih = run_ticks_count env n (run_tick env s) (omega (arith, step.0, less)) in
          rw more (omega (arith, ih.0, step.0), ih.1 ∙ step.1)
      | inr done ↦ rw done (omega (arith, not_ltb s.tick_count env.max_ticks done), refl)
    ]
  where
    not_ltb : (a b : ℕ) → ltb a b ≡ false → b ≤ a
    not_ltb a b e = ground arith

-- Telemetry alone, and then one final report over `n` ticks.
abbrev pub EndsWith : ℕ → List Message → Type 0
EndsWith n [] = ⊥
EndsWith n (tick_update u ∷ ms) = EndsWith n ms
EndsWith n (simulation_complete r ∷ ms) = (r.total_ticks ≡ n) × (ms ≡ [])
EndsWith n (simulation_stopped r ∷ ms) = ⊥

run_batch_last :
    (env : Environment) (s : Sim)
    → s.is_running ≡ true
    → leb env.max_ticks s.tick_count ≡ true
    → run_batch env s
      ≡ (record s { is_running = false }, some (simulation_complete (final_report s)), false)
unfolding run_batch
run_batch_last env s r e = rw (r, e)

run_batch_more :
    (env : Environment) (s : Sim)
    → s.is_running ≡ true
    → leb env.max_ticks s.tick_count ≡ false
    → let after = run_ticks env tick_batch s in
      run_batch env s ≡ (after, some (tick_update (telemetry env after)), true)
unfolding run_batch
run_batch_more env s r e = rw (r, e)

final_report_ticks : (s : Sim) → (final_report s).total_ticks ≡ s.tick_count
unfolding final_report
final_report_ticks s = refl

more_batches :
    (next : Sim → Option (List Message × Sim)) (s : Sim) (m : Message) {ms : List Message}
    {end : Sim}
    → next s ≡ some (ms, end)
    → after_batch next (s, some m, true) ≡ some (m ∷ ms, end)
more_batches next s m e = rw (e, after_batch)

last_batch :
    (k : ℕ) (env : Environment) (s : Sim)
    → s.is_running ≡ true
    → s.tick_count ≤ env.max_ticks
    → leb env.max_ticks s.tick_count ≡ true
    → (ms : List Message) × (end : Sim) × (run_batches (suc k) env s ≡ some (ms, end))
      × (end.is_running ≡ false)
      × (end.tick_count ≡ env.max_ticks)
      × EndsWith env.max_ticks ms
unfolding run_batches
last_batch k env s r low over =
    let done : s.tick_count ≡ env.max_ticks =
      omega (arith, leb→le env.max_ticks s.tick_count over) in
    (
      simulation_complete (final_report s) ∷ [],
      record s { is_running = false },
      ap (after_batch (run_batches k env)) (run_batch_last env s r over),
      refl,
      done,
      (final_report_ticks s ∙ done, refl),
    )

le→leb : (a b : ℕ) → a ≤ b → leb a b ≡ true
le→leb a b h = ground arith

-- A running simulation that has not passed its last tick ends within one batch more than 500-tick
-- batches cover what is left: it has then run every tick and stopped, having posted telemetry only
-- and then a single final report over all its ticks.
pub run_batches_end :
    (k : ℕ) (env : Environment) (s : Sim)
    → s.is_running ≡ true
    → s.tick_count ≤ env.max_ticks
    → env.max_ticks ≤ s.tick_count + 500 * k
    → (ms : List Message) × (end : Sim) × (run_batches (suc k) env s ≡ some (ms, end))
      × (end.is_running ≡ false)
      × (end.tick_count ≡ env.max_ticks)
      × EndsWith env.max_ticks ms
unfolding run_batches
run_batches_end zero env s r low high =
    last_batch zero env s r low (le→leb env.max_ticks s.tick_count (omega arith))
run_batches_end (suc k) env s r low high = elim (Bool-cases (leb env.max_ticks s.tick_count)) [
  | inl over ↦ last_batch (suc k) env s r low over
  | inr under ↦
      let count = run_ticks_count env tick_batch s low in
      let after = run_ticks env tick_batch s in
      let (ms, end, runs, stopped, full, posted) =
        run_batches_end k env after (count.1 ∙ r) (omega (arith, count.0))
          (omega (arith, count.0)) in
      (
        tick_update (telemetry env after) ∷ ms,
        end,
        ap (after_batch (run_batches (suc k) env)) (run_batch_more env s r under)
            ∙ more_batches (run_batches (suc k) env) _ _ runs,
        stopped,
        full,
        posted,
      )
]
