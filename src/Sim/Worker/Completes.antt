-- ===== src/Sim/Worker/Completes.antt =====
-- A local run from the payload that starts it to the history that keeps it.
use vidhi_trading_platform.Prelude.{
  ℕ, suc, ◌*◌, ◌≤◌, true, false, String, List, [], ◌∷◌, map, some, ℤ, pos, ltb_ℤ, if_either, ◌≡◌,
  refl, ap, ◌∙◌, arith,
}
use vidhi_trading_platform.Client.Http.{value, thrown}
use vidhi_trading_platform.Sim.Types.{View, Slots, Outcome, Environment, Sim}
use vidhi_trading_platform.Sim.Batch.{BotConfig, init_simulation, fresh, Message, run_batches}
use vidhi_trading_platform.Store.Types.{Browser}
use vidhi_trading_platform.Engine.Types.{
  StartPayload, Status, WorkerMessage, compile_ok, compile_error, of_simulation,
}
use vidhi_trading_platform.Engine.Notify.{set_status, log}
use vidhi_trading_platform.Engine.Messages.{Texts, World, handle_local, handle_locals}
use vidhi_trading_platform.Engine.Messages.Local.{
  IsLocalEnd, completions, tells, local_run_completes,
}
use vidhi_trading_platform.Sim.Worker.{
  Worker, Outside, parse_bot_config, compiled_text, configure, environment, begin, run_started,
  compile, compiled, on_start, run_worker,
}

-- The simulation that a start sets going, with the code that it compiled.
abbrev pub started_sim : Outside → StartPayload → (View → Slots → Outcome) → Worker → Sim
started_sim o p fn w =
    let w1 = configure o p w in
    record (init_simulation (environment o (some fn) w1) w1.base_price
      (parse_bot_config o.parse_scale p.bot_config)) { is_running = true }

init_simulation_count :
    (env : Environment) (base : ℤ) (bots : BotConfig)
    → (init_simulation env base bots).tick_count ≡ 0
unfolding init_simulation fresh
init_simulation_count env base bots =
    if_either (λ (s : Sim). s.tick_count ≡ 0) (ltb_ℤ (pos 0) bots.mm.num) refl refl

run_worker_runs :
    (fuel : ℕ) (o : Outside) (p : StartPayload) (w : Worker) (fn : View → Slots → Outcome)
    (ms : List Message) (end : Sim)
    → compile o p.code ≡ value fn
    → run_batches fuel (environment o (some fn) (configure o p w)) (started_sim o p fn w)
      ≡ some (ms, end)
    → run_worker fuel o p w
      ≡ some (
        compile_ok (compiled_text o.locale (configure o p w).dataset_prices) ∷ map of_simulation ms,
        record (configure o p w) { sim = end },
      )
unfolding run_worker on_start begin
run_worker_runs fuel o p w fn ms end e runs =
    let w1 = configure o p w in
    ap (λ r. run_started fuel (environment o (compiled r) w1) (begin o p w1 r)) e ∙ rw runs refl

-- From the payload of a local run whose code compiles, and with batches enough for its ticks, the worker
-- posts messages after which the engine is done and no longer simulating, every subscriber was told of one
-- completion more, and the newest run of the history is one of all the ticks, of the engine's code.
pub run_worker_completes :
    (texts : Texts) (b : Browser) (o : Outside) (p : StartPayload) (w : Worker)
    (fn : View → Slots → Outcome) (k : ℕ) (world : World)
    → compile o p.code ≡ value fn
    → (configure o p w).max_ticks ≤ 500 * k
    → (ms : List WorkerMessage) × (w' : Worker) × (run_worker (suc k) o p w ≡ some (ms, w'))
      × IsLocalEnd b (configure o p w).max_ticks world (handle_locals texts b ms world)
unfolding environment
run_worker_completes texts b o p w fn k world e enough =
    let w1 = configure o p w in
    let env = environment o (some fn) w1 in
    let zero_count =
      init_simulation_count env w1.base_price (parse_bot_config o.parse_scale p.bot_config) in
    let text = compiled_text o.locale w1.dataset_prices in
    let (ms, end, runs, ended) =
      local_run_completes texts b env k (started_sim o p fn w) text world refl
        (omega (arith, zero_count)) (omega (arith, zero_count, enough)) in
    (
      compile_ok text ∷ map of_simulation ms,
      record w1 { sim = end },
      run_worker_runs (suc k) o p w fn ms end e runs,
      ended,
    )

-- A run whose code does not compile posts that and nothing more, however many batches it is given: the
-- engine is in error, with its flag of a simulation as before, no subscriber is told of a completion, and
-- the store is as it was.
pub run_worker_refuses :
    (texts : Texts) (b : Browser) (o : Outside) (p : StartPayload) (w : Worker) (m : String)
    (fuel : ℕ) (world : World)
    → compile o p.code ≡ thrown m
    → let after = handle_locals texts b (compile_error m ∷ []) world in
      (w' : Worker) × (run_worker fuel o p w ≡ some (compile_error m ∷ [], w'))
      × (w'.sim.is_running ≡ false)
      × (after.0.status ≡ Status.error)
      × (after.0.is_simulating ≡ world.0.is_simulating)
      × (completions after.0.told ≡ completions world.0.told)
      × (after.1 ≡ world.1)
unfolding run_worker on_start begin handle_locals handle_local set_status log
run_worker_refuses texts b o p w m fuel (e, st) e1 =
    let w1 = configure o p w in
    (
      (begin o p w1 (thrown m)).0,
      ap (λ r. run_started fuel (environment o (compiled r) w1) (begin o p w1 r)) e1,
      refl,
      refl,
      refl,
      simp tells,
      refl,
    )
