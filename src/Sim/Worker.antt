-- ===== src/Sim/Worker.antt =====
-- `self.onmessage`: the start of a simulation from the payload that the engine posts, and its run.
pub mod Completes
use vidhi_trading_platform.Prelude.{
  ℕ, ◌==◌, Bool, true, false, String, ◌+++◌, str_eq, split, trim, letters, to_upper, List, [], ◌∷◌,
  map, length, Option, none, some, if◌then◌else◌, ℤ, pos, eqb_ℤ,
}
use vidhi_trading_platform.Bots.Signal.{Signal, Ratio}
use vidhi_trading_platform.Client.Http.{Result, value, thrown}
use vidhi_trading_platform.Engine.Types.{
  StartPayload, WorkerMessage, compile_ok, compile_error, of_simulation,
}
use vidhi_trading_platform.Sim.Types.{View, Slots, Outcome, Environment, Sim}
use vidhi_trading_platform.Sim.Batch.{BotConfig, init_simulation, run_batches}
use vidhi_trading_platform.Sim.Transpile.{transpile}
use vidhi_trading_platform.Sim.Load.{Sources, load_dataset}

abbrev pub one : Ratio
one = record { num = pos 1; den = 1 }

-- `cfg` of `parseBotConfig`, before its text is read.
abbrev pub full_config : BotConfig
full_config = record { mm = one; mom = one; mr = one; noise = one; sniper = one }

-- `cfg[key] = scale`. A key that is none of the five is a field that nothing reads.
unfoldable pub set_scale : String → Ratio → BotConfig → BotConfig
set_scale key scale c =
    if str_eq key "MM"
    then record c { mm = scale }
    else (if str_eq key "MOM"
        then record c { mom = scale }
        else (if str_eq key "MR"
            then record c { mr = scale }
            else (if str_eq key "NOISE"
                then record c { noise = scale }
                else (if str_eq key "SNIPER" then record c { sniper = scale } else c))))

-- One part of the text: a key, a colon and a number; what follows a second colon is not read.
unfoldable pub read_part : (String → Ratio) → List String → BotConfig → BotConfig
unfolding set_scale to_upper trim
read_part parse_scale (key ∷ val ∷ rest) c =
    if str_eq key "" then c else set_scale (to_upper letters (trim key)) (parse_scale val) c
read_part parse_scale _ c = c

unfoldable pub read_parts : (String → Ratio) → List String → BotConfig → BotConfig
unfolding read_part split trim
read_parts parse_scale [] c = c
read_parts parse_scale (part ∷ parts) c =
    read_parts parse_scale parts (read_part parse_scale (split ":" (trim part)) c)

-- `parseBotConfig`; `parse_scale` is `parseFloat(val) || 0`.
unfoldable pub parse_bot_config : (String → Ratio) → String → BotConfig
unfolding read_parts split
parse_bot_config parse_scale text =
    if str_eq text "" then full_config else read_parts parse_scale (split "," text) full_config

-- The variables of the worker.
pub record Worker : Type 0 where
  pub max_ticks : ℕ
  pub base_price : ℤ
  pub asset_name : String
  pub dataset_prices : Option (List ℤ)
  pub sim : Sim

-- What the worker meets: the sources of the dataset, the function that JavaScript makes of a text, how
-- JavaScript reads a scale and prints a count, the clock, and the random walk.
pub record Outside : Type 0 where
  pub sources : Sources
  pub new_function : String → Result (View → Slots → Outcome)
  pub parse_scale : String → Ratio
  pub locale : ℕ → String
  pub tick_ns : ℕ → ℕ
  pub gbm : ℕ → Signal

-- `compile`, with the error's message where it throws.
unfoldable pub compile : Outside → String → Result (View → Slots → Outcome)
unfolding transpile
compile o code = o.new_function (transpile code)

-- The variables that the payload sets, where it has them, and the dataset.
unfoldable pub configure : Outside → StartPayload → Worker → Worker
unfolding load_dataset
configure o p w =
    let max_ticks = if p.max_ticks == 0 then w.max_ticks else p.max_ticks in
    record w {
      max_ticks = max_ticks;
      base_price = if eqb_ℤ p.base_price (pos 0) then w.base_price else p.base_price;
      asset_name = if str_eq p.asset_name "" then w.asset_name else p.asset_name;
      dataset_prices = load_dataset o.sources p.dataset_key max_ticks;
    }

unfoldable pub environment : Outside → Option (View → Slots → Outcome) → Worker → Environment
environment o fn w = record {
  fn = fn;
  tick_ns = o.tick_ns;
  dataset_prices = w.dataset_prices;
  gbm = o.gbm;
  max_ticks = w.max_ticks;
}

abbrev pub compiled_text : (ℕ → String) → Option (List ℤ) → String
compiled_text locale none = "Code compiled. Using GBM fallback (dataset not available)."
compiled_text locale (some prices) =
    "Code compiled. Dataset loaded (" +++ locale (length prices) +++ " real ticks)."

abbrev pub compiled : Result (View → Slots → Outcome) → Option (View → Slots → Outcome)
compiled (value fn) = some fn
compiled (thrown m) = none

-- What follows the compilation, to the first batch: the worker, and what it posts.
unfoldable pub begin :
    Outside → StartPayload → Worker → Result (View → Slots → Outcome) → Worker × WorkerMessage
unfolding environment init_simulation parse_bot_config
begin o p w (value fn) =
    let bots = parse_bot_config o.parse_scale p.bot_config in
    let sim = init_simulation (environment o (some fn) w) w.base_price bots in
    (
      record w { sim = record sim { is_running = true } },
      compile_ok (compiled_text o.locale w.dataset_prices),
    )
begin o p w (thrown m) =
    let bots = parse_bot_config o.parse_scale p.bot_config in
    let sim = init_simulation (environment o none w) w.base_price bots in
    (record w { sim = record sim { is_running = false } }, compile_error m)

-- `START_SIMULATION`
unfoldable pub on_start : Outside → StartPayload → Worker → Worker × WorkerMessage
unfolding configure begin compile
on_start o p w = begin o p (configure o p w) (compile o p.code)

-- Everything that is posted from a start on, and the worker at the end, or `none` where the fuel runs out.
-- A worker that does not run posts nothing more.
abbrev pub run_started :
    ℕ → Environment → Worker × WorkerMessage → Option (List WorkerMessage × Worker)
run_started fuel env (w, first) =
    if w.sim.is_running
    then elim (run_batches fuel env w.sim) [
      | none ↦ none
      | some (ms, end) ↦ some (first ∷ map of_simulation ms, record w { sim = end })
    ]
    else some (first ∷ [], w)

-- A start and the batches after it.
unfoldable pub run_worker :
    ℕ → Outside → StartPayload → Worker → Option (List WorkerMessage × Worker)
unfolding on_start environment compile
run_worker fuel o p w =
    let fn = compiled (compile o p.code) in
    run_started fuel (environment o fn (configure o p w)) (on_start o p w)
