-- ===== src/Tests/Worker.antt =====
-- The worker on a small dataset, and what its readers make of texts.
use vidhi_trading_platform.Prelude.{
  ◌+◌, ◌*◌, false, String, List, [], ◌∷◌, Option, some, none, ◌≡◌, refl, ℤ, pos, arith,
  if◌then◌else◌, str_eq,
}
use vidhi_trading_platform.Bots.Signal.{Ratio}
use vidhi_trading_platform.Client.Http.{Result, value, thrown, rejected}
use vidhi_trading_platform.Engine.Types.{StartPayload, Status, WorkerMessage, compile_error}
use vidhi_trading_platform.Engine.Messages.{handle_locals}
use vidhi_trading_platform.Engine.Messages.Local.{IsLocalEnd, completions}
use vidhi_trading_platform.Engine.Config.{bot_config_text}
use vidhi_trading_platform.Sim.Types.{View, Slots, Outcome}
use vidhi_trading_platform.Sim.Load.{
  BinaryFile, dataset_magic, parse_csv, normalize_dataset_filename,
}
use vidhi_trading_platform.Sim.Load.Binary.{price_at}
use vidhi_trading_platform.Sim.Worker.{
  full_config, parse_bot_config, Worker, Outside, compile, configure, run_worker,
}
use vidhi_trading_platform.Sim.Worker.Completes.{run_worker_completes, run_worker_refuses}
use vidhi_trading_platform.Tests.Sim.{code, start}
use vidhi_trading_platform.Tests.Store.{browser, store, round}
use vidhi_trading_platform.Tests.Engine.{texts, engine}

abbrev parse_float : String → Option ℤ
parse_float s = if str_eq s "12.5" then some (pos 125_000) else none

abbrev seven_tenths : Ratio
seven_tenths = record { num = pos 7; den = 10 }

abbrev parse_scale : String → Ratio
parse_scale s = if str_eq s "0.7" then seven_tenths else record { num = pos 0; den = 1 }

-- A round with two bots: the three that it leaves out run at full scale.
left_out :
    parse_bot_config parse_scale (bot_config_text "" (round "r1"))
    ≡ record full_config { mm = seven_tenths; mr = seven_tenths }
unfolding parse_bot_config bot_config_text
left_out = refl

fallback_name : normalize_dataset_filename "mango_test.csv" 5 ≡ "mango_test.bin"
unfolding normalize_dataset_filename
fallback_name = refl

-- The price is in the second of three columns; without a header that names it, the fourth is read.
named_column : parse_csv parse_float "Day; Mid;x\n1;12.5;2" ≡ pos 125_000 ∷ []
unfolding parse_csv
named_column = refl

no_column : parse_csv parse_float "a,b,c\n1,12.5,2" ≡ []
unfolding parse_csv
no_column = refl

abbrev file : BinaryFile
file = record { magic = dataset_magic; count = pos 3; byte_length = 200; float64 = λ o. pos o }

cut_short : price_at file (16 + 88 * 2) ≡ pos 0
cut_short = refl

-- A parser that takes two texts.
abbrev new_function : String → Result (View → Slots → Outcome)
new_function source = if str_eq source "pass;" then value code else thrown "Unexpected token"

abbrev outside : Outside
outside = record {
  sources = record {
    parse_float = parse_float;
    encode = λ s. s;
    alb_base = "";
    get_dataset = λ key. value (some "price\n12.5\n");
    fetch = λ url. rejected "Failed to fetch";
  };
  new_function = new_function;
  parse_scale = parse_scale;
  locale = λ n. "1";
  tick_ns = λ t. 100;
  gbm = λ t. record { fair_value = pos 15_000_000; volatility = pos 0; is_news_event = false };
}

abbrev payload : String → StartPayload
payload source = record {
  code = source;
  dataset_key = "mango_test.csv";
  bot_config = "MM:0.7";
  base_price = pos 15_000_000;
  asset_name = "MANGO";
  max_ticks = 5;
}

abbrev worker : Worker
worker = record {
  max_ticks = 100_000;
  base_price = pos 15_000_000;
  asset_name = "VIDHI";
  dataset_prices = none;
  sim = start;
}

five_ticks : (configure outside (payload "pass") worker).max_ticks ≡ 5
unfolding configure
five_ticks = refl

run_worker_completes_example :
    (ms : List WorkerMessage) × (w' : Worker) × (run_worker 2 outside (payload "pass") worker
      ≡ some (ms, w'))
    × IsLocalEnd browser
        (configure outside (payload "pass") worker).max_ticks
        (engine, store)
        (handle_locals texts browser ms (engine, store))
unfolding compile
run_worker_completes_example =
    run_worker_completes texts browser outside (payload "pass") worker code 1 (engine, store) refl
      (omega (arith, five_ticks))

run_worker_refuses_example :
    let after =
      handle_locals texts browser (compile_error "Unexpected token" ∷ []) (engine, store) in
    (w' : Worker) × (run_worker 2 outside (payload "import x\nx[") worker
      ≡ some (compile_error "Unexpected token" ∷ [], w'))
    × (w'.sim.is_running ≡ false)
    × (after.0.status ≡ Status.error)
    × (after.0.is_simulating ≡ engine.is_simulating)
    × (completions after.0.told ≡ completions engine.told)
    × (after.1 ≡ store)
unfolding compile
run_worker_refuses_example =
    run_worker_refuses texts browser outside (payload "import x\nx[") worker "Unexpected token" 2
      (engine, store) refl
