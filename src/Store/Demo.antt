-- ===== src/Store/Demo.antt =====
-- `resetAndCreateDemoContests`. A time of the day is in milliseconds; the moment at which the ids and
-- the times are made is one, the `now` of the browser. `show` is how JavaScript prints a number.
use vidhi_trading_platform.Prelude.{ℕ, ◌+◌, ◌*◌, String, ◌+++◌, [], ◌∷◌, some, pos}
use vidhi_trading_platform.Store.Types.{Round, Contest, Store, Browser, default_state}
use vidhi_trading_platform.Store.Storage.{change}

abbrev minute : ℕ
minute = 60 * 1000

-- What the rounds of the demo have in common.
abbrev pub demo_round : ℕ → Round
demo_round now = record {
  id = "";
  name = "";
  description = "";
  status = "upcoming";
  tick_count = 100_000;
  tick_rate = 1;
  position_limit = 1000;
  starting_capital = 100_000;
  active_bots = some ("MM" ∷ "MOM" ∷ "MR" ∷ "NOISE" ∷ "SNIPER" ∷ []);
  bot_aggressiveness = "0.7";
  asset_name = "";
  asset_base_price = pos 0;
  own_asset_name = "";
  base_price = pos 0;
  test_data_name = "";
  test_data_key = "";
  dataset_path = "";
  final_data_name = "";
  final_data_key = "";
  start_at = now;
  end_at = now;
}

abbrev pub earth_fruit_round : (ℕ → String) → ℕ → Round
earth_fruit_round show now = record (demo_round now) {
  id = "r1_" +++ show now;
  name = "Round 1 — Earth Fruit (99.99k ticks)";
  description = "First round featuring Earth Fruit!";
  status = "active";
  bot_aggressiveness = "0.7";
  asset_name = "EARTH-FRUIT";
  test_data_name = "earth_fruit_test.csv";
  test_data_key = "earth_fruit_test.csv";
  final_data_name = "earth_fruit_final.csv";
  final_data_key = "earth_fruit_final.csv";
  start_at = now;
  end_at = now + 60 * minute;
}

abbrev pub mars_banana_round : (ℕ → String) → ℕ → Round
mars_banana_round show now = record (demo_round now) {
  id = "r2_" +++ show now;
  name = "Round 2 — Mars Banana (99.99k ticks)";
  description = "Second round featuring Mars Banana!";
  status = "upcoming";
  bot_aggressiveness = "0.7";
  asset_name = "MARS-BANANA";
  test_data_name = "mars_banana_test.csv";
  test_data_key = "mars_banana_test.csv";
  final_data_name = "mars_banana_final.csv";
  final_data_key = "mars_banana_final.csv";
  start_at = now + 70 * minute;
  end_at = now + 130 * minute;
}

abbrev pub moon_peanut_round : (ℕ → String) → ℕ → Round
moon_peanut_round show now = record (demo_round now) {
  id = "r3_" +++ show now;
  name = "Round 3 — Moon Peanut (99.99k ticks)";
  description = "Third round featuring Moon Peanut!";
  status = "upcoming";
  bot_aggressiveness = "0.8";
  asset_name = "MOON-PEANUT";
  test_data_name = "moon_peanut_test.csv";
  test_data_key = "moon_peanut_test.csv";
  final_data_name = "moon_peanut_final.csv";
  final_data_key = "moon_peanut_final.csv";
  start_at = now + 140 * minute;
  end_at = now + 200 * minute;
}

abbrev pub grass_cane_round : (ℕ → String) → ℕ → Round
grass_cane_round show now = record (demo_round now) {
  id = "r1_" +++ show (now + 1);
  name = "Round 1 — Grass Cane (99.99k ticks)";
  description = "First round featuring Grass Cane!";
  status = "active";
  bot_aggressiveness = "0.7";
  asset_name = "GRASS-CANE";
  test_data_name = "grass_cane_test.csv";
  test_data_key = "grass_cane_test.csv";
  final_data_name = "grass_cane_final.csv";
  final_data_key = "grass_cane_final.csv";
  start_at = now;
  end_at = now + 60 * minute;
}

abbrev pub mango_round : (ℕ → String) → ℕ → Round
mango_round show now = record (demo_round now) {
  id = "r2_" +++ show (now + 1);
  name = "Round 2 — Mango (99.99k ticks)";
  description = "Second round featuring Mango!";
  status = "upcoming";
  bot_aggressiveness = "0.8";
  asset_name = "MANGO";
  test_data_name = "mango_test.csv";
  test_data_key = "mango_test.csv";
  final_data_name = "mango_final.csv";
  final_data_key = "mango_final.csv";
  start_at = now + 70 * minute;
  end_at = now + 130 * minute;
}

abbrev pub showcase_1 : (ℕ → String) → ℕ → Contest
showcase_1 show now = record {
  id = "contest_" +++ show now +++ "_1";
  name = "IICPC ALGO TRADING SHOWCASE 1";
  description = "First showcase contest with Earth Fruit, Mars Banana, and Moon Peanut!";
  status = "active";
  created_at = now;
  ends_at = now + 7 * 24 * 60 * minute;
  max_participants = 100;
  participants = [];
  rounds =
      earth_fruit_round show now ∷ mars_banana_round show now ∷ moon_peanut_round show now ∷ [];
}

abbrev pub showcase_2 : (ℕ → String) → ℕ → Contest
showcase_2 show now = record {
  id = "contest_" +++ show now +++ "_2";
  name = "IICPC ALGO TRADING SHOWCASE 2";
  description = "Second showcase contest with Grass Cane and Mango!";
  status = "active";
  created_at = now;
  ends_at = now + 7 * 24 * 60 * minute;
  max_participants = 100;
  participants = [];
  rounds = grass_cane_round show now ∷ mango_round show now ∷ [];
}

-- `resetAndCreateDemoContests`: all else is reset, and the first contest is active.
unfoldable pub reset_to_demo : (ℕ → String) → Browser → Store → Store
unfolding change
reset_to_demo show b st =
    let first = showcase_1 show b.now in
    change b
      (record default_state {
        contests = first ∷ showcase_2 show b.now ∷ [];
        active_contest_id = first.id;
      })
      st
