-- ===== src/Tests/Store.antt =====
-- The store with two contests, one of which the student has joined.
use vidhi_trading_platform.Prelude.{
  ℕ, true, false, find, List, [], ◌∷◌, map, length, none, some, ℤ, pos, negsuc, ◌≡◌, ◌≢◌, refl,
  String, str_eq, eq_iff, arith,
}
use mathlib.Core.List.{Perm}
use vidhi_trading_platform.Store.Types.{
  Round, Participant, Contest, Run, State, Store, Browser, default_state, online,
}
use vidhi_trading_platform.Store.Storage.{boot}
use vidhi_trading_platform.Store.Storage.Reload.{connect-boot}
use vidhi_trading_platform.Store.Storage.Kept.{Action, join, add_run, leave, connected}
use vidhi_trading_platform.Store.Contests.{get_contest}
use vidhi_trading_platform.Store.Student.{
  RoundResult, round_index, is_me, record_result, join_contest,
}
use vidhi_trading_platform.Store.Student.Results.{record_result_lost}
use vidhi_trading_platform.Store.Student.Joined.{join_contest_twice}
use vidhi_trading_platform.Store.Server.Created.{create_contest_local}
use vidhi_trading_platform.Store.Board.{get_leaderboard}
use vidhi_trading_platform.Store.Board.Ranking.{IsDescending, numbers_after, get_leaderboard_ranked}
use vidhi_trading_platform.Store.Telemetry.{
  TickMessage, get_run, on_connect, connect_telemetry, on_messages, on_timer,
}
use vidhi_trading_platform.Store.Telemetry.Delivered.{or_before, last_payload, on_timer_delivers}
use vidhi_trading_platform.Store.Server.{answered, Names, Draft, create_contest}

abbrev pub browser : Browser
browser = record { fits = λ s. true; now = 1000 }

abbrev pub round : String → Round
round i = record {
  id = i;
  name = i;
  description = "";
  status = "upcoming";
  tick_count = 100;
  tick_rate = 1;
  position_limit = 1000;
  starting_capital = 100_000;
  active_bots = some ("MM" ∷ "MR" ∷ []);
  bot_aggressiveness = "0.7";
  asset_name = "MANGO";
  asset_base_price = pos 0;
  own_asset_name = "";
  base_price = pos 0;
  test_data_name = "";
  test_data_key = "mango_test.csv";
  dataset_path = "";
  final_data_name = "";
  final_data_key = "";
  start_at = 0;
  end_at = 0;
}

abbrev player : String → ℤ → Participant
player i pnl = record {
  id = i;
  name = i;
  team = "Solo";
  pnl_pct = pnl;
  p99 = pos 0;
  fills = 0;
  rounds = [];
  result_outside = none;
  joined_at = 5;
  last_code = none;
}

abbrev cup : Contest
cup = record {
  id = "cup";
  name = "Cup";
  description = "";
  status = "draft";
  created_at = 1;
  ends_at = 0;
  max_participants = 100;
  participants = player "ann" (negsuc 3) ∷ player "bob" (pos 40) ∷ [];
  rounds = round "r1" ∷ round "r2" ∷ [];
}

abbrev league : Contest
league = record cup { id = "league"; participants = [] }

abbrev state : State
state = record default_state { student_id = "ann"; contests = league ∷ cup ∷ [] }

abbrev pub store : Store
store = record (boot none) { state = state }

apart : ◌≢◌ {A = String} "cup" "league"
apart h =
    let e : str_eq "cup" "league" ≡ true = (eq_iff "cup" "league").1 h in
    let w : false ≡ true = e in absurd (ground arith)

cup_found : get_contest "cup" store.state ≡ some cup
unfolding get_contest boot
cup_found = refl

league_found : get_contest "league" store.state ≡ some league
unfolding get_contest boot
league_found = refl

abbrev result : String → RoundResult
result i = record { contest_id = "cup"; round_id = i; pnl_pct = pos 70; p99 = pos 9; fills = 3 }

record_result_lost_example :
    let loaded = (boot (record_result browser (result "r9") store).storage).state in
    (c' : Contest) × (p' : Participant) × (get_contest "cup" loaded ≡ some c')
    × (find (is_me loaded) c'.participants ≡ some p')
    × (p'.pnl_pct ≡ pos 70)
    × (p'.rounds ≡ [])
    × (p'.result_outside ≡ none)
unfolding get_contest round_index boot
record_result_lost_example =
    record_result_lost browser (result "r9") store cup (player "ann" (negsuc 3)) (λ s. refl)
      cup_found refl refl

abbrev run : String → Run
run i = record {
  id = i;
  status = "complete";
  mode = "local";
  pnl = pos 1;
  pnl_pct = pos 1;
  p50 = 0;
  p99 = 0;
  fills = 1;
  ticks = 100;
  correctness = none;
  violations = 0;
  history = [];
  bot_activity = none;
  code = "";
}

abbrev runs : List (Browser × Run)
runs = (browser, run "a") ∷ (record browser { now = 2000 }, run "b") ∷ []

get_leaderboard_ranked_example :
    let rows = get_leaderboard "cup" store.state in
    let listed = map (λ r. r.participant) rows in
    Perm listed cup.participants
    × IsDescending listed
    × (map (λ r. r.rank) rows ≡ numbers_after 0 (length listed))
get_leaderboard_ranked_example = get_leaderboard_ranked "cup" store.state cup cup_found

abbrev message : String → String → TickMessage
message i v = record { kind = "TICK_TELEMETRY"; run_id = i; payload = v }

on_timer_delivers_example :
    let ms = message "r" "1" ∷ message "q" "2" ∷ message "r" "3" ∷ [] in
    let st' = on_timer browser (on_messages ms store) in
    (get_run "r" st'.state.telemetry.data_by_run
      ≡ or_before (or_before (last_payload "r" ms) (get_run "r" [])) (get_run "r" []))
    × (st'.telemetry_buffer ≡ [])
    × (st'.timer_set ≡ false)
unfolding boot
on_timer_delivers_example =
    on_timer_delivers browser "r" (message "r" "1" ∷ message "q" "2" ∷ message "r" "3" ∷ []) store
      tt

last_of_run : last_payload "r" (message "r" "1" ∷ message "q" "2" ∷ message "r" "3" ∷ []) ≡ some "3"
unfolding last_payload
last_of_run = refl

connect-boot_example :
    let loaded = boot (on_connect browser store).storage in
    (loaded.state.telemetry.status ≡ online)
    × (connect_telemetry browser loaded ≡ loaded)
    × ((connect_telemetry browser loaded).socket_open ≡ false)
connect-boot_example = connect-boot browser browser store refl

abbrev actions : List (ℕ × Action)
actions = (1, join "cup") ∷ (2, connected) ∷ (3, add_run (run "a")) ∷ (4, leave) ∷ []

abbrev names : Names
names = record { contest_at = λ t. "contest_1"; round_no = λ n. "r1"; is_local = λ i. true }

abbrev draft : Draft
draft = record {
  id = none;
  name = "Open";
  description = "";
  status = some "active";
  created_at = none;
  ends_at = 0;
  max_participants = 100;
  participants = none;
  rounds = record { id = none; status = none; round = round "" } ∷ [];
}

texts_apart : (a b : String) → str_eq a b ≡ false → a ≢ b
texts_apart a b h e = let w : str_eq a b ≡ true = (eq_iff a b).1 e in absurd (ground arith)

abbrev create : Store → String × Store
create = create_contest browser names draft (answered "c7") (answered "round_9" ∷ [])

returned_id : (create store).0 ≡ "c7"
unfolding create_contest
returned_id = refl

create_contest_local_example : get_contest "cup" (create store).1.state ≡ some cup
unfolding create_contest get_contest boot
create_contest_local_example =
    create_contest_local browser names draft (answered "c7") (answered "round_9" ∷ []) store "cup"
      (texts_apart "contest_1" "cup" refl) (texts_apart "c7" "cup" refl)

join_contest_twice_example :
    let once = (join_contest browser "league" store).1 in
    (join_contest browser "league" once).1.state ≡ once.state
join_contest_twice_example = join_contest_twice browser "league" store
