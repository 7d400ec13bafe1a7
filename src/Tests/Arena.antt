-- ===== src/Tests/Arena.antt =====
-- The editor's page on a run that fails, the forms of the creator, and the other pages.
use vidhi_trading_platform.Prelude.{
  ℕ, ◌+◌, ◌≤◌, ◌≡◌, ◌≢◌, refl, true, false, String, str_eq, List, [], ◌∷◌, length, none, some, ℤ,
  pos, arith, eq_iff, ◌⊎◌,
}
use vidhi_trading_platform.Client.Http.{value, thrown}
use vidhi_trading_platform.Sim.Types.{Point}
use vidhi_trading_platform.Store.Server.{refused, Names, DraftRound, Draft}
use vidhi_trading_platform.Store.Storage.{boot}
use vidhi_trading_platform.Store.Datasets.{set_it, get_it, has_it, Asked, ask_all}
use vidhi_trading_platform.Store.Datasets.Kept.{ask_all_opened_once}
use vidhi_trading_platform.Pages.Arena.{
  opened, Report, delay_of, Event, told, due, answered, clicked, on_events,
}
use vidhi_trading_platform.Pages.Arena.Alerts.{clicks, on_events_alerts}
use vidhi_trading_platform.Pages.Chart.{chart_data}
use vidhi_trading_platform.Pages.Chart.Drawn.{at_time, IsIncreasing, chart_data_drawn}
use vidhi_trading_platform.Pages.Form.{blank_form, blank_round, toggle_bot, save_contest}
use vidhi_trading_platform.Pages.Form.Again.{unreached, save_contest_again}
use vidhi_trading_platform.Pages.Roles.{
  page, select_role, role_guard, creator_passcode, enter_as_creator, as_student, as_creator, exit,
  on_entries,
}
use vidhi_trading_platform.Pages.Roles.Passcode.{on_entries_guarded}
use vidhi_trading_platform.Pages.Board.{filter_parts}
use vidhi_trading_platform.Pages.Countdown as Countdown
use vidhi_trading_platform.Pages.Countdown.Ends.{CountsDown, on_events_ends}
use vidhi_trading_platform.Pages.Lobby.{as_binary}
use vidhi_trading_platform.Tests.Store.{browser, store}

abbrev report : String → Report
report run_id = record {
  error_message = "Bad code";
  error = "";
  last_log = "[ERR]";
  run_id = run_id;
}

abbrev failing : List Event
failing =
    clicked
    ∷ told 1000 "queued" (report "")
    ∷ told 1600 "running" (report "run_1")
    ∷ told 1700 "error" (report "run_1")
    ∷ told 1701 "error" (report "run_1")
    ∷ answered 0 (some "start\n  Error: x\n")
    ∷ due
    ∷ []

-- The page goes to the dashboard although the run has failed before the navigation was due.
failed_run :
    let a = on_events failing opened in
    (a.navigations ≡ 1) × (length a.alerts ≡ 1) × (a.show_modal ≡ false)
unfolding on_events
failed_run = (refl, refl, refl)

short_delay : delay_of 2800 1000 ≡ 500
unfolding delay_of
short_delay = refl

on_events_alerts_example :
    let a = on_events failing opened in length a.alerts + length a.fetching ≤ clicks failing + 1
on_events_alerts_example = on_events_alerts failing

abbrev point : ℕ → ℤ → Point
point t v = record { time = t; value = v }

abbrev points : List Point
points = point 100 (pos 1) ∷ point 300 (pos 2) ∷ point 200 (pos 3) ∷ point 300 (pos 4) ∷ []

drawn : chart_data [] points ≡ point 100 (pos 1) ∷ point 200 (pos 3) ∷ point 300 (pos 2) ∷ []
unfolding chart_data
drawn = refl

chart_data_drawn_example :
    let ps = chart_data [] points in IsIncreasing ps × ((t : ℕ) → at_time t ps ≡ at_time t points)
chart_data_drawn_example =
    chart_data_drawn [] (point 100 (pos 1))
      (point 300 (pos 2) ∷ point 200 (pos 3) ∷ point 300 (pos 4) ∷ [])

toggled : toggle_bot "MM" (toggle_bot "MR" ("MM" ∷ "NOISE" ∷ [])) ≡ "NOISE" ∷ "MR" ∷ []
unfolding toggle_bot
toggled = refl

abbrev published : DraftRound
published = record (blank_round "Round 1") { id = some "round_1" }

abbrev form : Draft
form = record blank_form { name = "Cup"; rounds = published ∷ [] }

abbrev names : Names
names = record {
  contest_at = λ t. "contest_1";
  round_no = λ n. "r1";
  is_local = λ i. str_eq i "contest_1";
}

save_contest_again_example :
    let once = save_contest browser names true (unreached true) [] (form, store) in
    let twice = save_contest (record browser { now = 2000 }) names true (unreached false) [] once in
    (twice.0 ≡ once.0) × (twice.1.state ≡ once.1.state)
save_contest_again_example =
    save_contest_again browser (record browser { now = 2000 }) names true true false form store

abbrev reads : List Asked
reads =
    record { request = has_it "old.csv"; opening = value true; failed = none }
    ∷ record { request = set_it "old.csv" "mid\n2\n"; opening = value true; failed = none }
    ∷ []

abbrev first_read : Asked
first_read = record { request = get_it "old.csv"; opening = thrown "blocked"; failed = none }

abbrev datasets : List (String × String)
datasets = ("old.csv", "mid\n1\n") ∷ []

ask_all_opened_once_example :
    let end = ask_all (first_read ∷ reads) (record { promise = none; datasets = datasets }) in
    (end.0 ≡ some "blocked" ∷ some "blocked" ∷ some "blocked" ∷ []) × (end.1.datasets ≡ datasets)
ask_all_opened_once_example = ask_all_opened_once first_read reads datasets

apart_role : ◌≢◌ {A = String} "" "creator"
apart_role h =
    let e : str_eq "" "creator" ≡ true = (eq_iff "" "creator").1 h in
    let w : false ≡ true = e in absurd (ground arith)

apart_code : ◌≢◌ {A = String} "admin" creator_passcode
apart_code h =
    let e : str_eq "admin" creator_passcode ≡ true = (eq_iff "admin" creator_passcode).1 h in
    let w : false ≡ true = e in absurd (ground arith)

on_entries_guarded_example :
    let end =
      on_entries browser
        (as_student "Ada" "" refused refused ∷ as_creator "admin" ∷ exit ∷ [])
        store in
    (role_guard "creator" end.state ≡ select_role)
    × (role_guard "creator" (enter_as_creator browser creator_passcode end).state ≡ page)
unfolding boot
on_entries_guarded_example =
    on_entries_guarded browser
      (as_student "Ada" "" refused refused ∷ as_creator "admin" ∷ exit ∷ []) store apart_role
      (tt, (apart_code, (tt, tt)))

filters : filter_parts "round_7-phase-final" ≡ ("round_7", "final")
unfolding filter_parts
filters = refl

binary_name : as_binary "MANGO.CSV" ≡ "MANGO.bin"
unfolding as_binary
binary_name = refl

-- A page that is opened three and a half seconds before the end: a link sets the interval again, and one out
-- of the layout ends it.
abbrev steps : List Countdown.Event
steps = Countdown.wait 1999 ∷ Countdown.link "/simulation" ∷ Countdown.wait 999 ∷ []

slow_countdown :
    let l = Countdown.on_events steps (Countdown.mount 1000 (some 4500) "/") in
    (l.time_left ≡ 2) × (l.now ≡ 3998) × (l.path ≡ "/simulation")
unfolding Countdown.on_events
slow_countdown = (refl, refl, refl)

at_lobby :
    let more = Countdown.link "/lobby" ∷ Countdown.wait 9000 ∷ [] in
    let l = Countdown.on_events more (Countdown.mount 1000 (some 4500) "/") in
    (l.path ≡ "/lobby") × ((Countdown.on_event (Countdown.link "/") l).path ≡ "/calculating")
unfolding Countdown.on_events
at_lobby = (refl, refl)

on_events_ends_example :
    let l = Countdown.on_events steps (Countdown.mount 1000 (some 4500) "/") in
    (l.is_shown ≡ false) ⊎ CountsDown 4500 l
unfolding Countdown.mount
on_events_ends_example = on_events_ends steps 1000 (some 4500) "/"
