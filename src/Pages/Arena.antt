-- ===== src/Pages/Arena.antt =====
-- `CodeArena.jsx`: the page with the editor. It follows the engine's status: it shows the steps of the
-- validation, goes to the dashboard when a run starts, and shows an alert when one fails.
pub mod Steps
pub mod Snippet
pub mod Alerts
pub mod Delay
use vidhi_trading_platform.Prelude.{
  ℕ, zero, suc, ◌+◌, ◌-◌, ◌==◌, max, Bool, true, false, ◌||◌, String, ◌+++◌, str_eq, List, [], ◌∷◌,
  ◌++◌, get_elem?, Option, some, none, if◌then◌else◌,
}
use vidhi_trading_platform.Store.Types.{Browser}
use vidhi_trading_platform.Store.Student.{save_last_code}
use vidhi_trading_platform.Client.Http.{or_else_text}
use vidhi_trading_platform.Engine.Messages.{Texts}
use vidhi_trading_platform.Engine.Config.{Options}
use vidhi_trading_platform.Engine.Submit.{Backend, Stage}
use vidhi_trading_platform.Engine.Launch.{start, on_world}
use vidhi_trading_platform.Pages.Arena.Snippet.{alert_text}

-- The state of the page with its refs, 0 for no start time; when each navigation that is set is due; the
-- messages of the errors whose execution log is awaited; and what was done: the navigations, and the
-- alerts, the last first.
pub record Arena : Type 0 where
  pub sim_status : String
  pub show_modal : Bool
  pub has_navigated : Bool
  pub start_time : ℕ
  pub has_shown_error : Bool
  pub timers : List ℕ
  pub fetching : List String
  pub navigations : ℕ
  pub alerts : List String

abbrev pub opened : Arena
opened = record {
  sim_status = "idle";
  show_modal = false;
  has_navigated = false;
  start_time = 0;
  has_shown_error = false;
  timers = [];
  fetching = [];
  navigations = 0;
  alerts = [];
}

-- What the engine has when a status is told: the two messages of its last state, its last log line and the
-- id of its run, "" for each that is absent.
pub record Report : Type 0 where
  pub error_message : String
  pub error : String
  pub last_log : String
  pub run_id : String

-- `errorMsg`
unfoldable pub error_text : Report → String
error_text r = or_else_text r.error_message (
    or_else_text r.error
      (or_else_text r.last_log "Simulation failed — check browser console (F12) for details."))

-- `handleAlertAndClose`
unfoldable pub alert_and_close : String → Arena → Arena
alert_and_close message a = record a {
  alerts =
      ("Simulation Error:\n\n" +++ message
        +++ "\n\nOpen DevTools (F12 → Console) to see the full error.")
      ∷ a.alerts;
  has_navigated = false;
  show_modal = false;
  start_time = 0;
}

abbrev pub is_validating : String → Bool
is_validating s =
    str_eq s "queued"
    || (str_eq s "scanning"
        || (str_eq s "transpiling" || (str_eq s "compiling" || str_eq s "validating")))

abbrev pub is_started : String → Bool
is_started s = str_eq s "running" || str_eq s "queued_gm"

abbrev pub is_failed : String → Bool
is_failed s = str_eq s "error" || str_eq s "tle"

abbrev pub is_over : String → Bool
is_over s = str_eq s "idle" || str_eq s "done"

-- The steps of the validation are shown.
unfoldable pub on_validating : ℕ → Arena → Arena
on_validating now a = record a {
  start_time = if a.start_time == 0 then now else a.start_time;
  show_modal = true;
}

-- `delay`, for a page that has waited since the start time.
unfoldable pub delay_of : ℕ → ℕ → ℕ
delay_of now start_time =
    let since = if start_time == 0 then now else start_time in max (2000 + since - now) 500

-- The navigation to the dashboard is set, once.
unfoldable pub on_started : ℕ → Arena → Arena
unfolding delay_of
on_started now a = if a.has_navigated then a else record a {
  has_navigated = true;
  timers = a.timers ++ ((now + delay_of now a.start_time) ∷ []);
}

-- The alert: once a run, and after the execution log where the run has an id.
unfoldable pub on_failed : Report → Arena → Arena
unfolding error_text alert_and_close
on_failed r a =
    let shown = record a { has_shown_error = true } in
    if a.has_shown_error
    then a
    else (if str_eq r.run_id ""
        then alert_and_close (error_text r) shown
        else record shown { fetching = a.fetching ++ (error_text r ∷ []) })

unfoldable pub on_over : Arena → Arena
on_over a = record a { has_navigated = false; show_modal = false; start_time = 0 }

abbrev pub when : Bool → (Arena → Arena) → Arena → Arena
when b f a = if b then f a else a

-- The callback of `onStatus`
unfoldable pub on_status : ℕ → String → Report → Arena → Arena
unfolding on_validating on_started on_failed on_over
on_status now status r a =
    let a1 = record a { sim_status = status } in
    let a2 = when (is_validating status) (on_validating now) a1 in
    let a3 = when (is_started status) (on_started now) a2 in
    let a4 = when (is_failed status) (on_failed r) a3 in when (is_over status) on_over a4

abbrev pub fire : List ℕ → Arena → Arena
fire [] a = a
fire (t ∷ ts) a = record a {
  show_modal = false;
  start_time = 0;
  timers = ts;
  navigations = a.navigations + 1;
}

-- A navigation that was set happens; nothing where none is set. All of them do the same.
unfoldable pub on_timer : Arena → Arena
on_timer a = fire a.timers a

unfoldable pub drop_at {ℓ} : {A : Type ℓ} → ℕ → List A → List A
drop_at n [] = []
drop_at zero (x ∷ xs) = xs
drop_at (suc n) (x ∷ xs) = x ∷ drop_at n xs

unfoldable pub answer : Option String → ℕ → Option String → Arena → Arena
unfolding alert_and_close alert_text drop_at
answer log n none a = a
answer log n (some m) a =
    alert_and_close (alert_text m log) (record a { fetching = drop_at n a.fetching })

-- The answer for one of the execution logs that are awaited: its text, or nothing where it failed.
unfoldable pub on_log : ℕ → Option String → Arena → Arena
unfolding answer
on_log n log a = answer log n (get_elem? a.fetching n) a

-- The resets of `handleRunLocal` and `handleRunCloud`.
unfoldable pub reset_refs : Arena → Arena
reset_refs a = record a { has_shown_error = false; has_navigated = false }

abbrev pub arena_options : Bool → Options
arena_options local = record {
  force_local = local;
  force_cloud = if local then false else true;
  is_practice = false;
  max_ticks = 100_000;
}

-- `handleRunLocal`, and `handleRunCloud` where it is not local.
unfoldable pub handle_run :
    Texts → Browser → Backend → String → Bool → Arena × Stage → Arena × Stage
unfolding reset_refs
handle_run texts b k code local (a, stage) =
    let saved = on_world (λ w. (w.0, save_last_code b code w.1)) stage in
    (reset_refs a, start texts b k code (arena_options local) saved)

-- What the page meets, in order.
pub data Event : Type 0 where
  told : ℕ → String → Report → Event
  due : Event
  answered : ℕ → Option String → Event
  clicked : Event

unfoldable pub on_event : Event → Arena → Arena
unfolding on_status on_timer on_log reset_refs
on_event (told now status r) a = on_status now status r a
on_event due a = on_timer a
on_event (answered n log) a = on_log n log a
on_event clicked a = reset_refs a

unfoldable pub on_events : List Event → Arena → Arena
unfolding on_event
on_events [] a = a
on_events (e ∷ es) a = on_events es (on_event e a)
