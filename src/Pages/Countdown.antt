-- ===== src/Pages/Countdown.antt =====
-- The countdown of `Layout.jsx`: the seconds that are left, and where the page goes when none are.
pub mod Ends
use vidhi_trading_platform.Prelude.{
  ℕ, ◌+◌, ◌-◌, ◌*◌, ◌/◌, ◌%◌, ◌==◌, Bool, true, false, not, ◌&&◌, ◌||◌, String, str_eq, starts_with,
  List, [], ◌∷◌, Option, none, some, if◌then◌else◌,
}

-- The initial `timeLeft` from the time that the session keeps, and the time that it keeps then: a day from
-- now where it has none. Nothing is left of a time that is past.
unfoldable pub initial_time : ℕ → Option ℕ → ℕ × ℕ
initial_time now (some end) = ((end - now) / 1000, end)
initial_time now none = (24 * 3600, now + 24 * 3600 * 1000)

-- The page: the seconds that it shows, its path, how long the interval runs since it was set or last fired,
-- whether `Layout` is what is shown, the time, and the end that the session keeps. Times are in milliseconds.
pub record Layout : Type 0 where
  pub time_left : ℕ
  pub path : String
  pub elapsed : ℕ
  pub is_shown : Bool
  pub now : ℕ
  pub end_time : ℕ

-- The paths that `App.jsx` shows inside of `Layout`, for a student.
abbrev pub is_layout_page : String → Bool
is_layout_page path =
    str_eq path "/"
    || str_eq path "/simulation"
    || str_eq path "/leaderboard"
    || str_eq path "/assets"
    || str_eq path "/history"
    || str_eq path "/calculating"
    || str_eq path "/wiki"

-- The pages that stay when the time is up.
abbrev pub is_result_page : String → Bool
is_result_page path = str_eq path "/calculating" || starts_with path "/leaderboard"

-- The effect of a change of the time or of the path, but for the interval.
unfoldable pub effect : Layout → Layout
effect l =
    if l.time_left == 0 && not (is_result_page l.path)
    then record l { path = "/calculating" }
    else l

-- `Layout` is shown anew, with what the session keeps.
unfoldable pub mount : ℕ → Option ℕ → String → Layout
unfolding effect initial_time
mount now session path =
    let (left, end) = initial_time now session in
    effect (record {
      time_left = left;
      path = path;
      elapsed = 0;
      is_shown = true;
      now = now;
      end_time = end;
    })

-- What happens: some milliseconds in which the page is left alone, or a link to a path.
pub data Event : Type 0 where
  wait : ℕ → Event
  link : String → Event

-- The interval while `Layout` is shown: there is none when no time is left. It takes a second each time, and is
-- set again by the change of the time.
unfoldable pub pass : ℕ → Layout → Layout
unfolding effect
pass ms l =
    let t = l.elapsed + ms in
    if l.time_left == 0
    then l
    else effect (record l { time_left = l.time_left - t / 1000; elapsed = t % 1000 })

-- A change of the path clears the interval and sets it again; a link out of `Layout` takes its state and its
-- interval away, and a link back shows it anew. The path of a link that `App.jsx` sends on to the choice of a role
-- is kept here as that of the link.
unfoldable pub on_event : Event → Layout → Layout
unfolding effect pass mount
on_event (wait ms) l =
    let later = record l { now = l.now + ms } in if l.is_shown then pass ms later else later
on_event (link path) l =
    if not (is_layout_page path)
    then record l { is_shown = false; path = path }
    else if not l.is_shown
    then mount l.now (some l.end_time) path
    else if str_eq path l.path
    then l
    else effect (record l { path = path; elapsed = 0 })

unfoldable pub on_events : List Event → Layout → Layout
unfolding on_event
on_events [] l = l
on_events (e ∷ es) l = on_events es (on_event e l)
