-- ===== src/Pages/Arena/Alerts.antt =====
-- How many alerts and navigations the editor's page comes to.
use vidhi_trading_platform.Prelude.{
  ℕ, zero, suc, ◌+◌, ◌≤◌, true, false, String, List, [], ◌∷◌, length, get_elem?, length-append,
  Option, none, some, ◌≡◌, refl, arith, if◌then◌else◌, if_either, Bool-cases, inl, inr, str_eq, ap,
  ◌∙◌, sym, subst, if_true, if_false,
}
use vidhi_trading_platform.Pages.Arena.{
  Arena, Report, Event, told, due, answered, clicked, opened, is_validating, is_started, is_failed,
  is_over, on_validating, on_started, on_failed, on_over, when, alert_and_close, error_text,
  on_status, on_timer, on_log, fire, answer, drop_at, delay_of, reset_refs, on_event, on_events,
}
use vidhi_trading_platform.Pages.Arena.Snippet.{alert_text}

-- The clicks on a run, and the statuses that end one.
unfoldable pub clicks : List Event → ℕ
clicks [] = 0
clicks (clicked ∷ es) = 1 + clicks es
clicks (e ∷ es) = clicks es

unfoldable pub ends : List Event → ℕ
ends [] = 0
ends (told now status r ∷ es) = (if is_over status then 1 else 0) + ends es
ends (e ∷ es) = ends es

-- An alert is shown, is to be shown once its log is there, or may still come.
abbrev alerts_due : Arena → ℕ
alerts_due a = length a.alerts + length a.fetching + (if a.has_shown_error then 0 else 1)

on_failed_due : (r : Report) (a : Arena) → alerts_due (on_failed r a) ≡ alerts_due a
unfolding on_failed alert_and_close
on_failed_due r a = elim (Bool-cases a.has_shown_error) [
  | inl e ↦ rw e refl
  | inr e ↦
      if_either (λ b. alerts_due (if a.has_shown_error then a else b) ≡ alerts_due a)
        (str_eq r.run_id "") (rw e (omega arith))
        (rw e (omega (arith, length-append a.fetching (error_text r ∷ []))))
]

-- A callback of a status keeps what its first three parts keep, and ends with what its last makes of it.
on_status_keeps :
    (P Q : Arena → Type 0) (now : ℕ) (s : String) (r : Report) (a : Arena)
    → ((b : Arena) → P b → P (on_validating now b))
    → ((b : Arena) → P b → P (on_started now b))
    → ((b : Arena) → P b → P (on_failed r b))
    → ((b : Arena) → is_over s ≡ true → P b → Q (on_over b))
    → ((b : Arena) → is_over s ≡ false → P b → Q b)
    → P (record a { sim_status = s })
    → Q (on_status now s r a)
unfolding on_status
on_status_keeps P Q now s r a validating started failed over going h =
    let a1 = record a { sim_status = s } in
    let a2 = when (is_validating s) (on_validating now) a1 in
    let a3 = when (is_started s) (on_started now) a2 in
    let a4 = when (is_failed s) (on_failed r) a3 in
    let h2 : P a2 = if_either P (is_validating s) (validating a1 h) h in
    let h3 : P a3 = if_either P (is_started s) (started a2 h2) h2 in
    let h4 : P a4 = if_either P (is_failed s) (failed a3 h3) h3 in
    elim (Bool-cases (is_over s)) [
      | inl e ↦ subst Q (sym (if_true (is_over s) (on_over a4) a4 e)) (over a4 e h4)
      | inr e ↦ subst Q (sym (if_false (is_over s) (on_over a4) a4 e)) (going a4 e h4)
    ]

on_status_due :
    (now : ℕ) (s : String) (r : Report) (a : Arena)
    → alerts_due (on_status now s r a) ≡ alerts_due a
unfolding on_validating on_started on_over
on_status_due now s r a =
    let P : Arena → Type 0 = λ b. alerts_due b ≡ alerts_due a in
    on_status_keeps P P now s r a (λ b h. h)
      (λ b h. if_either (λ c. alerts_due c ≡ alerts_due a) b.has_navigated h h)
      (λ b h. on_failed_due r b ∙ h) (λ b e h. h) (λ b e h. h) refl

fire_due : (ts : List ℕ) (a : Arena) → alerts_due (fire ts a) ≡ alerts_due a
fire_due [] a = refl
fire_due (t ∷ ts) a = refl

length-drop_at :
    {A : Type 0} (xs : List A) (n : ℕ) (x : A)
    → get_elem? xs n ≡ some x
    → length (drop_at n xs) + 1 ≡ length xs
unfolding drop_at
length-drop_at [] n x h = absurd (ground arith)
length-drop_at (y ∷ ys) zero x h = omega arith
length-drop_at (y ∷ ys) (suc n) x h = omega (arith, length-drop_at ys n x h)

answer_due :
    (log : Option String) (n : ℕ) (o : Option String) (a : Arena)
    → get_elem? a.fetching n ≡ o
    → alerts_due (answer log n o a) ≡ alerts_due a
unfolding answer alert_and_close
answer_due log n none a h = refl
answer_due log n (some m) a h = omega (arith, length-drop_at a.fetching n m h)

on_event_due : (e : Event) (a : Arena) → alerts_due (on_event e a) ≤ clicks (e ∷ []) + alerts_due a
unfolding on_event clicks on_timer on_log reset_refs
on_event_due (told now s r) a = omega (arith, on_status_due now s r a)
on_event_due due a = omega (arith, fire_due a.timers a)
on_event_due (answered n log) a = omega (arith, answer_due log n (get_elem? a.fetching n) a refl)
on_event_due clicked a = ground arith

clicks-cons : (e : Event) (es : List Event) → clicks (e ∷ es) ≡ clicks (e ∷ []) + clicks es
unfolding clicks
clicks-cons (told now s r) es = omega arith
clicks-cons due es = omega arith
clicks-cons (answered n log) es = omega arith
clicks-cons clicked es = omega arith

on_events_due :
    (es : List Event) (a : Arena) → alerts_due (on_events es a) ≤ clicks es + alerts_due a
unfolding on_events
on_events_due [] a = omega arith
on_events_due (e ∷ es) a =
    omega (arith, on_events_due es (on_event e a), on_event_due e a, clicks-cons e es)

-- A page that was opened shows no more than one alert for each click on a run, and one for a run that was on
-- when it was opened, whatever statuses, log lines and answers come; an alert that waits for its log counts.
pub on_events_alerts :
    (es : List Event)
    → let a = on_events es opened in length a.alerts + length a.fetching ≤ clicks es + 1
on_events_alerts es = omega (arith, on_events_due es opened)

-- A navigation is done, is set, or may still be set.
abbrev visits_due : Arena → ℕ
visits_due a = a.navigations + length a.timers + (if a.has_navigated then 0 else 1)

-- The navigations stay below a bound and the alerts shown.
abbrev IsPaced : ℕ → Arena → Type 0
IsPaced n a = visits_due a ≤ n + length a.alerts

alert_and_close-IsPaced :
    (n : ℕ) (m : String) (a : Arena) → IsPaced n a → IsPaced n (alert_and_close m a)
unfolding alert_and_close
alert_and_close-IsPaced n m a h = ground arith

on_started-IsPaced : (n now : ℕ) (a : Arena) → IsPaced n a → IsPaced n (on_started now a)
unfolding on_started
on_started-IsPaced n now a h =
    ground (arith, length-append a.timers ((now + delay_of now a.start_time) ∷ []))

on_failed-IsPaced : (n : ℕ) (r : Report) (a : Arena) → IsPaced n a → IsPaced n (on_failed r a)
unfolding on_failed
on_failed-IsPaced n r a h =
    let shown = record a { has_shown_error = true } in
    if_either (IsPaced n) a.has_shown_error h (
      if_either (IsPaced n) (str_eq r.run_id "") (alert_and_close-IsPaced n (error_text r) shown h)
        h)

on_over-IsPaced : (n : ℕ) (a : Arena) → IsPaced n a → IsPaced (n + 1) (on_over a)
unfolding on_over
on_over-IsPaced n a h = ground arith

on_status-IsPaced :
    (n now : ℕ) (s : String) (r : Report) (a : Arena)
    → IsPaced n a
    → IsPaced (n + (if is_over s then 1 else 0)) (on_status now s r a)
unfolding on_validating on_over
on_status-IsPaced n now s r a h =
    let k = n + (if is_over s then 1 else 0) in
    on_status_keeps (IsPaced n) (IsPaced k) now s r a (λ b p. p) (on_started-IsPaced n now)
      (on_failed-IsPaced n r) (λ b e p. rw e (on_over-IsPaced n b p))
      (λ b e p. rw e (omega (arith, p))) h

answer-IsPaced :
    (k : ℕ) (log : Option String) (n : ℕ) (o : Option String) (a : Arena)
    → IsPaced k a
    → IsPaced k (answer log n o a)
unfolding answer
answer-IsPaced k log n none a h = h
answer-IsPaced k log n (some m) a h =
    alert_and_close-IsPaced k (alert_text m log) (record a { fetching = drop_at n a.fetching }) h

fire-IsPaced :
    (n : ℕ) (ts : List ℕ) (a : Arena) → a.timers ≡ ts → IsPaced n a → IsPaced n (fire ts a)
fire-IsPaced n [] a e h = h
fire-IsPaced n (t ∷ ts) a e h = omega (arith, ap length e, h)

on_event-IsPaced :
    (n : ℕ) (e : Event) (a : Arena)
    → IsPaced n a
    → IsPaced (n + (clicks (e ∷ []) + ends (e ∷ []))) (on_event e a)
unfolding on_event clicks ends on_timer on_log reset_refs
on_event-IsPaced n (told now s r) a h = omega (arith, on_status-IsPaced n now s r a h)
on_event-IsPaced n due a h = omega (arith, fire-IsPaced n a.timers a refl h)
on_event-IsPaced k (answered n log) a h =
    omega (arith, answer-IsPaced k log n (get_elem? a.fetching n) a h)
on_event-IsPaced n clicked a h = ground arith

ends-cons : (e : Event) (es : List Event) → ends (e ∷ es) ≡ ends (e ∷ []) + ends es
unfolding ends
ends-cons (told now s r) es = omega arith
ends-cons due es = omega arith
ends-cons (answered n log) es = omega arith
ends-cons clicked es = omega arith

on_events-IsPaced :
    (es : List Event) (n : ℕ) (a : Arena)
    → IsPaced n a
    → IsPaced (n + (clicks es + ends es)) (on_events es a)
unfolding on_events clicks ends
on_events-IsPaced [] n a h = omega (arith, h)
on_events-IsPaced (e ∷ es) n a h = omega (
  arith,
  on_events-IsPaced es (n + (clicks (e ∷ []) + ends (e ∷ []))) (on_event e a)
      (on_event-IsPaced n e a h),
  clicks-cons e es,
  ends-cons e es,
)

-- A page that was opened goes to the dashboard once at most for each click on a run, each status that ends a run
-- and each alert, and once more; a navigation that is set but not done yet counts.
on_events_visits :
    (es : List Event)
    → let a = on_events es opened in
      a.navigations + length a.timers ≤ clicks es + ends es + length a.alerts + 1
on_events_visits es = omega (arith, on_events-IsPaced es 1 opened (omega arith))
