-- ===== src/Pages/Countdown/Ends.antt =====
-- When the countdown is over.
use vidhi_trading_platform.Prelude.{
  ℕ, ◌+◌, ◌-◌, ◌*◌, ◌/◌, ◌%◌, ◌≤◌, ◌<◌, ◌==◌, true, false, not, ◌&&◌, String, str_eq, List, [], ◌∷◌,
  Option, none, some, ◌≡◌, refl, arith, Bool-cases, inl, inr, ◌⊎◌, if_either, if_true, if_false, ap,
  if◌then◌else◌, ◌∙◌,
}
use vidhi_trading_platform.Pages.Countdown.{
  initial_time, Layout, is_layout_page, is_result_page, effect, mount, Event, wait, link, pass,
  on_event, on_events,
}

-- With no time left, the page is one of the results.
abbrev pub IsTimely : Layout → Type 0
IsTimely l = (1 ≤ l.time_left) ⊎ (is_result_page l.path ≡ true)

effect-IsTimely : (l : Layout) → IsTimely (effect l)
unfolding effect
effect-IsTimely l = elim (Bool-cases (l.time_left == 0)) [
  | inl zero_left ↦ inr (elim (Bool-cases (is_result_page l.path)) [
    | inl e ↦ rw (zero_left, e) e
    | inr e ↦ rw (zero_left, e) refl
  ])
  | inr e ↦ inl (rw e (ground (arith, e)))
]

-- The page is not ahead of the session's end.
abbrev IsLate : Layout → Type 0
IsLate l = (l.elapsed < 1000) × (l.end_time + l.elapsed ≤ l.now + 1000 * l.time_left + 999)

effect-IsLate : (l : Layout) → IsLate l → IsLate (effect l)
unfolding effect
effect-IsLate l h = if_either IsLate (l.time_left == 0 && not (is_result_page l.path)) h h

effect_time : (l : Layout) → (effect l).time_left ≡ l.time_left
unfolding effect
effect_time l =
    if_either (λ (m : Layout). m.time_left ≡ l.time_left)
      (l.time_left == 0 && not (is_result_page l.path)) refl refl

-- The effect changes nothing but the path.
effect_end : (l : Layout) → ((effect l).end_time ≡ l.end_time) × ((effect l).is_shown ≡ l.is_shown)
unfolding effect
effect_end l =
    if_either (λ (m : Layout). (m.end_time ≡ l.end_time) × (m.is_shown ≡ l.is_shown))
      (l.time_left == 0 && not (is_result_page l.path)) (refl, refl) (refl, refl)

-- What holds of the page whenever it is shown, for the end that the session keeps.
abbrev IsSound : ℕ → Layout → Type 0
IsSound end l =
    (l.end_time ≡ end) × ((l.is_shown ≡ false) ⊎ ((l.is_shown ≡ true) × IsLate l × IsTimely l))

effect-IsSound :
    (end : ℕ) (m : Layout)
    → m.end_time ≡ end
    → m.is_shown ≡ true
    → IsLate m
    → IsSound end (effect m)
effect-IsSound end m at shown late =
    ((effect_end m).0 ∙ at, inr ((effect_end m).1 ∙ shown, effect-IsLate m late, effect-IsTimely m))

first_time :
    (now : ℕ) (session : Option ℕ)
    → let (left, end) = initial_time now session in (0 < 1000) × (end + 0 ≤ now + 1000 * left + 999)
unfolding initial_time
first_time now none = omega arith
first_time now (some end) = omega arith

mount-IsSound :
    (now : ℕ) (session : Option ℕ) (path : String)
    → IsSound (initial_time now session).1 (mount now session path)
unfolding mount
mount-IsSound now session path =
    let (left, end) = initial_time now session in
    let l : Layout = record {
      time_left = left;
      path = path;
      elapsed = 0;
      is_shown = true;
      now = now;
      end_time = end;
    } in
    effect-IsSound end l refl refl (first_time now session)

-- The branches of an event.
pass_over : (ms : ℕ) (l : Layout) → (l.time_left == 0) ≡ true → pass ms l ≡ l
unfolding pass
pass_over ms l e = rw e refl

pass_on :
    (ms : ℕ) (l : Layout)
    → (l.time_left == 0) ≡ false
    → pass ms l
      ≡ effect (record l {
        time_left = l.time_left - (l.elapsed + ms) / 1000;
        elapsed = (l.elapsed + ms) % 1000;
      })
unfolding pass
pass_on ms l e = if_false (l.time_left == 0) _ _ e

wait_shown :
    (ms : ℕ) (l : Layout)
    → l.is_shown ≡ true
    → on_event (wait ms) l ≡ pass ms (record l { now = l.now + ms })
unfolding on_event
wait_shown ms l shown = if_true l.is_shown _ _ shown

wait_away :
    (ms : ℕ) (l : Layout)
    → l.is_shown ≡ false
    → on_event (wait ms) l ≡ record l { now = l.now + ms }
unfolding on_event
wait_away ms l away = if_false l.is_shown _ _ away

link_out :
    (path : String) (l : Layout)
    → is_layout_page path ≡ false
    → on_event (link path) l ≡ record l { is_shown = false; path = path }
unfolding on_event
link_out path l e = if_true (not (is_layout_page path)) _ _ (ap not e)

link_back :
    (path : String) (l : Layout)
    → is_layout_page path ≡ true
    → l.is_shown ≡ false
    → on_event (link path) l ≡ mount l.now (some l.end_time) path
unfolding on_event
link_back path l e away =
    if_false (not (is_layout_page path)) _ _ (ap not e) ∙ if_true (not l.is_shown) _ _ (ap not away)

link_in :
    (path : String) (l : Layout)
    → is_layout_page path ≡ true
    → l.is_shown ≡ true
    → on_event (link path) l
      ≡ (if str_eq path l.path then l else effect (record l { path = path; elapsed = 0 }))
unfolding on_event
link_in path l e shown =
    if_false (not (is_layout_page path)) _ _ (ap not e)
    ∙ if_false (not l.is_shown) _ _ (ap not shown)

pass-IsSound :
    (ms end : ℕ) (l : Layout)
    → l.end_time ≡ end
    → l.is_shown ≡ true
    → IsLate l
    → IsTimely l
    → IsSound end (pass ms (record l { now = l.now + ms }))
pass-IsSound ms end l at shown late timely =
    let m : Layout = record l { now = l.now + ms } in
    elim (Bool-cases (l.time_left == 0)) [
      | inl e ↦ rw (pass_over ms m e) (at, inr (shown, (late.0, omega (arith, late.1)), timely))
      | inr e ↦ rw (pass_on ms m e) (effect-IsSound end _ at shown (omega (arith, late)))
    ]

on_event-IsSound : (e : Event) (end : ℕ) (l : Layout) → IsSound end l → IsSound end (on_event e l)
unfolding initial_time
on_event-IsSound (wait ms) end l (at, inl away) = rw (wait_away ms l away) (at, inl away)
on_event-IsSound (wait ms) end l (at, inr (shown, late, timely)) =
    rw (wait_shown ms l shown) (pass-IsSound ms end l at shown late timely)
on_event-IsSound (link path) end l (at, state) = elim (Bool-cases (is_layout_page path)) [
  | inr e ↦ rw (link_out path l e) (at, inl refl)
  | inl e ↦ elim state [
    | inl away ↦ rw (link_back path l e away, at) (mount-IsSound l.now (some end) path)
    | inr (shown, late, timely) ↦ rw (link_in path l e shown) (
        if_either (IsSound end) (str_eq path l.path) (at, inr (shown, late, timely))
          (effect-IsSound end (record l { path = path; elapsed = 0 }) at shown
            (omega (arith, late))))
  ]
]

on_events-IsSound :
    (es : List Event) (end : ℕ) (l : Layout) → IsSound end l → IsSound end (on_events es l)
unfolding on_events
on_events-IsSound [] end l h = h
on_events-IsSound (e ∷ es) end l h =
    on_events-IsSound es end (on_event e l) (on_event-IsSound e end l h)

-- A page that is left alone for the time that it shows ends on one of the results.
wait_out :
    (l : Layout)
    → l.is_shown ≡ true
    → IsTimely l
    → is_result_page (on_event (wait (1000 * l.time_left)) l).path ≡ true
wait_out l shown timely =
    let ms = 1000 * l.time_left in
    let m : Layout = record l { now = l.now + ms } in
    rw (wait_shown ms l shown) (elim (Bool-cases (l.time_left == 0)) [
      | inl e ↦
          rw (pass_over ms m e)
            (elim timely [ inl left ↦ absurd (ground (arith, e, left)) | inr r ↦ r ])
      | inr e ↦
          let after : Layout = record m {
            time_left = l.time_left - (l.elapsed + ms) / 1000;
            elapsed = (l.elapsed + ms) % 1000;
          } in
          rw (pass_on ms m e) (elim (effect-IsTimely after) [
            | inl left ↦ absurd (omega (arith, left, (effect_time after)))
            | inr r ↦ r
          ])
    ])

-- What is said of a page of the layout, of the session's end.
abbrev pub CountsDown : ℕ → Layout → Type 0
CountsDown end l =
    (end ≤ l.now + 1000 * l.time_left + 999)
    × IsTimely l
    × (is_result_page (on_event (wait (1000 * l.time_left)) l).path ≡ true)

-- After any links and waits since `Layout` was shown first, it is not shown, or the
-- following holds: the session's end is at most a second further off than the seconds shown, so the
-- countdown is never early by a second; with none left the page is that which calculates the results or a
-- leaderboard; and it is one of these after a wait of as many seconds as are left without a link.
pub on_events_ends :
    (es : List Event) (now : ℕ) (session : Option ℕ) (path : String)
    → let l = on_events es (mount now session path) in
      (l.is_shown ≡ false) ⊎ CountsDown (initial_time now session).1 l
on_events_ends es now session path =
    let start = mount now session path in
    let end = (initial_time now session).1 in
    let (at, state) = on_events-IsSound es end start (mount-IsSound now session path) in
    elim state [
      | inl away ↦ inl away
      | inr (shown, late, timely) ↦
          inr (omega (arith, late, at), timely, wait_out (on_events es start) shown timely)
    ]
