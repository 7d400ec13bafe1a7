-- ===== src/Pages/Arena/Delay.antt =====
-- How long the editor's page waits before it goes to the dashboard.
use vidhi_trading_platform.Prelude.{
  ℕ, ◌+◌, ◌≤◌, ◌≡◌, refl, Bool, true, false, String, [], ◌∷◌, ◌++◌, arith, ◌⊎◌,
}
use vidhi_trading_platform.Pages.Arena.{Arena, Report, delay_of, on_started, on_status}

delay_of_bounds :
    (now start_time : ℕ)
    → start_time ≤ now
    → (500 ≤ delay_of now start_time)
      × (delay_of now start_time ≤ 2000)
      × ((start_time ≡ 0) ⊎ (start_time + 2000 ≤ now + delay_of now start_time))
unfolding delay_of
delay_of_bounds now start_time h = (ground arith, ground arith, ground arith)

abbrev pub started_text : Bool → String
started_text true = "queued_gm"
started_text false = "running"

-- When a run starts, or waits for the game master, and no navigation was set for it, one is set: half a second to
-- two seconds later, and two seconds or more after the validation began, where it did.
on_status_delay :
    (now : ℕ) (waits : Bool) (r : Report) (a : Arena)
    → a.has_navigated ≡ false
    → a.start_time ≤ now
    → (t : ℕ) × ((on_status now (started_text waits) r a).timers ≡ a.timers ++ (t ∷ []))
      × (now + 500 ≤ t)
      × (t ≤ now + 2000)
      × ((a.start_time ≡ 0) ⊎ (a.start_time + 2000 ≤ t))
unfolding on_status on_started
on_status_delay now waits r a first begun =
    let (low, high, late) = delay_of_bounds now a.start_time begun in
    (
      now + delay_of now a.start_time,
      elim waits
          as (λ w.
            (on_status now (started_text w) r a).timers
            ≡ a.timers ++ ((now + delay_of now a.start_time) ∷ [])) [
              | true ↦ rw (first) refl
              | false ↦ rw (first) refl
            ],
      omega (arith, low),
      omega (arith, high),
      late,
    )
