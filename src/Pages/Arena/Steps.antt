-- ===== src/Pages/Arena/Steps.antt =====
-- `getStepStatus` of the modal that shows the steps of the validation.
use vidhi_trading_platform.Prelude.{
  ℕ, zero, suc, String, str_eq, List, [], ◌∷◌, ltb, ◌==◌, if◌then◌else◌, ◌≡◌, ◌≢◌, refl, map,
}
use vidhi_trading_platform.Engine.Types.{Status, idle, queued, running, done, error}

-- `order`
abbrev pub status_order : List String
status_order =
    "queued" ∷ "scanning" ∷ "transpiling" ∷ "compiling" ∷ "validating" ∷ "queued_gm" ∷ "running"
    ∷ "done" ∷ []

-- `indexOf`, one more than it: 0 for -1.
unfoldable pub place_of : String → List String → ℕ
place_of s [] = 0
place_of s (t ∷ ts) =
    let rest = place_of s ts in
    if str_eq t s then 1 else elim rest [ zero ↦ 0 | suc n ↦ suc (suc n) ]

pub data Step : Type 0 where
  completed active pending : Step

-- `getStepStatus`
unfoldable pub get_step_status : String → String → Step
unfolding place_of
get_step_status status step =
    let current = place_of status status_order in
    let at = place_of step status_order in
    if ltb at current then completed else (if current == at then active else pending)

-- The ids of `steps`.
abbrev pub steps : List String
steps = "scanning" ∷ "transpiling" ∷ "compiling" ∷ "validating" ∷ []

-- The text of the engine's status.
abbrev pub status_text : Status → String
status_text idle = "idle"
status_text queued = "queued"
status_text running = "running"
status_text done = "done"
status_text error = "error"

-- What the page can show of a step: it is done once the run has started, and pending before.
abbrev pub step_of : Status → Step
step_of running = completed
step_of done = completed
step_of _ = pending

-- Whichever status the engine has, the steps of the validation are shown alike: completed once the run is
-- running or done, else pending. None is shown as active.
get_step_status_alike :
    (s : Status)
    → (map (get_step_status (status_text s)) steps ≡ map (λ (step : String). step_of s) steps)
      × (step_of s ≢ active)
unfolding get_step_status
get_step_status_alike idle = (refl, λ h. cc)
get_step_status_alike queued = (refl, λ h. cc)
get_step_status_alike running = (refl, λ h. cc)
get_step_status_alike done = (refl, λ h. cc)
get_step_status_alike error = (refl, λ h. cc)
