-- ===== src/Pages/Chart/Drawn.antt =====
-- The points of a chart against the data that they come from.
use vidhi_trading_platform.Prelude.{
  ℕ, ◌==◌, ◌<◌, List, [], ◌∷◌, Option, none, some, if◌then◌else◌, ◌≡◌, refl, arith, Bool-cases, inl,
  inr, ◌∙◌,
}
use vidhi_trading_platform.Sim.Types.{Point}
use vidhi_trading_platform.Pages.Chart.{
  seen_time, unique_from, insert_point, sort_points, chart_data,
}

-- The first point of a time.
unfoldable pub at_time : ℕ → List Point → Option Point
at_time t [] = none
at_time t (d ∷ ds) = if d.time == t then some d else at_time t ds

-- Each time is after the one before.
unfoldable pub IsIncreasing : List Point → Type 0
IsIncreasing [] = Unit
IsIncreasing (d ∷ []) = Unit
IsIncreasing (d ∷ e ∷ es) = (d.time < e.time) × IsIncreasing (e ∷ es)

at_time-insert_point :
    (t : ℕ) (d : Point) (es : List Point)
    → at_time t (insert_point d es) ≡ (if d.time == t then some d else at_time t es)
unfolding at_time insert_point
at_time-insert_point t d [] = refl
at_time-insert_point t d (e ∷ es) = ground (arith, at_time-insert_point t d es)

at_time-unique_from :
    (t : ℕ) (seen : List ℕ) (ds : List Point)
    → at_time t (unique_from seen ds) ≡ (if seen_time t seen then none else at_time t ds)
unfolding at_time unique_from seen_time
at_time-unique_from t seen [] = ground arith
at_time-unique_from t seen (d ∷ ds) =
    ground (arith, at_time-unique_from t seen ds, at_time-unique_from t (d.time ∷ seen) ds)

-- Where no point has the time, it can go in.
insert_point-IsIncreasing :
    (d : Point) (es : List Point)
    → IsIncreasing es
    → at_time d.time es ≡ none
    → IsIncreasing (insert_point d es)
unfolding at_time insert_point IsIncreasing
insert_point-IsIncreasing d [] h fresh = h
insert_point-IsIncreasing d (e ∷ []) h fresh = ground arith
insert_point-IsIncreasing d (e ∷ f ∷ fs) h fresh =
    ground (arith, insert_point-IsIncreasing d (f ∷ fs))

at_time-sort_points : (t : ℕ) (ds : List Point) → at_time t (sort_points ds) ≡ at_time t ds
unfolding at_time sort_points
at_time-sort_points t [] = refl
at_time-sort_points t (d ∷ ds) =
    at_time-insert_point t d (sort_points ds) ∙ rw (at_time-sort_points t ds) refl

sort_points-unique_from :
    (seen : List ℕ) (ds : List Point) → IsIncreasing (sort_points (unique_from seen ds))
unfolding unique_from sort_points IsIncreasing
sort_points-unique_from seen [] = omega arith
sort_points-unique_from seen (d ∷ ds) = elim (Bool-cases (seen_time d.time seen)) [
  | inl e ↦ rw e (sort_points-unique_from seen ds)
  | inr e ↦
      let rest = unique_from (d.time ∷ seen) ds in
      let fresh : at_time d.time (sort_points rest) ≡ none =
        at_time-sort_points d.time rest
        ∙ at_time-unique_from d.time (d.time ∷ seen) ds
        ∙ unfold seen_time in ground arith in
      rw e (
        insert_point-IsIncreasing d (sort_points rest) (sort_points-unique_from (d.time ∷ seen) ds)
          fresh)
]

-- What a chart is given for its data, where there is any: points whose times increase, and of each time the first
-- point of the data, so that no time is missed and none is made up.
pub chart_data_drawn :
    (shown : List Point) (d : Point) (ds : List Point)
    → let points = chart_data shown (d ∷ ds) in
      IsIncreasing points × ((t : ℕ) → at_time t points ≡ at_time t (d ∷ ds))
unfolding chart_data
chart_data_drawn shown d ds = (
  sort_points-unique_from [] (d ∷ ds),
  λ t. at_time-sort_points t (unique_from [] (d ∷ ds)) ∙ at_time-unique_from t [] (d ∷ ds),
)
