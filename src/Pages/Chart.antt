-- ===== src/Pages/Chart.antt =====
-- `LWChart` of the dashboard: the points that the chart is given, one for each time and in the order of time.
pub mod Drawn
use vidhi_trading_platform.Prelude.{ℕ, ◌==◌, Bool, false, ◌||◌, List, [], ◌∷◌, ltb, if◌then◌else◌}
use vidhi_trading_platform.Sim.Types.{Point}

-- `seenTimes.has(t)`
unfoldable pub seen_time : ℕ → List ℕ → Bool
seen_time t [] = false
seen_time t (u ∷ us) = (u == t) || seen_time t us

-- The loop over the data, after the times that it has seen.
unfoldable pub unique_from : List ℕ → List Point → List Point
unfolding seen_time
unique_from seen [] = []
unique_from seen (d ∷ ds) =
    let again = unique_from seen ds in
    let first = d ∷ unique_from (d.time ∷ seen) ds in if seen_time d.time seen then again else first

-- `uniqueData.sort((a, b) => a.time - b.time)`
unfoldable pub insert_point : Point → List Point → List Point
insert_point d [] = d ∷ []
insert_point d (e ∷ es) =
    let later = e ∷ insert_point d es in if ltb e.time d.time then later else d ∷ e ∷ es

unfoldable pub sort_points : List Point → List Point
unfolding insert_point
sort_points [] = []
sort_points (d ∷ ds) = insert_point d (sort_points ds)

-- The new `dataRef`: as it was where there is no data.
unfoldable pub chart_data : List Point → List Point → List Point
unfolding unique_from sort_points
chart_data shown [] = shown
chart_data shown (d ∷ ds) = sort_points (unique_from [] (d ∷ ds))
