-- ===== src/Pages/Lobby.antt =====
-- `ContestLobby.jsx` and the times of `Submissions.jsx`: the contests that a student sees, and their cards.
use vidhi_trading_platform.Prelude.{
  ℕ, ◌-◌, ◌*◌, ◌/◌, ◌%◌, ◌==◌, ltb, Bool, true, false, not, String, ◌+++◌, str_eq, split, trim,
  slice, len, ends_with, List, [], ◌∷◌, Option, none, some, find, filter_by, if◌then◌else◌,
  to_lower, letters,
}
use vidhi_trading_platform.Store.Types.{Round, Contest, State, Store, Browser}
use vidhi_trading_platform.Store.Student.{or_text, join_contest}
use vidhi_trading_platform.Client.Http.{Result, value, thrown}

-- `contests`: all but the drafts.
unfoldable pub visible_contests : State → List Contest
visible_contests s = filter_by (λ c. not (str_eq c.status "draft")) s.contests

-- The time that is left of a contest, 0 for one without an end, and the days and hours of it.
abbrev pub time_left : ℕ → ℕ → ℕ
time_left now ends_at = if ends_at == 0 then 0 else ends_at - now

unfoldable pub days_left : ℕ → ℕ
days_left left = left / (24 * 3600 * 1000)

unfoldable pub hours_left : ℕ → ℕ
hours_left left = left % (24 * 3600 * 1000) / 3_600_000

-- The text of the card; `show` is how JavaScript prints a number.
unfoldable pub left_text : (ℕ → String) → ℕ → String
unfolding days_left hours_left
left_text show left =
    if ltb 0 (days_left left)
    then show (days_left left) +++ "d " +++ show (hours_left left) +++ "h"
    else show (hours_left left) +++ "h"

-- `rounds.find(r => r.status === 'active')`
unfoldable pub active_round : List Round → Option Round
active_round rounds = find (λ r. str_eq r.status "active") rounds

abbrev pub first_part : List String → String
first_part [] = ""
first_part (p ∷ ps) = p

-- The name of the active round up to its dash.
unfoldable pub active_round_text : List Round → String
unfolding active_round split trim
active_round_text rounds = elim (active_round rounds) [
  | none ↦ "None"
  | some r ↦ trim (first_part (split "—" r.name))
]

-- What the download of a round's dataset gives: a file of the browser's database, or a page of the server.
pub data Download : Type 0 where
  file : String → String → Download
  window : String → Download
  nothing : Download

-- `key.replace(/\.csv$/i, '.bin')`
unfoldable pub as_binary : String → String
unfolding to_lower
as_binary key =
    if ends_with (to_lower letters key) ".csv" then slice key 0 (len key - 4) +++ ".bin" else key

abbrev pub fallback_name : Round → String
unfolding as_binary
fallback_name r = or_text r.dataset_path (or_text (as_binary r.test_data_key) "public_99k.bin")

-- The click on the download, in a round with a dataset; an error is only logged.
unfoldable pub download : (String → String) → String → Round → Result (Option String) → Download
unfolding as_binary
download encode api_base r (value (some csv)) =
    if str_eq csv ""
    then window (api_base +++ "/api/datasets/" +++ encode (fallback_name r))
    else file csv r.test_data_name
download encode api_base r (value none) =
    window (api_base +++ "/api/datasets/" +++ encode (fallback_name r))
download encode api_base r (thrown m) = nothing

-- `confirmJoin`: the store, and whether the page goes to the arena.
unfoldable pub confirm_join : Browser → Option Contest → Store → Store × Bool
unfolding join_contest
confirm_join b none st = (st, false)
confirm_join b (some c) st = ((join_contest b c.id st).1, true)

-- `formatTime` of `Submissions.jsx`, of the milliseconds since a run.
unfoldable pub ago_text : (ℕ → String) → ℕ → String
ago_text show diff =
    if ltb diff 60_000
    then show (diff / 1000) +++ "s ago"
    else (if ltb diff 3_600_000
        then show (diff / 60_000) +++ "m ago"
        else show (diff / 3_600_000) +++ "h ago")
