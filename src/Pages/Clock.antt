-- ===== src/Pages/Clock.antt =====
-- `GMTimer` of the contest's page: which round the clock is for, and what it shows.
pub mod Shown
use vidhi_trading_platform.Prelude.{
  ℕ, ◌+◌, ◌-◌, ◌*◌, ◌/◌, ◌%◌, ◌==◌, Bool, true, false, not, ◌&&◌, String, ◌+++◌, List, Option, none,
  some, find, ltb, leb, if◌then◌else◌,
}
use vidhi_trading_platform.Store.Types.{Round}

-- `r.startAt && r.endAt && now >= startAt && now <= endAt`, with 0 for a time that is absent.
abbrev pub is_on : ℕ → Round → Bool
is_on now r =
    not (r.start_at == 0) && (not (r.end_at == 0) && (leb r.start_at now && leb now r.end_at))

-- `r.startAt && now < startAt`
abbrev pub is_to_come : ℕ → Round → Bool
is_to_come now r = not (r.start_at == 0) && ltb now r.start_at

-- Hours, minutes and seconds.
pub record Hms : Type 0 where
  pub hours : ℕ
  pub minutes : ℕ
  pub seconds : ℕ

-- `h`, `m` and `s`, of milliseconds.
unfoldable pub hms : ℕ → Hms
hms diff = record {
  hours = diff / (1000 * 60 * 60);
  minutes = diff / (1000 * 60) % 60;
  seconds = diff / 1000 % 60;
}

-- What the clock shows: the contest is finished; no time is left, with the status as it was; or the time
-- to the end of a round, or in a break to the start of the next.
pub data Face : Type 0 where
  finished time_up : Face
  ends_in starts_in : Hms → Face

abbrev pub face_of : ℕ → (Hms → Face) → Face
face_of diff show = if diff == 0 then time_up else show (hms diff)

abbrev pub next_face : ℕ → Option Round → Face
next_face now none = finished
next_face now (some r) = face_of (r.start_at - now) starts_in

-- `updateTimer`
unfoldable pub update_timer : ℕ → List Round → Face
unfolding hms
update_timer now rounds = elim (find (is_on now) rounds) [
  | some r ↦ face_of (r.end_at - now) ends_in
  | none ↦ next_face now (find (is_to_come now) rounds)
]
