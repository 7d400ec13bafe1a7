-- ===== src/Store/Board.antt =====
-- The getters: the active contest and its round, and the leaderboard.
pub mod Ranking
use vidhi_trading_platform.Prelude.{
  ℕ, ◌+◌, Bool, ◌&&◌, true, false, String, str_eq, List, [], ◌∷◌, Option, none, some, find,
  if◌then◌else◌, ltb_ℤ,
}
use vidhi_trading_platform.Store.Types.{Round, Participant, Contest, State, Store, Browser}
use vidhi_trading_platform.Store.Storage.{change}
use vidhi_trading_platform.Store.Contests.{has_id, update_first, get_contest}
use vidhi_trading_platform.Store.Student.{or_text}

abbrev pub is_active_round : Round → Bool
is_active_round r = str_eq r.status "active"

abbrev pub has_active_round : List Round → Bool
has_active_round [] = false
has_active_round (r ∷ rs) = if is_active_round r then true else has_active_round rs

abbrev pub is_live : Contest → Bool
is_live c = str_eq c.status "active" && has_active_round c.rounds

abbrev pub head? {ℓ} : {A : Type ℓ} → List A → Option A
head? [] = none
head? (x ∷ xs) = some x

abbrev pub activate : Browser → Contest → Store → Store
activate b c st = change b (record (st.state) { active_contest_id = c.id }) st

-- `getActiveContest`: the one that was joined, or a live one, or the first; a live one is made the
-- active one, the first only where no contest was active.
unfoldable pub get_active_contest : Browser → Store → Option Contest × Store
unfolding change
get_active_contest b st =
    let s = st.state in
    elim (get_contest s.active_contest_id s) [
      | some c ↦ (some c, st)
      | none ↦ elim (find is_live s.contests) [
        | some c ↦ (some c, activate b c st)
        | none ↦ elim (head? s.contests) [
          | none ↦ (none, st)
          | some c ↦ (some c, if str_eq s.active_contest_id "" then activate b c st else st)
        ]
      ]
    ]

-- `firstRound.status = firstRound.status || 'active'`
abbrev pub default_status : List Round → List Round
default_status [] = []
default_status (r ∷ rs) = record r { status = or_text r.status "active" } ∷ rs

-- `getActiveRoundId`, which does not save what it changes in the first round.
unfoldable pub get_active_round_id : Browser → Store → Option String × Store
unfolding get_active_contest
get_active_round_id b st =
    let (found, st') = get_active_contest b st in
    elim found [
      | none ↦ (none, st')
      | some c ↦ elim (find is_active_round c.rounds) [
        | some r ↦ (some r.id, st')
        | none ↦ elim (head? c.rounds) [
          | none ↦ (none, st')
          | some r ↦
              let touch = λ (d : Contest). record d { rounds = default_status d.rounds } in
              let contests = update_first (has_id c.id) touch st'.state.contests in
              (some r.id, record st' { state = record (st'.state) { contests = contests } })
        ]
      ]
    ]

-- `.sort((a, b) => b.pnlPct - a.pnlPct)`, which keeps the order of equal ones.
unfoldable pub insert_ranked : Participant → List Participant → List Participant
insert_ranked p [] = p ∷ []
insert_ranked p (q ∷ qs) = if ltb_ℤ p.pnl_pct q.pnl_pct then q ∷ insert_ranked p qs else p ∷ q ∷ qs

unfoldable pub sort_ranked : List Participant → List Participant
unfolding insert_ranked
sort_ranked [] = []
sort_ranked (p ∷ ps) = insert_ranked p (sort_ranked ps)

pub record Row : Type 0 where
  pub participant : Participant
  pub rank : ℕ

-- `.map((p, i) => ({ ...p, rank: i + 1 }))`, from index `i`.
unfoldable pub rank_from : ℕ → List Participant → List Row
rank_from i [] = []
rank_from i (p ∷ ps) = record { participant = p; rank = i + 1 } ∷ rank_from (i + 1) ps

-- `getLeaderboard`
unfoldable pub get_leaderboard : String → State → List Row
unfolding sort_ranked rank_from
get_leaderboard i s = elim (get_contest i s) [
  | none ↦ []
  | some c ↦ rank_from 0 (sort_ranked c.participants)
]
