-- ===== src/Store/Student.antt =====
-- What a student does: join and leave a contest, keep code, record results and runs.
pub mod Joined
pub mod Results
use vidhi_trading_platform.Prelude.{
  ℕ, zero, suc, Bool, true, false, String, str_eq, List, [], ◌∷◌, ◌++◌, Option, none, some, find,
  take, if◌then◌else◌, ℤ, pos,
}
use vidhi_trading_platform.Store.Types.{
  Round, Participant, Contest, Run, Submission, State, Store, Browser,
}
use vidhi_trading_platform.Store.Storage.{change}
use vidhi_trading_platform.Store.Contests.{has_id, update_first, get_contest}

-- `a || b` on texts
abbrev pub or_text : String → String → String
or_text a b = if str_eq a "" then b else a

-- `this.state.studentId || 'me'`
abbrev pub my_id : State → String
my_id s = or_text s.student_id "me"

abbrev pub is_me : State → Participant → Bool
is_me s p = str_eq p.id (my_id s)

abbrev pub newcomer : Browser → State → Participant
newcomer b s = record {
  id = my_id s;
  name = or_text s.student_name "Anonymous";
  team = or_text s.student_team "Solo";
  pnl_pct = pos 0;
  p99 = pos 0;
  fills = 0;
  rounds = [];
  result_outside = none;
  joined_at = b.now;
  last_code = none;
}

abbrev pub enrol : Participant → Contest → Contest
enrol p c = record c { participants = c.participants ++ (p ∷ []) }

-- `joinContest`: whether there is such a contest, and the store. A newcomer is saved at once, the
-- active contest after that.
unfoldable pub join_contest : Browser → String → Store → Bool × Store
unfolding change
join_contest b i st =
    let s = st.state in
    let activate = λ (t : Store). change b (record (t.state) { active_contest_id = i }) t in
    elim (get_contest i s) [
      | none ↦ (false, st)
      | some c ↦ (
        true,
        elim (find (is_me s) c.participants) [
          | some p ↦ activate st
          | none ↦
              let enrolled = update_first (has_id i) (enrol (newcomer b s)) s.contests in
              activate (change b (record s { contests = enrolled }) st)
        ],
      )
    ]

-- `leaveContest`
unfoldable pub leave_contest : Browser → Store → Store
unfolding change
leave_contest b st = change b (record (st.state) { active_contest_id = "" }) st

-- A change of my own entry in a contest.
abbrev pub update_me : State → (Participant → Participant) → Contest → Contest
update_me s f c = record c { participants = update_first (is_me s) f c.participants }

-- `saveLastCode`
unfoldable pub save_last_code : Browser → String → Store → Store
unfolding change
save_last_code b code st =
    let s = st.state in
    let i = s.active_contest_id in
    elim (get_contest i s) [
      | none ↦ st
      | some c ↦ elim (find (is_me s) c.participants) [
        | none ↦ st
        | some p ↦
            let keep = update_me s (λ q. record q { last_code = some code }) in
            change b (record s { contests = update_first (has_id i) keep s.contests }) st
      ]
    ]

pub record RoundResult : Type 0 where
  pub contest_id : String
  pub round_id : String
  pub pnl_pct : ℤ
  pub p99 : ℤ
  pub fills : ℕ

-- `contest.rounds.findIndex(r => r.id === roundId)`, `none` for -1.
unfoldable pub round_index : String → List Round → Option ℕ
round_index i [] = none
round_index i (r ∷ rs) =
    let rest = round_index i rs in
    if str_eq r.id i then some 0 else elim rest [ none ↦ none | some n ↦ some (suc n) ]

-- `a[n] = v` on a sparse array: the elements between its end and `n` are holes.
unfoldable pub set_sparse : ℕ → ℤ → List (Option ℤ) → List (Option ℤ)
set_sparse zero v [] = some v ∷ []
set_sparse zero v (x ∷ xs) = some v ∷ xs
set_sparse (suc n) v [] = none ∷ set_sparse n v []
set_sparse (suc n) v (x ∷ xs) = x ∷ set_sparse n v xs

-- `me.rounds[ri] = pnlPct`, which for -1 is a property and no element.
unfoldable pub store_result : Option ℕ → ℤ → Participant → Participant
unfolding set_sparse
store_result none v p = record p { result_outside = some v }
store_result (some n) v p = record p { rounds = set_sparse n v p.rounds }

unfoldable pub take_result : RoundResult → List Round → Participant → Participant
unfolding store_result round_index
take_result r rounds p =
    store_result (round_index r.round_id rounds) r.pnl_pct
      (record p { pnl_pct = r.pnl_pct; p99 = r.p99; fills = r.fills })

-- `recordResult`
unfoldable pub record_result : Browser → RoundResult → Store → Store
unfolding change take_result
record_result b r st =
    let s = st.state in
    let keep = λ (c : Contest). update_me s (take_result r c.rounds) c in
    change b (record s { contests = update_first (has_id r.contest_id) keep s.contests }) st

-- `addRunHistory`: the newest first, fifty at most.
unfoldable pub add_run_history : Browser → Run → Store → Store
unfolding change
add_run_history b run st =
    let entry : Submission = record { run = run; timestamp = b.now } in
    change b (record (st.state) { my_submissions = take 50 (entry ∷ st.state.my_submissions) }) st
