-- ===== src/Store/Student/Joined.antt =====
-- Joining a contest.
use vidhi_trading_platform.Prelude.{
  true, String, eq_refl, List, [], ◌∷◌, ◌++◌, none, some, find, ◌≡◌, ◌≢◌, refl, Bool-cases,
  Option-cases, inl, inr, sym, ◌∙◌, ap, subst, Bool, arith,
}
use vidhi_trading_platform.Store.Types.{Participant, Contest, State, Store, Browser}
use vidhi_trading_platform.Store.Contests.{has_id, update_first, get_contest}
use vidhi_trading_platform.Store.Found.{find-holds, find-update_first}
use vidhi_trading_platform.Store.Contests.Local.{get_contest-update}
use vidhi_trading_platform.Store.Student.{my_id, is_me, newcomer, enrol, join_contest}

module _ {ℓ} {A : Type ℓ} (p : A → Bool) where
  find-append :
      (xs : List A) (x : A) → find p xs ≡ none → p x ≡ true → find p (xs ++ (x ∷ [])) ≡ some x
  find-append [] x h e = rw e refl
  find-append (y ∷ ys) x h e = elim (Bool-cases (p y)) [
    | inl t ↦ let w : some y ≡ none = rw t at h in absurd (ground arith)
    | inr t ↦ let w : find p ys ≡ none = rw t at h in rw t (find-append ys x w e)
  ]

newcomer-is_me : (b : Browser) (s : State) → is_me s (newcomer b s) ≡ true
newcomer-is_me b s = eq_refl (my_id s)

join_first :
    (b : Browser) (i : String) (st : Store) (c : Contest)
    → get_contest i st.state ≡ some c
    → find (is_me st.state) c.participants ≡ none
    → (join_contest b i st).1.state ≡ record (st.state) {
      active_contest_id = i;
      contests = update_first (has_id i) (enrol (newcomer b st.state)) st.state.contests;
    }
unfolding join_contest
join_first b i st c found new = rw (found, join_contest) (rw (new, join_contest) refl)

join_again :
    (b : Browser) (i : String) (st : Store) (c : Contest) (p : Participant)
    → get_contest i st.state ≡ some c
    → find (is_me st.state) c.participants ≡ some p
    → (join_contest b i st).1.state ≡ record (st.state) { active_contest_id = i }
unfolding join_contest
join_again b i st c p found me = rw (found, join_contest) (rw (me, join_contest) refl)

join_found :
    (b : Browser) (i : String) (st : Store) (c : Contest)
    → get_contest i st.state ≡ some c
    → (join_contest b i st).0 ≡ true
unfolding join_contest
join_found b i st c found = rw (found, join_contest) refl

-- `joinContest` on a contest that there is says true, makes it the active one, leaves the student
-- among its participants, and leaves every other contest as it was.
join_contest_joined :
    (b : Browser) (i j : String) (st : Store) (c : Contest)
    → get_contest i st.state ≡ some c
    → i ≢ j
    → let (ok, st') = join_contest b i st in
      (ok ≡ true)
      × (st'.state.active_contest_id ≡ i)
      × (c' : Contest) × (p : Participant) × (get_contest i st'.state ≡ some c')
      × (find (is_me st'.state) c'.participants ≡ some p)
      × (get_contest j st'.state ≡ get_contest j st.state)
unfolding get_contest
join_contest_joined b i j st c found apart =
    elim (Option-cases (find (is_me st.state) c.participants)) [
      | inl new ↦
          let me = newcomer b st.state in
          let kept = get_contest-update i j (enrol me) st c (λ d. refl) found apart in
          rw (join_first b i st c found new) (
            join_found b i st c found,
            refl,
            enrol me c,
            me,
            kept.0,
            find-append (is_me st.state) c.participants me new (newcomer-is_me b st.state),
            kept.1,
          )
      | inr (p, old) ↦
          rw (join_again b i st c p found old)
            (join_found b i st c found, refl, c, p, found, old, refl)
    ]

join_missing :
    (b : Browser) (i : String) (st : Store)
    → get_contest i st.state ≡ none
    → (join_contest b i st).1 ≡ st
unfolding join_contest
join_missing b i st missing = rw (missing, join_contest) refl

-- A student that is listed in the contest that is active joins it without any change of the state.
join_listed :
    (b : Browser) (i : String) (once : Store) (s : State) (c : Contest) (p : Participant)
    → once.state ≡ s
    → s.active_contest_id ≡ i
    → get_contest i s ≡ some c
    → find (is_me s) c.participants ≡ some p
    → (join_contest b i once).1.state ≡ s
join_listed b i once s c p e active found me =
    join_again b i once c p (subst (λ t. get_contest i t ≡ some c) (sym e) found)
      (subst (λ t. find (is_me t) c.participants ≡ some p) (sym e) me)
    ∙ ap {A = State} (λ t. record t { active_contest_id = i }) e
    ∙ ap (λ j. record s { active_contest_id = j }) (sym active)

same_contests :
    (i : String) (st : Store) (c : Contest)
    → get_contest i st.state ≡ some c
    → get_contest i (record (st.state) { active_contest_id = i }) ≡ some c
unfolding get_contest
same_contests i st c found = found

enrolled :
    (i : String) (me : Participant) (st : Store) (c : Contest)
    → get_contest i st.state ≡ some c
    → get_contest i (record (st.state) {
      active_contest_id = i;
      contests = update_first (has_id i) (enrol me) st.state.contests;
    })
      ≡ some (enrol me c)
unfolding get_contest
enrolled i me st c found =
    find-update_first (has_id i) (enrol me) st.state.contests c found
      (find-holds (has_id i) st.state.contests c found)

-- Joining a contest a second time changes nothing: the student is not listed twice.
pub join_contest_twice :
    (b : Browser) (i : String) (st : Store)
    → let once = (join_contest b i st).1 in (join_contest b i once).1.state ≡ once.state
join_contest_twice b i st =
    let once = (join_contest b i st).1 in
    elim (Option-cases (get_contest i st.state)) [
      | inl missing ↦ ap (λ t. (join_contest b i t).1.state) (join_missing b i st missing)
      | inr (c, found) ↦ elim (Option-cases (find (is_me st.state) c.participants)) [
        | inr (p, old) ↦
            let e = join_again b i st c p found old in
            join_listed b i once _ c p e refl (same_contests i st c found) old ∙ sym e
        | inl new ↦
            let me = newcomer b st.state in
            let e = join_first b i st c found new in
            join_listed b i once _ (enrol me c) me e refl (enrolled i me st c found)
              (find-append (is_me st.state) c.participants me new (newcomer-is_me b st.state))
            ∙ sym e
      ]
    ]
