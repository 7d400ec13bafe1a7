-- ===== src/Store/Contests/Local.antt =====
-- A change of one contest, and of no other.
use vidhi_trading_platform.Prelude.{
  true, false, String, eq_iff, none, some, find, ◌≡◌, ◌≢◌, Bool-cases, inl, inr, sym, ◌∙◌,
}
use vidhi_trading_platform.Store.Types.{Contest, Store, Browser}
use vidhi_trading_platform.Store.Contests.{
  has_id, update_first, get_contest, update_contest, delete_contest,
}
use vidhi_trading_platform.Store.Found.{
  find-update_first, find-update_first_other, find-filter_by, find-filter_by_other, find-holds,
}

-- Two ids that differ are not found in one contest.
pub ids_apart : (i j : String) (c : Contest) → i ≢ j → has_id i c ≡ true → has_id j c ≡ false
ids_apart i j c apart h = elim (Bool-cases (has_id j c)) [
  | inr e ↦ e
  | inl e ↦ absurd (apart (sym ((eq_iff c.id i).0 h) ∙ (eq_iff c.id j).0 e))
]

-- The contest that is looked up, if it keeps its id, is then the changed one; the others stay.
pub get_contest-update :
    (i j : String) (f : Contest → Contest) (s : Store) (c : Contest)
    → ((d : Contest) → (f d).id ≡ d.id)
    → get_contest i s.state ≡ some c
    → i ≢ j
    → let contests = update_first (has_id i) f s.state.contests in
      (find (has_id i) contests ≡ some (f c)) × (find (has_id j) contests ≡ get_contest j s.state)
unfolding get_contest
get_contest-update i j f s c keeps found apart = (
  find-update_first (has_id i) f s.state.contests c found
      (rw (keeps c) (find-holds (has_id i) s.state.contests c found)),
  find-update_first_other (has_id i) (has_id j) f s.state.contests (λ d h. ids_apart i j d apart h)
      (λ d h. rw (keeps d) (ids_apart i j d apart h)),
)

-- `updateContest` with a patch that keeps the id changes the contest of that id and no other; where
-- there is none, it changes nothing at all.
update_contest_local :
    (b : Browser) (i j : String) (f : Contest → Contest) (st : Store) (c : Contest)
    → ((d : Contest) → (f d).id ≡ d.id)
    → get_contest i st.state ≡ some c
    → i ≢ j
    → let s' = (update_contest b i f st).state in
      (get_contest i s' ≡ some (f c)) × (get_contest j s' ≡ get_contest j st.state)
unfolding get_contest update_contest
update_contest_local b i j f st c keeps found apart =
    rw (found, update_contest) (get_contest-update i j f st c keeps found apart)

-- After `deleteContest` no contest has that id, and each other id finds what it found.
delete_contest_gone :
    (b : Browser) (i j : String) (st : Store)
    → i ≢ j
    → let s' = (delete_contest b i st).state in
      (get_contest i s' ≡ none) × (get_contest j s' ≡ get_contest j st.state)
unfolding get_contest delete_contest
delete_contest_gone b i j st apart = (
  find-filter_by (has_id i) st.state.contests,
  find-filter_by_other (has_id i) (has_id j) st.state.contests (λ d h. ids_apart i j d apart h),
)
