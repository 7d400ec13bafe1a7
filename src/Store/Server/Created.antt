-- ===== src/Store/Server/Created.antt =====
-- Creating a contest.
use vidhi_trading_platform.Prelude.{
  false, String, List, [], ◌∷◌, ◌++◌, some, find, if◌then◌else◌, ◌≡◌, ◌≢◌, refl, eq_iff, Bool-cases,
  Option-cases, inl, inr, ap, ◌∙◌, Bool,
}
use vidhi_trading_platform.Store.Types.{Contest, Store, Browser}
use vidhi_trading_platform.Store.Storage.{save}
use vidhi_trading_platform.Store.Contests.{has_id, update_first, get_contest}
use vidhi_trading_platform.Store.Contests.Local.{ids_apart}
use vidhi_trading_platform.Store.Found.{find-update_first_other}
use vidhi_trading_platform.Store.Server.{
  Reply, answered, refused, thrown, Names, Draft, drafted, store_contest, post_rounds, created,
  create_contest,
}

find-append_other :
    (p : Contest → Bool) (cs : List Contest) (c : Contest)
    → p c ≡ false
    → find p (cs ++ (c ∷ [])) ≡ find p cs
find-append_other p [] c h = rw h refl
find-append_other p (d ∷ cs) c h = ap (λ o. if p d then some d else o) (find-append_other p cs c h)

has_id-false : (j : String) (c : Contest) → c.id ≢ j → has_id j c ≡ false
has_id-false j c apart = elim (Bool-cases (has_id j c)) [
  | inr e ↦ e
  | inl e ↦ absurd (apart ((eq_iff c.id j).0 e))
]

find-exchange :
    (i j : String) (c : Contest) (cs : List Contest)
    → i ≢ j
    → c.id ≢ j
    → find (has_id j) (update_first (has_id i) (λ x. c) cs) ≡ find (has_id j) cs
find-exchange i j c cs before after =
    find-update_first_other (has_id i) (has_id j) (λ x. c) cs (λ d h. ids_apart i j d before h)
      (λ d h. has_id-false j c after)

find-store_contest :
    (j : String) (c : Contest) (cs : List Contest)
    → c.id ≢ j
    → find (has_id j) (store_contest c cs) ≡ find (has_id j) cs
unfolding store_contest
find-store_contest j c cs apart = elim (Option-cases (find (has_id c.id) cs)) [
  | inl e ↦ rw (e, store_contest) (find-append_other (has_id j) cs c (has_id-false j c apart))
  | inr (old, e) ↦ rw (e, store_contest) (find-exchange c.id j c cs apart apart)
]

-- Whatever the server answers, a contest is found by its id as before `createContest`, unless the id
-- is the one that the contest is first stored under or the one that is returned.
pub create_contest_local :
    (b : Browser) (names : Names) (d : Draft) (reply : Reply String) (replies : List (Reply String))
    (st : Store) (j : String)
    → (drafted b names d st.state).id ≢ j
    → (create_contest b names d reply replies st).0 ≢ j
    → get_contest j (create_contest b names d reply replies st).1.state ≡ get_contest j st.state
unfolding create_contest get_contest save created
create_contest_local b names d refused replies st j draft returned =
    find-store_contest j (drafted b names d st.state) st.state.contests draft
create_contest_local b names d thrown replies st j draft returned =
    find-store_contest j (drafted b names d st.state) st.state.contests draft
create_contest_local b names d (answered i) replies st j draft returned =
    let c = drafted b names d st.state in
    let kept =
      find-exchange c.id j (created (answered i) replies c) (store_contest c st.state.contests)
        draft returned
      ∙ find-store_contest j c st.state.contests draft in
    elim (Bool-cases (post_rounds replies c.rounds).1) [ inl e ↦ rw e kept | inr e ↦ rw e kept ]
