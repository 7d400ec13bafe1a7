-- ===== src/Pages/Form/Again.antt =====
-- Saving a contest twice from its form.
use vidhi_trading_platform.Prelude.{
  ℕ, ◌+◌, Bool, true, false, String, str_eq, trim, List, [], ◌∷◌, ◌++◌, map, none, some, find, ◌≡◌,
  refl, sym, ap, if◌then◌else◌, if_either, Bool-cases, Option-cases, inl, inr, eq_refl, arith,
}
use vidhi_trading_platform.Store.Types.{Round, Contest, State, Store, Browser}
use vidhi_trading_platform.Store.Storage.{save}
use vidhi_trading_platform.Store.Contests.{has_id, update_first, get_contest}
use vidhi_trading_platform.Store.Found.{find-update_first}
use vidhi_trading_platform.Store.Server.{
  Reply, refused, thrown, Names, Draft, plain_rounds, complete_rounds, is_update, drafted,
  store_contest, created, create_contest, put_contests,
}
use vidhi_trading_platform.Pages.Form.{given, given_round, with_status, form_after, save_contest}

-- The server does not take a request: it answers that, or there is no answer.
abbrev pub unreached : Bool → Reply String
unreached answers = if answers then refused else thrown

abbrev status_of : Bool → String
status_of publish = if publish then "active" else "draft"

plain_rounds_given : (rs : List Round) → plain_rounds (map given_round rs) ≡ rs
plain_rounds_given [] = refl
plain_rounds_given (r ∷ rs) = ap (λ ts. r ∷ ts) (plain_rounds_given rs)

complete_rounds_given :
    (names : Names) (rs : List Round) (n : ℕ) → complete_rounds names n (map given_round rs) ≡ rs
unfolding complete_rounds
complete_rounds_given names [] n = refl
complete_rounds_given names (r ∷ rs) n = ap (λ ts. r ∷ ts) (complete_rounds_given names rs (n + 1))

-- A contest that came from the store is drafted as it is.
drafted-given :
    (b : Browser) (names : Names) (publish : Bool) (c : Contest) (s : State)
    → c.status ≡ status_of publish
    → drafted b names (with_status publish (given c)) s ≡ c
unfolding drafted
drafted-given b names publish c s h =
    if_either (λ (e : Contest). e ≡ c) (is_update names (some c.id))
      (λ i. record c { status = sym h i; rounds = plain_rounds_given c.rounds i })
      (λ i. record c { status = sym h i; rounds = complete_rounds_given names c.rounds 0 i })

drafted_status :
    (b : Browser) (names : Names) (publish : Bool) (f : Draft) (s : State)
    → (drafted b names (with_status publish f) s).status ≡ status_of publish
unfolding drafted
drafted_status b names publish f s =
    if_either (λ (e : Contest). e.status ≡ status_of publish) (is_update names f.id) refl refl

drafted_name :
    (b : Browser) (names : Names) (publish : Bool) (f : Draft) (s : State)
    → (drafted b names (with_status publish f) s).name ≡ f.name
unfolding drafted
drafted_name b names publish f s =
    if_either (λ (e : Contest). e.name ≡ f.name) (is_update names f.id) refl refl

find-append_end :
    (c : Contest) (cs : List Contest)
    → find (has_id c.id) cs ≡ none
    → find (has_id c.id) (cs ++ (c ∷ [])) ≡ some c
find-append_end c [] h = rw (eq_refl c.id) refl
find-append_end c (d ∷ cs) h = elim (Bool-cases (has_id c.id d)) [
  | inl e ↦ let w : some d ≡ none = rw e at h in absurd (ground arith)
  | inr e ↦ let w : find (has_id c.id) cs ≡ none = rw e at h in rw e (find-append_end c cs w)
]

find-store_contest_self :
    (c : Contest) (cs : List Contest) → find (has_id c.id) (store_contest c cs) ≡ some c
unfolding store_contest
find-store_contest_self c cs = elim (Option-cases (find (has_id c.id) cs)) [
  | inl e ↦ rw (e, store_contest) (find-append_end c cs e)
  | inr (old, e) ↦
      rw (e, store_contest) (find-update_first (has_id c.id) (λ d. c) cs old e (eq_refl c.id))
]

update_first-find :
    (p : Contest → Bool) (c : Contest) (cs : List Contest)
    → find p cs ≡ some c
    → update_first p (λ d. c) cs ≡ cs
update_first-find p c [] h = refl
update_first-find p c (d ∷ cs) h = elim (Bool-cases (p d)) [
  | inl e ↦
      let w : some d ≡ some c = rw e at h in
      let same : c ≡ d = ground arith in rw e (ap (λ x. x ∷ cs) same)
  | inr e ↦
      let w : find p cs ≡ some c = rw e at h in
      rw e (ap (λ ds. d ∷ ds) (update_first-find p c cs w))
]

store_contest_twice :
    (c : Contest) (cs : List Contest) → store_contest c (store_contest c cs) ≡ store_contest c cs
unfolding store_contest
store_contest_twice c cs =
    let found = find-store_contest_self c cs in
    rw (found, store_contest) (update_first-find (has_id c.id) c (store_contest c cs) found)

-- The form and the store after a save that the server does not take.
abbrev saved : Browser → Contest → Store → Draft × Store
saved b c st = (given c, save b (put_contests (store_contest c st.state.contests) st))

form_after-saved :
    (b : Browser) (c : Contest) (f : Draft) (st : Store)
    → form_after (get_contest c.id (saved b c st).1.state) f ≡ given c
unfolding get_contest save
form_after-saved b c f st = rw (find-store_contest_self c st.state.contests) refl

save_contest-saved :
    (b : Browser) (names : Names) (publish reply : Bool) (f : Draft) (st : Store)
    → str_eq (trim f.name) "" ≡ false
    → save_contest b names publish (unreached reply) [] (f, st)
      ≡ saved b (drafted b names (with_status publish f) st.state) st
unfolding save_contest create_contest created
save_contest-saved b names publish true f st e =
    let c = drafted b names (with_status publish f) st.state in
    rw e (λ i. (form_after-saved b c f st i, (saved b c st).1))
save_contest-saved b names publish false f st e =
    let c = drafted b names (with_status publish f) st.state in
    rw e (λ i. (form_after-saved b c f st i, (saved b c st).1))

save_contest_nameless :
    (b : Browser) (names : Names) (publish : Bool) (reply : Reply String) (f : Draft) (st : Store)
    → str_eq (trim f.name) "" ≡ true
    → save_contest b names publish reply [] (f, st) ≡ (f, st)
unfolding save_contest
save_contest_nameless b names publish reply f st e = rw e refl

-- Saving the form once more with the server out of reach, as a draft or published as before, leaves the form
-- and the store's state as they are, at whatever time that is: no second contest is stored.
pub save_contest_again :
    (b later : Browser) (names : Names) (publish : Bool) (reply again : Bool) (f : Draft)
    (st : Store)
    → let once = save_contest b names publish (unreached reply) [] (f, st) in
      let twice = save_contest later names publish (unreached again) [] once in
      (twice.0 ≡ once.0) × (twice.1.state ≡ once.1.state)
unfolding save
save_contest_again b later names publish reply again f st =
    elim (Bool-cases (str_eq (trim f.name) "")) [
      | inl e ↦
          rw
            (
              save_contest_nameless b names publish (unreached reply) f st e,
              save_contest_nameless later names publish (unreached again) f st e,
            )
            (refl, refl)
      | inr e ↦
          let c = drafted b names (with_status publish f) st.state in
          let st1 = (saved b c st).1 in
          let named : str_eq (trim c.name) "" ≡ false =
            rw (drafted_name b names publish f st.state) e in
          rw
            (
              save_contest-saved b names publish reply f st e,
              save_contest-saved later names publish again (given c) st1 named,
              drafted-given later names publish c st1.state
                  (drafted_status b names publish f st.state),
            )
            (
              refl,
              ap (λ (cs : List Contest). record (st.state) { contests = cs })
                  (store_contest_twice c st.state.contests),
            )
    ]
