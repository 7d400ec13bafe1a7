-- ===== src/Store/Student/Results.antt =====
-- The results of the rounds, and the history of runs.
use vidhi_trading_platform.Prelude.{
  ℕ, zero, suc, List, [], ◌∷◌, Option, none, some, take, ℤ, ◌≡◌, ◌≢◌, refl, ap, sym, ◌∙◌, find,
  true, Option-cases, inl, inr,
}
use vidhi_trading_platform.Store.Types.{
  Round, Participant, Contest, Run, Submission, State, Store, Browser,
}
use vidhi_trading_platform.Store.Storage.{
  json_participant, json_contest, json_state, boot, save, change,
}
use vidhi_trading_platform.Store.Storage.Kept.{load_written}
use vidhi_trading_platform.Store.Contests.{get_contest, has_id, update_first}
use vidhi_trading_platform.Store.Found.{find-map, find-update_first, find-holds}
use vidhi_trading_platform.Store.Student.{
  RoundResult, round_index, set_sparse, store_result, take_result, add_run_history, is_me,
  update_me, record_result,
}

-- `a[n]` on a sparse array: a hole and what is past the end are both undefined.
unfoldable pub result_at : ℕ → List (Option ℤ) → Option ℤ
result_at n [] = none
result_at zero (x ∷ xs) = x
result_at (suc n) (x ∷ xs) = result_at n xs

result_at-set_sparse :
    (n : ℕ) (v : ℤ) (xs : List (Option ℤ)) → result_at n (set_sparse n v xs) ≡ some v
unfolding result_at set_sparse
result_at-set_sparse zero v [] = refl
result_at-set_sparse zero v (x ∷ xs) = refl
result_at-set_sparse (suc n) v [] = result_at-set_sparse n v []
result_at-set_sparse (suc n) v (x ∷ xs) = result_at-set_sparse n v xs

result_at-set_sparse_other :
    (m n : ℕ) (v : ℤ) (xs : List (Option ℤ))
    → m ≢ n
    → result_at m (set_sparse n v xs) ≡ result_at m xs
unfolding result_at set_sparse
result_at-set_sparse_other zero zero v xs h = absurd (h refl)
result_at-set_sparse_other (suc m) zero v [] h = refl
result_at-set_sparse_other (suc m) zero v (x ∷ xs) h = refl
result_at-set_sparse_other zero (suc n) v [] h = refl
result_at-set_sparse_other zero (suc n) v (x ∷ xs) h = refl
result_at-set_sparse_other (suc m) (suc n) v [] h =
    result_at-set_sparse_other m n v [] (λ e. h (ap suc e))
result_at-set_sparse_other (suc m) (suc n) v (x ∷ xs) h =
    result_at-set_sparse_other m n v xs (λ e. h (ap suc e))

-- The result of a round that the contest has is kept at the index of that round, in place of what
-- stood there, and the results at the other indices stay.
pub take_result_kept :
    (r : RoundResult) (rounds : List Round) (p : Participant) (n m : ℕ)
    → round_index r.round_id rounds ≡ some n
    → m ≢ n
    → let p' = take_result r rounds p in
      (result_at n p'.rounds ≡ some r.pnl_pct) × (result_at m p'.rounds ≡ result_at m p.rounds)
unfolding store_result take_result result_at
take_result_kept r rounds p n m found other =
    rw (found, take_result)
      (
        result_at-set_sparse n r.pnl_pct p.rounds,
        result_at-set_sparse_other m n r.pnl_pct p.rounds other,
      )

take_result_outside :
    (r : RoundResult) (rounds : List Round) (p : Participant)
    → round_index r.round_id rounds ≡ none
    → ((take_result r rounds p).rounds ≡ p.rounds) × ((take_result r rounds p).pnl_pct ≡ r.pnl_pct)
unfolding store_result take_result
take_result_outside r rounds p missing = rw (missing, take_result) (refl, refl)

take_result_me :
    (r : RoundResult) (rounds : List Round) (s : State) (p : Participant)
    → is_me s (take_result r rounds p) ≡ is_me s p
unfolding take_result store_result
take_result_me r rounds s p = elim (Option-cases (round_index r.round_id rounds)) [
  | inl e ↦ rw (e, take_result) refl
  | inr (n, e) ↦ rw (e, take_result) refl
]

loaded_state :
    (b : Browser) (r : RoundResult) (st : Store)
    → ((s : State) → b.fits s ≡ true)
    → (boot (record_result b r st).storage).state ≡ json_state (record_result b r st).state
unfolding record_result change save boot
loaded_state b r st fits = load_written b fits _ st.storage

-- The contest and my entry in it, in what JSON keeps after a result was recorded.
recorded :
    (b : Browser) (r : RoundResult) (st : Store) (c : Contest) (p : Participant)
    → get_contest r.contest_id st.state ≡ some c
    → find (is_me st.state) c.participants ≡ some p
    → let loaded = json_state (record_result b r st).state in
      let c' = json_contest (update_me st.state (take_result r c.rounds) c) in
      (get_contest r.contest_id loaded ≡ some c')
      × (find (is_me loaded) c'.participants ≡ some (json_participant (take_result r c.rounds p)))
unfolding record_result change save get_contest json_state json_contest json_participant take_result
    store_result
recorded b r st c p here mine =
    let i = r.contest_id in
    let s = st.state in
    let keep : Contest → Contest = λ d. update_me s (take_result r d.rounds) d in
    let mine' = take_result r c.rounds in
    (
      (find-map (has_id i) json_contest (update_first (has_id i) keep s.contests) (keep c)
          (λ y. refl)
          (find-update_first (has_id i) keep s.contests c here
            (find-holds (has_id i) s.contests c here))),
      (find-map (is_me s) json_participant (update_first (is_me s) mine' c.participants) (mine' p)
          (λ y. refl)
          (find-update_first (is_me s) mine' c.participants p mine
            (take_result_me r c.rounds s p ∙ find-holds (is_me s) c.participants p mine))),
    )

-- The result of a student who is listed, for a round that the contest does not have, is lost with a page load, if
-- what is written always fits into the browser's storage: the percentage is then that of the result, but the
-- results by round are those from before, and there is none outside them either.
pub record_result_lost :
    (b : Browser) (r : RoundResult) (st : Store) (c : Contest) (p : Participant)
    → ((s : State) → b.fits s ≡ true)
    → get_contest r.contest_id st.state ≡ some c
    → find (is_me st.state) c.participants ≡ some p
    → round_index r.round_id c.rounds ≡ none
    → let loaded = (boot (record_result b r st).storage).state in
      (c' : Contest) × (p' : Participant) × (get_contest r.contest_id loaded ≡ some c')
      × (find (is_me loaded) c'.participants ≡ some p')
      × (p'.pnl_pct ≡ r.pnl_pct)
      × (p'.rounds ≡ p.rounds)
      × (p'.result_outside ≡ none)
unfolding json_participant
record_result_lost b r st c p fits here mine missing =
    let entry = recorded b r st c p here mine in
    let kept = take_result_outside r c.rounds p missing in
    rw (loaded_state b r st fits) (
      json_contest (update_me st.state (take_result r c.rounds) c),
      json_participant (take_result r c.rounds p),
      entry.0,
      entry.1,
      kept.1,
      kept.0,
      refl,
    )

-- The runs that are added one after the other, each at its own time.
unfoldable pub add_runs : List (Browser × Run) → Store → Store
unfolding add_run_history
add_runs [] st = st
add_runs ((b, run) ∷ rs) st = add_runs rs (add_run_history b run st)

-- The runs as the history shows them: the last first, before what was there.
unfoldable pub newest_first : List (Browser × Run) → List Submission → List Submission
newest_first [] old = old
newest_first ((b, run) ∷ rs) old = newest_first rs ((record { run = run; timestamp = b.now }) ∷ old)

take_shorter : (n : ℕ) (xs : List Submission) → take n (take (suc n) xs) ≡ take n xs
take_shorter zero xs = refl
take_shorter (suc n) [] = refl
take_shorter (suc n) (x ∷ xs) = ap (λ ys. x ∷ ys) (take_shorter n xs)

take-cons_take :
    (n : ℕ) (x : Submission) (xs : List Submission) → take n (x ∷ take n xs) ≡ take n (x ∷ xs)
take-cons_take zero x xs = refl
take-cons_take (suc n) x xs = ap (λ ys. x ∷ ys) (take_shorter n xs)

-- The first `n` of a history depend on the first `n` of the one before.
newest_first-take :
    (n : ℕ) (rs : List (Browser × Run)) (xs ys : List Submission)
    → take n xs ≡ take n ys
    → take n (newest_first rs xs) ≡ take n (newest_first rs ys)
unfolding newest_first
newest_first-take n [] xs ys h = h
newest_first-take n ((b, run) ∷ rs) xs ys h =
    let entry : Submission = record { run = run; timestamp = b.now } in
    newest_first-take n rs (entry ∷ xs) (entry ∷ ys) (
      sym (take-cons_take n entry xs)
      ∙ ap (λ zs. take n (entry ∷ zs)) h
      ∙ take-cons_take n entry ys)

take_again : (n : ℕ) (xs : List Submission) → take n (take n xs) ≡ take n xs
take_again zero xs = refl
take_again (suc n) [] = refl
take_again (suc n) (x ∷ xs) = ap (λ ys. x ∷ ys) (take_again n xs)

-- After any runs, the history is the fifty newest of them and of what it held before, if it did not
-- hold more than fifty to begin with.
add_runs_newest :
    (rs : List (Browser × Run)) (st : Store)
    → take 50 st.state.my_submissions ≡ st.state.my_submissions
    → (add_runs rs st).state.my_submissions ≡ take 50 (newest_first rs st.state.my_submissions)
unfolding add_runs newest_first
add_runs_newest [] st h = sym h
add_runs_newest ((b, run) ∷ rs) st h =
    let entry : Submission = record { run = run; timestamp = b.now } in
    let next = entry ∷ st.state.my_submissions in
    add_runs_newest rs (add_run_history b run st) (take_again 50 next)
    ∙ newest_first-take 50 rs (take 50 next) next (take_again 50 next)
