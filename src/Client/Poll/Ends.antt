-- ===== src/Client/Poll/Ends.antt =====
-- Polling ends, with a run that ended if the server reports one in time, and else by the time-out.
use native.Mathlib.Nat.{le_refl, le_trans, zero-add, add-zero, add-suc, suc-add, mul-suc}
use vidhi_trading_platform.Prelude.{
  ℕ, zero, suc, ◌+◌, ◌*◌, ◌≤◌, ◌<◌, true, false, List, [], ◌∷◌, some, ltb, ◌≡◌, refl, ◌⊎◌, inl, inr,
  Bool-cases, arith, lt→ltb, ltb→lt, ◌∙◌, ap, String,
}
use vidhi_trading_platform.Client.Http.{Result, value, thrown, read}
use vidhi_trading_platform.Client.Poll.{
  RunInfo, PollEnv, Polled, finished, timed_out, is_returned, reported, poll_from,
  poll_run_until_done, max_wait, is_terminal,
}

-- What a poll has reported and how it ended: either all runs are ones to go on after, and the time was
-- up, or the last run, and no other, is one to return, and it was returned.
abbrev pub IsEnd : PollEnv → List RunInfo → Polled → Type 0
IsEnd env [] timed_out = Unit
IsEnd env [] (finished run) = ⊥
IsEnd env (run ∷ runs) end =
    ((is_returned env run ≡ false) × IsEnd env runs end)
    ⊎ ((is_returned env run ≡ true) × (runs ≡ []) × (end ≡ finished run))

module _ (env : PollEnv) (fuel i : ℕ) where
  poll_from_late :
      ltb (env.elapsed i) max_wait ≡ false → poll_from (suc fuel) env i ≡ some ([], timed_out)
  unfolding poll_from
  poll_from_late late = rw (late, poll_from) refl

  poll_from_failed :
      (message : _)
      → ltb (env.elapsed i) max_wait ≡ true
      → read env.show (env.answer i) ≡ thrown message
      → poll_from (suc fuel) env i ≡ poll_from fuel env (suc i)
  unfolding poll_from
  poll_from_failed message early e = rw (early, poll_from) (rw (e, poll_from) refl)

  poll_from_returned :
      (run : RunInfo)
      → ltb (env.elapsed i) max_wait ≡ true
      → read env.show (env.answer i) ≡ value run
      → is_returned env run ≡ true
      → poll_from (suc fuel) env i ≡ some (run ∷ [], finished run)
  unfolding poll_from
  poll_from_returned run early e done =
      rw (early, poll_from) (rw (e, poll_from) (rw (done, poll_from) refl))

  poll_from-reported :
      (run : RunInfo)
      → ltb (env.elapsed i) max_wait ≡ true
      → read env.show (env.answer i) ≡ value run
      → is_returned env run ≡ false
      → poll_from (suc fuel) env i ≡ reported run (poll_from fuel env (suc i))
  unfolding poll_from
  poll_from-reported run early e more =
      rw (early, poll_from) (rw (e, poll_from) (rw (more, poll_from) refl))

Result-cases {ℓ} :
    {A : Type ℓ} (r : Result A) → ((a : A) × (r ≡ value a)) ⊎ ((m : _) × (r ≡ thrown m))
Result-cases (value a) = inl (a, refl)
Result-cases (thrown m) = inr (m, refl)

-- The runs that are reported from round `i`, at some fuel, before the end.
abbrev pub EndsWith : PollEnv → ℕ → ℕ → Polled → Type 0
EndsWith env fuel i end =
    (runs : List RunInfo) × (poll_from fuel env i ≡ some (runs, end)) × IsEnd env runs end

-- The end from the next round, seen from a round whose request failed, or whose run is not returned.
after_failed :
    (env : PollEnv) (fuel i : ℕ) (message : String) (end : Polled)
    → ltb (env.elapsed i) max_wait ≡ true
    → read env.show (env.answer i) ≡ thrown message
    → EndsWith env fuel (suc i) end
    → EndsWith env (suc fuel) i end
after_failed env fuel i message end early e (runs, eq, is_end) =
    (runs, poll_from_failed env fuel i message early e ∙ eq, is_end)

after_reported :
    (env : PollEnv) (fuel i : ℕ) (run : RunInfo) (end : Polled)
    → ltb (env.elapsed i) max_wait ≡ true
    → read env.show (env.answer i) ≡ value run
    → is_returned env run ≡ false
    → EndsWith env fuel (suc i) end
    → EndsWith env (suc fuel) i end
after_reported env fuel i run end early e more (runs, eq, is_end) = (
  run ∷ runs,
  poll_from-reported env fuel i run early e more ∙ ap (reported run) eq,
  inl (more, is_end),
)

returned_now :
    (env : PollEnv) (fuel i : ℕ) (run : RunInfo)
    → ltb (env.elapsed i) max_wait ≡ true
    → read env.show (env.answer i) ≡ value run
    → is_returned env run ≡ true
    → EndsWith env (suc fuel) i (finished run)
returned_now env fuel i run early e done =
    (run ∷ [], poll_from_returned env fuel i run early e done, inr (done, refl, refl))

-- A round that is in time ends as the next one does, or returns a run.
in_time :
    (env : PollEnv) (fuel i : ℕ) (end : Polled)
    → ltb (env.elapsed i) max_wait ≡ true
    → EndsWith env fuel (suc i) end
    → EndsWith env (suc fuel) i end ⊎ ((run : RunInfo) × EndsWith env (suc fuel) i (finished run))
in_time env fuel i end early rest = elim (Result-cases (read env.show (env.answer i))) [
  | inr (message, e) ↦ inl (after_failed env fuel i message end early e rest)
  | inl (run, e) ↦ elim (Bool-cases (is_returned env run)) [
    | inl done ↦ inr (run, returned_now env fuel i run early e done)
    | inr more ↦ inl (after_reported env fuel i run end early e more rest)
  ]
]

poll_from-ends :
    (env : PollEnv) (interval : ℕ)
    → ((i : ℕ) → env.elapsed i + interval ≤ env.elapsed (suc i))
    → (fuel i : ℕ) → max_wait ≤ env.elapsed i + interval * fuel
    → (end : Polled) × EndsWith env (suc fuel) i end
poll_from-ends env interval steady zero i h = elim (Bool-cases (ltb (env.elapsed i) max_wait)) [
  | inr late ↦ (timed_out, ([], poll_from_late env 0 i late, tt))
  | inl early ↦ absurd (omega (arith, ltb→lt _ _ early))
]
poll_from-ends env interval steady (suc n) i h = elim (Bool-cases (ltb (env.elapsed i) max_wait)) [
  | inr late ↦ (timed_out, ([], poll_from_late env (suc n) i late, tt))
  | inl early ↦
      let enough : max_wait ≤ env.elapsed (suc i) + interval * n =
        omega (arith, steady i, mul-suc interval n) in
      let (end, rest) = poll_from-ends env interval steady n (suc i) enough in
      elim (in_time env (suc n) i end early rest) [
        | inl same ↦ (end, same)
        | inr (run, now) ↦ (finished run, now)
      ]
]

-- With a server that waits at least the interval between rounds, the poll ends within one round more
-- than the intervals that ten minutes hold: with the last run that it reported, if that is one to
-- return and no run before it was, and with the time-out if no run was one to return.
pub poll_ends :
    (env : PollEnv) (interval rounds : ℕ)
    → ((i : ℕ) → env.elapsed i + interval ≤ env.elapsed (suc i))
    → max_wait ≤ interval * rounds
    → (end : Polled) × (runs : List RunInfo) × (poll_run_until_done (suc rounds) env
        ≡ some (runs, end))
      × IsEnd env runs end
unfolding poll_run_until_done
poll_ends env interval rounds steady h =
    let (end, (runs, eq, is_end)) =
      poll_from-ends env interval steady rounds 0 (omega (arith, h)) in
    (end, runs, eq, is_end)

elapsed_mono :
    (env : PollEnv)
    → ((i : ℕ) → env.elapsed i ≤ env.elapsed (suc i))
    → (k i : ℕ) → env.elapsed i ≤ env.elapsed (i + k)
elapsed_mono env later zero i = rw add-zero (le_refl _)
elapsed_mono env later (suc k) i =
    rw add-suc (le_trans (elapsed_mono env later k i) (later (i + k)))

finishes_from :
    (env : PollEnv) (run : RunInfo)
    → ((i : ℕ) → env.elapsed i ≤ env.elapsed (suc i))
    → is_returned env run ≡ true
    → (k i : ℕ) → env.elapsed (i + k) < max_wait
    → read env.show (env.answer (i + k)) ≡ value run
    → (last : RunInfo) × EndsWith env (suc k) i (finished last)
finishes_from env run later done zero i h e =
    let early : ltb (env.elapsed i) max_wait ≡ true = lt→ltb _ _ (rw add-zero at h) in
    (run, returned_now env 0 i run early (rw add-zero at e) done)
finishes_from env run later done (suc k) i h e =
    let early : ltb (env.elapsed i) max_wait ≡ true =
      lt→ltb _ _ (omega (arith, elapsed_mono env later (suc k) i)) in
    let (last, rest) =
      finishes_from env run later done k (suc i) (rw (add-suc, ← suc-add) at h)
        (rw (add-suc, ← suc-add) at e) in
    elim (in_time env (suc k) i (finished last) early rest) [
      | inl same ↦ (last, same)
      | inr now ↦ now
    ]

-- If the server reports, in a round that begins in time, a run that is complete, failed or timed out, and
-- the callback does not throw on it, then the poll ends by returning a run, in that round or before.
pub poll_finishes :
    (env : PollEnv) (n : ℕ) (run : RunInfo)
    → ((i : ℕ) → env.elapsed i ≤ env.elapsed (suc i))
    → is_terminal run.status ≡ true
    → env.throws run ≡ false
    → env.elapsed n < max_wait
    → read env.show (env.answer n) ≡ value run
    → (last : RunInfo) × (runs : List RunInfo) × (poll_run_until_done (suc n) env
        ≡ some (runs, finished last))
      × IsEnd env runs (finished last)
unfolding poll_run_until_done is_returned
poll_finishes env n run later terminal quiet h e =
    let done : is_returned env run ≡ true = rw (terminal, quiet) refl in
    let (last, (runs, eq, is_end)) =
      finishes_from env run later done n 0 (rw zero-add h) (rw zero-add e) in
    (last, runs, eq, is_end)
