-- ===== src/Store/Found.antt =====
-- What `find` gives after a change of the first element that a test finds.
use vidhi_trading_platform.Prelude.{
  Bool, true, false, List, [], ◌∷◌, none, some, find, filter_by, not, if◌then◌else◌, ◌≡◌, refl, map,
  Bool-cases, inl, inr, arith, ap,
}
use vidhi_trading_platform.Store.Contests.{update_first}

module _ {ℓ} {A : Type ℓ} (p : A → Bool) where
  pub find-holds : (xs : List A) (x : A) → find p xs ≡ some x → p x ≡ true
  find-holds [] x h = absurd (ground arith)
  find-holds (y ∷ ys) x h = elim (Bool-cases (p y)) [
    | inl e ↦ let w : some y ≡ some x = rw e at h in ground arith
    | inr e ↦ let w : find p ys ≡ some x = rw e at h in find-holds ys x w
  ]

  pub find-update_first :
      (f : A → A) (xs : List A) (x : A)
      → find p xs ≡ some x
      → p (f x) ≡ true
      → find p (update_first p f xs) ≡ some (f x)
  find-update_first f [] x h kept = absurd (ground arith)
  find-update_first f (y ∷ ys) x h kept = elim (Bool-cases (p y)) [
    | inl e ↦
        let w : some y ≡ some x = rw e at h in
        let same : y ≡ x = ground arith in rw (e, same, kept) refl
    | inr e ↦ let w : find p ys ≡ some x = rw e at h in rw (e, e) (find-update_first f ys x w kept)
  ]

  pub find-update_first_other :
      (q : A → Bool) (f : A → A) (xs : List A)
      → ((y : A) → p y ≡ true → q y ≡ false)
      → ((y : A) → p y ≡ true → q (f y) ≡ false)
      → find q (update_first p f xs) ≡ find q xs
  find-update_first_other q f [] before after = refl
  find-update_first_other q f (y ∷ ys) before after = elim (Bool-cases (p y)) [
    | inl e ↦ rw (e, before y e, after y e) refl
    | inr e ↦
        rw e (ap (λ o. if q y then some y else o) (find-update_first_other q f ys before after))
  ]

  pub find-filter_by : (xs : List A) → find p (filter_by (λ x. not (p x)) xs) ≡ none
  find-filter_by [] = refl
  find-filter_by (y ∷ ys) = elim (Bool-cases (p y)) [
    | inl e ↦ rw e (find-filter_by ys)
    | inr e ↦ rw (e, e) (find-filter_by ys)
  ]

  pub find-filter_by_other :
      (q : A → Bool) (xs : List A)
      → ((y : A) → p y ≡ true → q y ≡ false)
      → find q (filter_by (λ x. not (p x)) xs) ≡ find q xs
  find-filter_by_other q [] apart = refl
  find-filter_by_other q (y ∷ ys) apart = elim (Bool-cases (p y)) [
    | inl e ↦ rw (e, apart y e) (find-filter_by_other q ys apart)
    | inr e ↦ rw e (ap (λ o. if q y then some y else o) (find-filter_by_other q ys apart))
  ]

  pub find-map :
      (f : A → A) (xs : List A) (x : A)
      → ((y : A) → p (f y) ≡ p y)
      → find p xs ≡ some x
      → find p (map f xs) ≡ some (f x)
  find-map f [] x same h = absurd (ground arith)
  find-map f (y ∷ ys) x same h = elim (Bool-cases (p y)) [
    | inl e ↦
        let w : some y ≡ some x = rw e at h in
        let alike : y ≡ x = ground arith in rw (same y, e, alike) refl
    | inr e ↦ let w : find p ys ≡ some x = rw e at h in rw (same y, e) (find-map f ys x same w)
  ]
