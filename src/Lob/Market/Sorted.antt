-- ===== src/Lob/Market/Sorted.antt =====
-- The prices that `marketOrder` walks through: sorted, best first, and every key of the book.
use vidhi_trading_platform.Prelude.{
  true, false, ◌≡◌, refl, ◌⊎◌, inl, inr, List, [], ◌∷◌, none, arith, All, ℤ, ◌≤ℤ◌, eqb_ℤ, eqb_ℤ→eq,
  Bool-cases,
}
use vidhi_trading_platform.Lob.Types.{Side, buy, sell, Book}
use vidhi_trading_platform.Lob.Book.{get_level, keys, insert_by, sort_by}
use vidhi_trading_platform.Lob.Market.{better}

-- The first price is no better for the side than the second: no lower for a buyer, no higher for a
-- seller.
abbrev pub NoBetter : Side → ℤ → ℤ → Type 0
NoBetter buy q p = p ≤ℤ q
NoBetter sell q p = q ≤ℤ p

not_better : (side : Side) (q p : ℤ) → better side q p ≡ false → NoBetter side q p
not_better buy q p h = ground arith
not_better sell q p h = ground arith

-- No later price is better than an earlier one.
abbrev pub IsBestFirst : Side → List ℤ → Type 0
IsBestFirst side [] = Unit
IsBestFirst side (p ∷ ps) = All (λ q. NoBetter side q p) ps × IsBestFirst side ps

All-worse :
    (side : Side) (p q : ℤ) (ps : List ℤ)
    → NoBetter side q p
    → All (λ x. NoBetter side x q) ps
    → All (λ x. NoBetter side x p) ps
All-worse side p q [] h a = tt
All-worse buy p q (x ∷ ps) h a = (ground arith, All-worse buy p q ps h a.1)
All-worse sell p q (x ∷ ps) h a = (ground arith, All-worse sell p q ps h a.1)

better_asym : (side : Side) (p q : ℤ) → better side q p ≡ true → NoBetter side p q
better_asym buy p q h = ground arith
better_asym sell p q h = ground arith

All-insert_by :
    (side : Side) (p r : ℤ) (ps : List ℤ)
    → NoBetter side p r
    → All (λ x. NoBetter side x r) ps
    → All (λ x. NoBetter side x r) (insert_by (better side) p ps)
unfolding insert_by
All-insert_by side p r [] h a = (h, tt)
All-insert_by side p r (q ∷ qs) h a = elim (Bool-cases (better side q p)) [
  | inl e ↦ rw e (a.0, All-insert_by side p r qs h a.1)
  | inr e ↦ rw e (h, a)
]

insert_by-IsBestFirst :
    (side : Side) (p : ℤ) (ps : List ℤ)
    → IsBestFirst side ps
    → IsBestFirst side (insert_by (better side) p ps)
unfolding insert_by
insert_by-IsBestFirst side p [] h = (tt, tt)
insert_by-IsBestFirst side p (q ∷ qs) h = elim (Bool-cases (better side q p)) [
  | inl e ↦
      rw e (
        All-insert_by side p q qs (better_asym side p q e) h.0,
        insert_by-IsBestFirst side p qs h.1,
      )
  | inr e ↦ let w = not_better side q p e in rw e ((w, All-worse side p q qs w h.0), h)
]

pub sort_by-IsBestFirst : (side : Side) (ps : List ℤ) → IsBestFirst side (sort_by (better side) ps)
unfolding sort_by
sort_by-IsBestFirst side [] = tt
sort_by-IsBestFirst side (p ∷ ps) =
    insert_by-IsBestFirst side p (sort_by (better side) ps) (sort_by-IsBestFirst side ps)

abbrev pub Among : ℤ → List ℤ → Type 0
Among j [] = ⊥
Among j (p ∷ ps) = (j ≡ p) ⊎ Among j ps

Among-insert_by :
    (side : Side) (j p : ℤ) (ps : List ℤ)
    → Among j (p ∷ ps)
    → Among j (insert_by (better side) p ps)
unfolding insert_by
Among-insert_by side j p [] h = h
Among-insert_by side j p (q ∷ qs) h = elim (Bool-cases (better side q p)) [
  | inr e ↦ rw e h
  | inl e ↦ rw e (elim h [
    | inl here ↦ inr (Among-insert_by side j p qs (inl here))
    | inr (inl next) ↦ inl next
    | inr (inr later) ↦ inr (Among-insert_by side j p qs (inr later))
  ])
]

pub Among-sort_by :
    (side : Side) (j : ℤ) (ps : List ℤ) → Among j ps → Among j (sort_by (better side) ps)
unfolding sort_by
Among-sort_by side j [] h = h
Among-sort_by side j (p ∷ ps) (inl here) =
    Among-insert_by side j p (sort_by (better side) ps) (inl here)
Among-sort_by side j (p ∷ ps) (inr later) =
    Among-insert_by side j p (sort_by (better side) ps) (inr (Among-sort_by side j ps later))

-- A price has no level, or is one of the keys.
pub get_level_cases : (j : ℤ) (b : Book) → (get_level j b ≡ none) ⊎ Among j (keys b)
unfolding get_level keys
get_level_cases j [] = inl refl
get_level_cases j ((p, l) ∷ b) = elim (Bool-cases (eqb_ℤ p j)) [
  | inl e ↦ inr (inl (ground (arith, eqb_ℤ→eq p j e)))
  | inr e ↦ elim (get_level_cases j b) [
    | inl missing ↦ inl (rw e missing)
    | inr later ↦ inr (inr later)
  ]
]
