-- ===== src/Lob/Sound.antt =====
-- The invariant of one side of the book: every level counts exactly the volume of its orders, no
-- order has a negative volume, every order's id has been given out, and no price has two levels.
use vidhi_trading_platform.Prelude.{
  ℕ, ◌+◌, ◌<◌, ◌≡◌, refl, List, [], ◌∷◌, ◌++◌, none, some, arith, All, ℤ, pos, ◌+ℤ◌, ◌≤ℤ◌, int_laws,
  eqb_ℤ, eqb_ℤ→eq, Bool-cases, inl, inr, ◌≢◌, ◌∙◌,
}
use vidhi_trading_platform.Lob.Types.{Order, Level, Book, Lob}
use vidhi_trading_platform.Lob.Book.{get_level, put_level, delete_level}

abbrev pub sum_orders : List Order → ℤ
sum_orders [] = pos 0
sum_orders (o ∷ os) = o.volume +ℤ sum_orders os

abbrev pub IsFair : ℕ → Order → Type 0
IsFair next o = (pos 0 ≤ℤ o.volume) × (o.id < next)

abbrev pub IsSoundLevel : ℕ → Level → Type 0
IsSoundLevel next l = (l.volume ≡ sum_orders l.orders) × All (IsFair next) l.orders

abbrev pub IsSound : ℕ → Book → Type 0
IsSound next [] = Unit
IsSound next ((p, l) ∷ b) = IsSoundLevel next l × (get_level p b ≡ none) × IsSound next b

-- Both sides of a book, with the ids below its counter.
abbrev pub IsSoundLob : Lob → Type 0
IsSoundLob lob = IsSound lob.next_order_id lob.bids × IsSound lob.next_order_id lob.asks

pub sum_orders_nonneg : (next : ℕ) (os : List Order) → All (IsFair next) os → pos 0 ≤ℤ sum_orders os
sum_orders_nonneg next [] h = omega arith
sum_orders_nonneg next (o ∷ os) h = omega (int_laws, sum_orders_nonneg next os h.1)

pub sum_orders-append :
    (os rest : List Order) → sum_orders (os ++ rest) ≡ sum_orders os +ℤ sum_orders rest
sum_orders-append [] rest = omega int_laws
sum_orders-append (o ∷ os) rest = grind (int_laws, sum_orders-append os rest)

pub get_level-put_level :
    (k j : ℤ) (l : Level) (b : Book) → j ≢ k → get_level j (put_level k l b) ≡ get_level j b
unfolding get_level put_level
get_level-put_level k j l [] h = grind (arith, eqb_ℤ→eq k j)
get_level-put_level k j l ((p, m) ∷ b) h =
    ground (arith, eqb_ℤ→eq p k, eqb_ℤ→eq p j, get_level-put_level k j l b h)

pub get_level-put_level_self :
    (k : ℤ) (l : Level) (b : Book) → get_level k (put_level k l b) ≡ some l
unfolding get_level put_level
get_level-put_level_self k l [] = ground arith
get_level-put_level_self k l ((p, m) ∷ b) = ground (arith, get_level-put_level_self k l b)

pub get_level-delete_level :
    (k j : ℤ) (b : Book) → j ≢ k → get_level j (delete_level k b) ≡ get_level j b
unfolding get_level delete_level
get_level-delete_level k j [] h = refl
get_level-delete_level k j ((p, m) ∷ b) h =
    ground (arith, eqb_ℤ→eq p k, eqb_ℤ→eq p j, get_level-delete_level k j b h)

pub get_level-delete_level_self :
    (next : ℕ) (k : ℤ) (b : Book) → IsSound next b → get_level k (delete_level k b) ≡ none
unfolding get_level delete_level
get_level-delete_level_self next k [] s = refl
get_level-delete_level_self next k ((p, m) ∷ b) s =
    ground (arith, eqb_ℤ→eq p k, get_level-delete_level_self next k b s.2)

pub get_level-IsSound :
    (next : ℕ) (k : ℤ) (b : Book) {l : Level}
    → IsSound next b
    → get_level k b ≡ some l
    → IsSoundLevel next l
unfolding get_level
get_level-IsSound next k [] s e = ground arith
get_level-IsSound next k ((p, m) ∷ b) {l} s e =
    ground (arith, get_level-IsSound next k b {l = l} s.2)

pub put_level-IsSound :
    (next : ℕ) (k : ℤ) (l : Level) (b : Book)
    → IsSound next b
    → IsSoundLevel next l
    → IsSound next (put_level k l b)
unfolding put_level get_level
put_level-IsSound next k l [] s h = (h, refl, tt)
put_level-IsSound next k l ((p, m) ∷ b) s h = elim (Bool-cases (eqb_ℤ p k)) [
  | inl e ↦ rw e (h, s.1, s.2)
  | inr e ↦ rw e (
    s.0,
    get_level-put_level k p l b (λ q. ground arith) ∙ s.1,
    put_level-IsSound next k l b s.2 h,
  )
]

pub delete_level-IsSound :
    (next : ℕ) (k : ℤ) (b : Book) → IsSound next b → IsSound next (delete_level k b)
unfolding delete_level get_level
delete_level-IsSound next k [] s = tt
delete_level-IsSound next k ((p, m) ∷ b) s = elim (Bool-cases (eqb_ℤ p k)) [
  | inl e ↦ rw e s.2
  | inr e ↦ rw e (
    s.0,
    get_level-delete_level k p b (λ q. ground arith) ∙ s.1,
    delete_level-IsSound next k b s.2,
  )
]

-- A larger counter keeps what was sound.
pub All-IsFair-mono :
    (n m : ℕ) (os : List Order) → n < m + 1 → All (IsFair n) os → All (IsFair m) os
All-IsFair-mono n m [] h s = tt
All-IsFair-mono n m (o ∷ os) h s = ((s.0.0, omega arith), All-IsFair-mono n m os h s.1)

pub IsSound-mono : (n m : ℕ) (b : Book) → n < m + 1 → IsSound n b → IsSound m b
IsSound-mono n m [] h s = tt
IsSound-mono n m ((p, l) ∷ b) h s =
    ((s.0.0, All-IsFair-mono n m l.orders h s.0.1), s.1, IsSound-mono n m b h s.2)
