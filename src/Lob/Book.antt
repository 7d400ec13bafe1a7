-- ===== src/Lob/Book.antt =====
-- One side of the book as a JS `Map`: `get`, `set`, `delete`, the sorted keys, and the laws of these.
use vidhi_trading_platform.Prelude.{
  ◌≡◌, Bool, List, [], ◌∷◌, Option, none, some, ℤ, pos, ◌+ℤ◌, ltb_ℤ, eqb_ℤ, int_laws, if◌then◌else◌,
}
use vidhi_trading_platform.Lob.Types.{Level, Book}

-- `book.get(key)`
unfoldable pub get_level : ℤ → Book → Option Level
get_level k [] = none
get_level k ((p, l) ∷ b) = if eqb_ℤ p k then some l else get_level k b

-- `book.set(key, level)`: in place, or as the last entry.
unfoldable pub put_level : ℤ → Level → Book → Book
put_level k l [] = (k, l) ∷ []
put_level k l ((p, m) ∷ b) = if eqb_ℤ p k then (p, l) ∷ b else (p, m) ∷ put_level k l b

-- `book.delete(key)`
unfoldable pub delete_level : ℤ → Book → Book
delete_level k [] = []
delete_level k ((p, m) ∷ b) = if eqb_ℤ p k then b else (p, m) ∷ delete_level k b

-- `[...book.keys()]`
unfoldable pub keys : Book → List ℤ
keys [] = []
keys ((p, l) ∷ b) = p ∷ keys b

-- `Math.max(...book.keys())` and `Math.min(...book.keys())`, with `none` for no key.
unfoldable pub max_key : Book → Option ℤ
max_key [] = none
max_key ((p, l) ∷ b) = elim (max_key b) [
  | none ↦ some p
  | some q ↦ if ltb_ℤ q p then some p else some q
]

unfoldable pub min_key : Book → Option ℤ
min_key [] = none
min_key ((p, l) ∷ b) = elim (min_key b) [
  | none ↦ some p
  | some q ↦ if ltb_ℤ p q then some p else some q
]

-- `prices.sort(...)` by a comparison that puts `a` before `b` when `before a b`.
unfoldable pub insert_by : (ℤ → ℤ → Bool) → ℤ → List ℤ → List ℤ
insert_by before p [] = p ∷ []
insert_by before p (q ∷ qs) = if before q p then q ∷ insert_by before p qs else p ∷ q ∷ qs

unfoldable pub sort_by : (ℤ → ℤ → Bool) → List ℤ → List ℤ
unfolding insert_by
sort_by before [] = []
sort_by before (p ∷ ps) = insert_by before p (sort_by before ps)

-- The volume that rests on one side.
unfoldable pub resting : Book → ℤ
resting [] = pos 0
resting ((p, l) ∷ b) = l.volume +ℤ resting b

-- The volume that a level counts at a price, 0 where there is none.
abbrev pub volume_of : Option Level → ℤ
volume_of none = pos 0
volume_of (some l) = l.volume

pub resting-put_level :
    (k : ℤ) (l : Level) (b : Book)
    → resting (put_level k l b) +ℤ volume_of (get_level k b) ≡ resting b +ℤ l.volume
unfolding resting put_level get_level
resting-put_level k l [] = omega int_laws
resting-put_level k l ((p, m) ∷ b) = grind (int_laws, resting-put_level k l b)

pub resting-delete_level :
    (k : ℤ) (b : Book) → resting (delete_level k b) +ℤ volume_of (get_level k b) ≡ resting b
unfolding resting delete_level get_level
resting-delete_level k [] = omega int_laws
resting-delete_level k ((p, m) ∷ b) = grind (int_laws, resting-delete_level k b)
