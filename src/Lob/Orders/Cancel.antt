-- ===== src/Lob/Orders/Cancel.antt =====
-- `cancelOrder`: what it takes away, and that it undoes `addOrder`.
use vidhi_trading_platform.Prelude.{
  true, ℕ, ◌==◌, String, ◌≡◌, refl, inl, inr, List, [], ◌∷◌, ◌++◌, Option, none, some, All, arith,
  ℤ, pos, ◌+ℤ◌, ◌≤ℤ◌, int_laws, parts, eq_of_parts, leb_ℤ, leb_ℤ→le, Bool-cases, ap, ◌∙◌,
  if◌then◌else◌,
}
use vidhi_trading_platform.Lob.Types.{Side, buy, sell, Order, Level, Book, Lob, price_key}
use vidhi_trading_platform.Lob.Book.{
  get_level, put_level, delete_level, resting, resting-put_level, resting-delete_level, volume_of,
}
use vidhi_trading_platform.Lob.Orders.{
  own_book, add_order, cancel_order, store_cancelled, find_order, remove_order, without, is_best,
  rebuild_best, push_order, level_or_empty,
}
use vidhi_trading_platform.Lob.Market.{opposite}
use vidhi_trading_platform.Lob.Sound.{
  sum_orders, IsFair, IsSoundLevel, IsSound, IsSoundLob, get_level-IsSound, put_level-IsSound,
  delete_level-IsSound, sum_orders_nonneg, get_level-put_level_self,
}
use vidhi_trading_platform.Lob.Orders.Keep.{
  own-IsSound, sides-IsSoundLob, add_order_keeps, add_order-books, new_order, new_level,
}

sum_orders-remove_order :
    (i : ℕ) (os : List Order) {o : Order}
    → find_order i os ≡ some o
    → sum_orders (remove_order i os) +ℤ o.volume ≡ sum_orders os
unfolding find_order remove_order
sum_orders-remove_order i [] e = absurd (ground arith)
sum_orders-remove_order i (p ∷ os) {o} e = elim (Bool-cases (p.id == i)) [
  | inl h ↦
      let same : some p ≡ some o = rw h at e in
      let v : p.volume ≡ o.volume = ground arith in
      rw h (eq_of_parts _ _ (omega (int_laws, parts v)))
  | inr h ↦
      rw h (
        eq_of_parts _ _
          (omega (int_laws, parts (sum_orders-remove_order i os {o = o} (rw h at e)))))
]

All-remove_order :
    (n i : ℕ) (os : List Order) → All (IsFair n) os → All (IsFair n) (remove_order i os)
unfolding remove_order
All-remove_order n i [] h = tt
All-remove_order n i (o ∷ os) h = elim (Bool-cases (o.id == i)) [
  | inl e ↦ rw e h.1
  | inr e ↦ rw e (h.0, All-remove_order n i os h.1)
]

without-IsSoundLevel :
    (n i : ℕ) (o : Order) (l : Level)
    → find_order i l.orders ≡ some o
    → IsSoundLevel n l
    → IsSoundLevel n (without i o l)
without-IsSoundLevel n i o l e s = (
  eq_of_parts _ _
      (omega (int_laws, parts s.0, parts (sum_orders-remove_order i l.orders {o = o} e))),
  All-remove_order n i l.orders s.1,
)

-- The side of the book after a level has been stored or dropped.
abbrev kept_book : ℤ → Level → Book → Book
kept_book k l b = if leb_ℤ l.volume (pos 0) then delete_level k b else put_level k l b

store_cancelled-books :
    (side : Side) (k : ℤ) (l : Level) (lob : Lob)
    → let lob' = store_cancelled side k l lob in
      (own_book side lob' ≡ kept_book k l (own_book side lob))
      × (own_book (opposite side) lob' ≡ own_book (opposite side) lob)
      × (lob'.next_order_id ≡ lob.next_order_id)
unfolding store_cancelled rebuild_best
store_cancelled-books buy k l lob = elim (Bool-cases (leb_ℤ l.volume (pos 0))) [
  | inl e ↦ elim (Bool-cases (is_best buy k lob)) [
    | inl b ↦ rw (e, b) (refl, refl, refl)
    | inr b ↦ rw (e, b) (refl, refl, refl)
  ]
  | inr e ↦ rw e (refl, refl, refl)
]
store_cancelled-books sell k l lob = elim (Bool-cases (leb_ℤ l.volume (pos 0))) [
  | inl e ↦ elim (Bool-cases (is_best sell k lob)) [
    | inl b ↦ rw (e, b) (refl, refl, refl)
    | inr b ↦ rw (e, b) (refl, refl, refl)
  ]
  | inr e ↦ rw e (refl, refl, refl)
]

kept_book-IsSound :
    (n : ℕ) (k : ℤ) (l : Level) (b : Book)
    → IsSound n b
    → IsSoundLevel n l
    → IsSound n (kept_book k l b)
kept_book-IsSound n k l b s fair = elim (Bool-cases (leb_ℤ l.volume (pos 0))) [
  | inl e ↦ rw e (delete_level-IsSound n k b s)
  | inr e ↦ rw e (put_level-IsSound n k l b s fair)
]

resting-kept_book :
    (n : ℕ) (k : ℤ) (l old : Level) (b : Book)
    → IsSoundLevel n l
    → get_level k b ≡ some old
    → resting (kept_book k l b) +ℤ old.volume ≡ resting b +ℤ l.volume
resting-kept_book n k l old b fair found =
    let here = ap volume_of found in
    elim (Bool-cases (leb_ℤ l.volume (pos 0))) [
      | inl e ↦ rw e (
          eq_of_parts _ _ (
            omega (
              int_laws,
              parts here,
              parts (resting-delete_level k b),
              leb_ℤ→le l.volume (pos 0) e,
              parts fair.0,
              sum_orders_nonneg n l.orders fair.1,
            )))
      | inr e ↦
          rw e (eq_of_parts _ _ (omega (int_laws, parts here, parts (resting-put_level k l b))))
    ]

-- What a successful cancellation of the order `o` leaves.
pub record IsCancelled (side : Side) (o : Order) (lob lob' : Lob) : Type 0 where
  pub sound : IsSoundLob lob'
  pub moved : resting (own_book side lob') +ℤ o.volume ≡ resting (own_book side lob)
  pub other : own_book (opposite side) lob' ≡ own_book (opposite side) lob
  pub ids : lob'.next_order_id ≡ lob.next_order_id

-- On a sound book, if the price has a level and the level an order of that id, `cancelOrder` says
-- true, takes exactly that order's volume from its side, keeps both sides sound and leaves the other
-- side and the id counter as they were.
pub cancel_order_found :
    (side : Side) (price : ℤ) (i : ℕ) (lob : Lob) {l : Level} {o : Order}
    → IsSoundLob lob
    → get_level (price_key price) (own_book side lob) ≡ some l
    → find_order i l.orders ≡ some o
    → ((cancel_order side price i lob).0 ≡ true)
      × IsCancelled side o lob (cancel_order side price i lob).1
unfolding cancel_order
cancel_order_found side price i lob {l} {o} s e f =
    let k = price_key price in
    let n = lob.next_order_id in
    let b = own_book side lob in
    let own = own-IsSound side lob s in
    let fair = without-IsSoundLevel n i o l f (get_level-IsSound n k b {l = l} own e) in
    let rest = without i o l in
    let books = store_cancelled-books side k rest lob in
    rw (e, cancel_order)
      (rw (f, cancel_order)
        (
          refl,
          record {
            sound =
                sides-IsSoundLob side (store_cancelled side k rest lob)
                  (rw (books.0, books.2) (kept_book-IsSound n k rest b own fair))
                  (rw (books.1, books.2) (own-IsSound (opposite side) lob s));
            moved =
                rw books.0 (
                  eq_of_parts _ _
                    (omega (int_laws, parts (resting-kept_book n k rest l b fair e))));
            other = books.1;
            ids = books.2;
          },
        ))

find_order-append :
    (n : ℕ) (os : List Order) (o : Order)
    → All (IsFair n) os
    → o.id ≡ n
    → find_order n (os ++ (o ∷ [])) ≡ some o
unfolding find_order
find_order-append n [] o h e = ground arith
find_order-append n (p ∷ os) o h e = ground (arith, find_order-append n os o h.1 e)

last_found :
    (n : ℕ) (o : Order) (found : Option Level)
    → ((l : Level) → found ≡ some l → All (IsFair n) l.orders)
    → o.id ≡ n
    → find_order n (push_order o (level_or_empty found)).orders ≡ some o
last_found n o none h e = find_order-append n [] o tt e
last_found n o (some l) h e = find_order-append n l.orders o (h l refl) e

-- An order that was just placed can be cancelled by its price and id: on a sound book `cancelOrder`
-- then says true, both sides are sound, and the volume that rests on each side is what it was
-- before the order was placed.
pub cancel_order-add_order :
    (side : Side) (price volume : ℤ) (who : String) (lob : Lob)
    → IsSoundLob lob
    → pos 0 ≤ℤ volume
    → let (i, placed) = add_order side price volume who lob in
      let (done, lob') = cancel_order side price i placed in
      (done ≡ true)
      × IsSoundLob lob'
      × (resting (own_book side lob') ≡ resting (own_book side lob))
      × (own_book (opposite side) lob' ≡ own_book (opposite side) lob)
unfolding add_order
cancel_order-add_order side price volume who lob s v =
    let k = price_key price in
    let n = lob.next_order_id in
    let b = own_book side lob in
    let placed = (add_order side price volume who lob).1 in
    let kept = add_order_keeps side price volume who lob s v in
    let books = add_order-books side price volume who lob in
    let l = new_level side price volume who lob in
    let o = new_order volume who lob in
    let there : get_level k (own_book side placed) ≡ some l =
      rw books.0 (get_level-put_level_self k l b) in
    let mine : find_order n l.orders ≡ some o =
      last_found n o (get_level k b)
        (λ l e. (get_level-IsSound n k b {l = l} (own-IsSound side lob s) e).1) refl in
    let c = cancel_order_found side price n placed {l = l} {o = o} kept.2 there mine in
    (
      c.0,
      c.1.sound,
      eq_of_parts _ _ (omega (int_laws, parts c.1.moved, parts kept.3)),
      c.1.other ∙ kept.4,
    )
