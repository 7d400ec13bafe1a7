-- ===== src/Lob/Orders/Keep.antt =====
-- `addOrder`: it keeps both sides sound, adds its volume to its own side and leaves the other alone.
use vidhi_trading_platform.Prelude.{
  ℕ, ◌+◌, String, ◌≡◌, refl, inl, inr, [], ◌∷◌, Option, none, some, All-append, arith, ℤ, pos, ◌+ℤ◌,
  ◌≤ℤ◌, int_laws, parts, eq_of_parts, Bool-cases,
}
use vidhi_trading_platform.Lob.Types.{Side, buy, sell, Order, Level, Lob, price_key}
use vidhi_trading_platform.Lob.Book.{get_level, put_level, resting, resting-put_level, volume_of}
use vidhi_trading_platform.Lob.Orders.{
  own_book, add_order, push_order, level_or_empty, above, below,
}
use vidhi_trading_platform.Lob.Market.{opposite}
use vidhi_trading_platform.Lob.Sound.{
  sum_orders-append, IsFair, IsSoundLevel, IsSound, IsSoundLob, get_level-IsSound,
  put_level-IsSound, IsSound-mono, All-IsFair-mono,
}

-- The order that `addOrder` makes, and the level that it stores.
abbrev pub new_order : ℤ → String → Lob → Order
new_order volume who lob = record { id = lob.next_order_id; participant_id = who; volume = volume }

abbrev pub new_level : Side → ℤ → ℤ → String → Lob → Level
new_level side price volume who lob =
    push_order (new_order volume who lob)
      (level_or_empty (get_level (price_key price) (own_book side lob)))

-- What `addOrder` does to the sides of the book and to the counter.
pub add_order-books :
    (side : Side) (price volume : ℤ) (who : String) (lob : Lob)
    → let lob' = (add_order side price volume who lob).1 in
      (own_book side lob'
        ≡ put_level (price_key price) (new_level side price volume who lob) (own_book side lob))
      × (own_book (opposite side) lob' ≡ own_book (opposite side) lob)
      × (lob'.next_order_id ≡ lob.next_order_id + 1)
unfolding add_order
add_order-books buy price volume who lob =
    elim (Bool-cases (above (price_key price) lob.best_bid)) [
      | inl e ↦ rw e (refl, refl, refl)
      | inr e ↦ rw e (refl, refl, refl)
    ]
add_order-books sell price volume who lob =
    elim (Bool-cases (below (price_key price) lob.best_ask)) [
      | inl e ↦ rw e (refl, refl, refl)
      | inr e ↦ rw e (refl, refl, refl)
    ]

pub push_order-IsSoundLevel :
    (n : ℕ) (volume : ℤ) (who : String) (found : Option Level)
    → ((l : Level) → found ≡ some l → IsSoundLevel n l)
    → pos 0 ≤ℤ volume
    → IsSoundLevel (n + 1) (
        push_order
          (record { id = n; participant_id = who; volume = volume })
          (level_or_empty found))
push_order-IsSoundLevel n volume who none h v =
    (eq_of_parts _ _ (omega int_laws), ((v, omega arith), tt))
push_order-IsSoundLevel n volume who (some l) h v =
    let o : Order = record { id = n; participant_id = who; volume = volume } in
    let fair = h l refl in
    (
      eq_of_parts _ _ (omega (int_laws, parts fair.0, parts (sum_orders-append l.orders (o ∷ [])))),
      All-append (IsFair (n + 1)) l.orders (o ∷ [])
          (All-IsFair-mono n (n + 1) l.orders (omega arith) fair.1) ((v, omega arith), tt),
    )

-- Soundness by own and other side.
pub own-IsSound :
    (side : Side) (lob : Lob) → IsSoundLob lob → IsSound lob.next_order_id (own_book side lob)
own-IsSound buy lob s = s.0
own-IsSound sell lob s = s.1

pub sides-IsSoundLob :
    (side : Side) (lob : Lob)
    → IsSound lob.next_order_id (own_book side lob)
    → IsSound lob.next_order_id (own_book (opposite side) lob)
    → IsSoundLob lob
sides-IsSoundLob buy lob a b = (a, b)
sides-IsSoundLob sell lob a b = (b, a)

pub resting-add_order :
    (side : Side) (price volume : ℤ) (who : String) (lob : Lob)
    → resting (own_book side (add_order side price volume who lob).1)
      ≡ resting (own_book side lob) +ℤ volume
resting-add_order side price volume who lob =
    let books = add_order-books side price volume who lob in
    let b = own_book side lob in
    let k = price_key price in
    let new = new_level side price volume who lob in
    rw books.0 (
      eq_of_parts _ _ (
        omega (
          int_laws,
          parts (resting-put_level k new b),
          parts (level_volume (get_level k b) (new_order volume who lob)),
        )))
  where
    level_volume :
        (found : Option Level) (o : Order)
        → (push_order o (level_or_empty found)).volume ≡ volume_of found +ℤ o.volume
    level_volume none o = refl
    level_volume (some l) o = refl

-- Placing an order of a volume that is not negative on a sound book gives out the id of the counter,
-- raises the counter by one, keeps both sides sound, adds exactly the volume to the order's side
-- and leaves the other side as it was.
pub add_order_keeps :
    (side : Side) (price volume : ℤ) (who : String) (lob : Lob)
    → IsSoundLob lob
    → pos 0 ≤ℤ volume
    → let (i, lob') = add_order side price volume who lob in
      (i ≡ lob.next_order_id)
      × (lob'.next_order_id ≡ lob.next_order_id + 1)
      × IsSoundLob lob'
      × (resting (own_book side lob') ≡ resting (own_book side lob) +ℤ volume)
      × (own_book (opposite side) lob' ≡ own_book (opposite side) lob)
unfolding add_order
add_order_keeps side price volume who lob s v =
    let lob' = (add_order side price volume who lob).1 in
    let books = add_order-books side price volume who lob in
    let n = lob.next_order_id in
    let k = price_key price in
    let own = own-IsSound side lob s in
    let fair =
      push_order-IsSoundLevel n volume who (get_level k (own_book side lob))
        (λ l e. get_level-IsSound n k (own_book side lob) {l = l} own e) v in
    (
      refl,
      books.2,
      sides-IsSoundLob side lob'
          (rw (books.0, books.2)
            (put_level-IsSound (n + 1) k _ (own_book side lob)
              (IsSound-mono n (n + 1) (own_book side lob) (omega arith) own) fair))
          (rw (books.1, books.2)
            (IsSound-mono n (n + 1) (own_book (opposite side) lob) (omega arith)
              (own-IsSound (opposite side) lob s))),
      resting-add_order side price volume who lob,
      books.1,
    )
