-- ===== src/Lob/Market/Step.antt =====
-- One price of the outer loop of `marketOrder`, as a change of the other side of the book.
use vidhi_trading_platform.Prelude.{
  true, ℕ, String, ◌≡◌, refl, ◌≢◌, inl, inr, List, [], ◌∷◌, none, some, ℤ, pos, ◌+ℤ◌, ◌≤ℤ◌, leb_ℤ,
  leb_ℤ→le, int_laws, parts, eq_of_parts, Bool-cases, if◌then◌else◌, ap,
}
use vidhi_trading_platform.Lob.Types.{Side, buy, sell, Level, Book, Fill, Lob}
use vidhi_trading_platform.Lob.Book.{
  get_level, put_level, delete_level, resting, resting-put_level, resting-delete_level, volume_of,
}
use vidhi_trading_platform.Lob.Orders.{own_book}
use vidhi_trading_platform.Lob.Market.{
  Matched, match_orders, match_level, opposite, record_trade, record_trades,
}
use vidhi_trading_platform.Lob.Market.Matching.{
  sum_fills, Conserves, match_orders-Conserves, match_orders-IsFair, match_orders_used_up,
}
use vidhi_trading_platform.Lob.Sound.{
  sum_orders, IsSoundLevel, IsSound, sum_orders_nonneg, put_level-IsSound, delete_level-IsSound,
  get_level-put_level, get_level-delete_level, get_level-delete_level_self,
}

-- The book after the orders at `p` have been matched.
abbrev pub next_book : ℤ → Matched → Book → Book
next_book p m b =
    if leb_ℤ m.level_volume (pos 0)
    then delete_level p b
    else put_level p (record { volume = m.level_volume; orders = m.orders }) b

pub record_trades-own_book :
    (s : Side) (fs : List Fill) (lob : Lob)
    → (own_book s (record_trades fs lob) ≡ own_book s lob)
      × ((record_trades fs lob).next_order_id ≡ lob.next_order_id)
unfolding record_trades
record_trades-own_book s [] lob = (refl, refl)
record_trades-own_book buy (f ∷ fs) lob = record_trades-own_book buy fs (record_trade lob f)
record_trades-own_book sell (f ∷ fs) lob = record_trades-own_book sell fs (record_trade lob f)

-- The other side is changed as `next_book` says; the own side and the id counter are left alone.
pub match_level-next_book :
    (side : Side) (who : String) (p : ℤ) (l : Level) (r : ℤ) (lob : Lob)
    → let m = match_orders side who p l.orders l.volume r in
      let lob' = (match_level side who p l r lob).1 in
      (own_book (opposite side) lob' ≡ next_book p m (own_book (opposite side) lob))
      × (own_book side lob' ≡ own_book side lob)
      × (lob'.next_order_id ≡ lob.next_order_id)
unfolding match_level
match_level-next_book buy who p l r lob =
    let m = match_orders buy who p l.orders l.volume r in
    let a = record_trades-own_book sell m.fills lob in
    let b = record_trades-own_book buy m.fills lob in
    elim (Bool-cases (leb_ℤ m.level_volume (pos 0))) [
      | inl e ↦ rw e (ap (delete_level p) a.0, b.0, b.1)
      | inr e ↦ rw e (ap (put_level p _) a.0, b.0, b.1)
    ]
match_level-next_book sell who p l r lob =
    let m = match_orders sell who p l.orders l.volume r in
    let a = record_trades-own_book buy m.fills lob in
    let b = record_trades-own_book sell m.fills lob in
    elim (Bool-cases (leb_ℤ m.level_volume (pos 0))) [
      | inl e ↦ rw e (ap (delete_level p) a.0, b.0, b.1)
      | inr e ↦ rw e (ap (put_level p _) a.0, b.0, b.1)
    ]

module _ (next : ℕ) (side : Side) (who : String) (p : ℤ) (l : Level) (r : ℤ) (b : Book)
    (sound : IsSound next b) (found : get_level p b ≡ some l) (fair : IsSoundLevel next l) where
  abbrev m : Matched
  m = match_orders side who p l.orders l.volume r

  m-Conserves : Conserves l.orders l.volume r m
  m-Conserves = match_orders-Conserves side who p l.orders l.volume r

  m-IsSoundLevel : IsSoundLevel next (record { volume = m.level_volume; orders = m.orders })
  m-IsSoundLevel = (
    eq_of_parts m.level_volume (sum_orders m.orders)
        (omega (int_laws, parts m-Conserves.counted, parts m-Conserves.left, parts fair.0)),
    match_orders-IsFair next side who p l.orders l.volume r fair.1,
  )

  -- A level that the code drops has no volume left.
  dropped_empty : leb_ℤ m.level_volume (pos 0) ≡ true → m.level_volume ≡ pos 0
  dropped_empty e = eq_of_parts m.level_volume (pos 0) (
      omega (
        int_laws,
        leb_ℤ→le m.level_volume (pos 0) e,
        sum_orders_nonneg next m.orders m-IsSoundLevel.1,
        parts m-IsSoundLevel.0,
      ))

  pub next_book-IsSound : IsSound next (next_book p m b)
  next_book-IsSound = elim (Bool-cases (leb_ℤ m.level_volume (pos 0))) [
    | inl e ↦ rw e (delete_level-IsSound next p b sound)
    | inr e ↦ rw e (put_level-IsSound next p _ b sound m-IsSoundLevel)
  ]

  pub resting-next_book : resting (next_book p m b) +ℤ sum_fills m.fills ≡ resting b
  resting-next_book =
      let old = ap volume_of found in
      elim (Bool-cases (leb_ℤ m.level_volume (pos 0))) [
        | inl e ↦ rw e (
            omega (
              int_laws,
              parts (resting-delete_level p b),
              parts old,
              parts (dropped_empty e),
              parts m-Conserves.counted,
            ))
        | inr e ↦ rw e (
            omega (
              int_laws,
              parts (resting-put_level p (record { volume = m.level_volume; orders = m.orders }) b),
              parts old,
              parts m-Conserves.counted,
            ))
      ]

  pub get_level-next_book : (j : ℤ) → j ≢ p → get_level j (next_book p m b) ≡ get_level j b
  get_level-next_book j h = elim (Bool-cases (leb_ℤ m.level_volume (pos 0))) [
    | inl e ↦ rw e (get_level-delete_level p j b h)
    | inr e ↦ rw e (get_level-put_level p j _ b h)
  ]

  -- Where something remains to fill, the level is gone.
  pub get_level-next_book_self : pos 1 ≤ℤ m.remaining → get_level p (next_book p m b) ≡ none
  get_level-next_book_self h =
      let used = match_orders_used_up next side who p l.orders l.volume r fair.1 h in
      let zero_volume : leb_ℤ m.level_volume (pos 0) ≡ true = rw (m-IsSoundLevel.0, used) in
      rw zero_volume (get_level-delete_level_self next p b sound)
