-- ===== src/Lob/Best.antt =====
-- The running best prices `_bestBid` and `_bestAsk`. They never fall short of a price of the book;
-- `_rebuildBest` makes them exact; and, once it has run on an empty side, a worse price that is
-- added there goes unnoticed.
pub mod Kept
pub mod Stale
use native.Mathlib.Nat.{le_refl}
use vidhi_trading_platform.Prelude.{
  ◌⊎◌, subst, sym, if◌then◌else◌, true, false, ℕ, String, ◌≡◌, refl, ◌≢◌, inl, inr, List, [], ◌∷◌,
  ◌++◌, Option, none, some, All, arith, ℤ, pos, ◌+ℤ◌, ◌-ℤ◌, ◌≤ℤ◌, ◌<ℤ◌, ltb_ℤ, leb_ℤ, eqb_ℤ,
  eqb_ℤ→eq, Bool-cases, Option-cases,
}
use vidhi_trading_platform.Lob.Types.{
  Side, buy, sell, Order, Level, Book, Fill, Lob, price_key, tick_size,
}
use vidhi_trading_platform.Lob.Book.{get_level, put_level, delete_level, keys, max_key, min_key}
use vidhi_trading_platform.Lob.Orders.{
  above, below, or_else, own_book, with_own_book, rebuild_best, improve_best, add_order,
  cancel_order, store_cancelled,
}
use vidhi_trading_platform.Lob.Market.{
  Executed, match_orders, match_level, match_prices, market_order, opposite, record_trades,
}
use vidhi_trading_platform.Lob.Market.Conserve.{
  match_prices_stop, match_prices_missing, match_prices_found,
}
use vidhi_trading_platform.Lob.Views.{view_best_bid, view_best_ask}

-- The best price of a side is known and no worse than `p`.
abbrev pub Covers : Side → Option ℤ → ℤ → Type 0
Covers side none p = ⊥
Covers buy (some q) p = p ≤ℤ q
Covers sell (some q) p = q ≤ℤ p

abbrev pub IsCovered : Lob → Type 0
IsCovered lob =
    All (Covers buy lob.best_bid) (keys lob.bids) × All (Covers sell lob.best_ask) (keys lob.asks)

module _ (P : ℤ → Type 0) where
  pub All-put_level :
      (k : ℤ) (l : Level) (b : Book) → P k → All P (keys b) → All P (keys (put_level k l b))
  unfolding put_level keys
  All-put_level k l [] h a = (h, tt)
  All-put_level k l ((p, m) ∷ b) h a = elim (Bool-cases (eqb_ℤ p k)) [
    | inl e ↦ rw e a
    | inr e ↦ rw e (a.0, All-put_level k l b h a.1)
  ]

  pub All-delete_level : (k : ℤ) (b : Book) → All P (keys b) → All P (keys (delete_level k b))
  unfolding delete_level keys
  All-delete_level k [] a = tt
  All-delete_level k ((p, m) ∷ b) a = elim (Bool-cases (eqb_ℤ p k)) [
    | inl e ↦ rw e a.1
    | inr e ↦ rw e (a.0, All-delete_level k b a.1)
  ]

  pub All-found : (k : ℤ) (l : Level) (b : Book) → get_level k b ≡ some l → All P (keys b) → P k
  unfolding get_level keys
  All-found k l [] e a = absurd (ground arith)
  All-found k l ((p, m) ∷ b) e a = elim (Bool-cases (eqb_ℤ p k)) [
    | inl q ↦ rw (← eqb_ℤ→eq p k q) a.0
    | inr q ↦ All-found k l b (rw q at e) a.1
  ]

All-keys-map : (P Q : ℤ → Type 0) → ((p : ℤ) → P p → Q p) → (ps : List ℤ) → All P ps → All Q ps
All-keys-map P Q f [] a = tt
All-keys-map P Q f (p ∷ ps) a = (f p a.0, All-keys-map P Q f ps a.1)

empty_of-max_key : (b : Book) → max_key b ≡ none → b ≡ []
unfolding max_key
empty_of-max_key [] e = refl
empty_of-max_key ((p, l) ∷ b) e = ground arith

empty_of-min_key : (b : Book) → min_key b ≡ none → b ≡ []
unfolding min_key
empty_of-min_key [] e = refl
empty_of-min_key ((p, l) ∷ b) e = ground arith

-- `Math.max` and `Math.min` of the keys bound every key.
pub max_key-bounds : (b : Book) (q : ℤ) → max_key b ≡ some q → All (Covers buy (some q)) (keys b)
unfolding max_key keys
max_key-bounds [] q e = tt
max_key-bounds ((p, l) ∷ b) q e = elim (Option-cases (max_key b)) [
  | inl h ↦
      let w : some p ≡ some q = rw h at e in
      (
        ground arith,
        subst (λ c. All (Covers buy (some q)) (keys c)) (sym (empty_of-max_key b h)) tt,
      )
  | inr (m, h) ↦
      let w : (if ltb_ℤ m p then some p else some m) ≡ some q = rw h at e in
      (
        ground arith,
        All-keys-map (Covers buy (some m)) (Covers buy (some q)) (λ x c. ground arith) (keys b)
            (max_key-bounds b m h),
      )
]

pub min_key-bounds : (b : Book) (q : ℤ) → min_key b ≡ some q → All (Covers sell (some q)) (keys b)
unfolding min_key keys
min_key-bounds [] q e = tt
min_key-bounds ((p, l) ∷ b) q e = elim (Option-cases (min_key b)) [
  | inl h ↦
      let w : some p ≡ some q = rw h at e in
      (
        ground arith,
        subst (λ c. All (Covers sell (some q)) (keys c)) (sym (empty_of-min_key b h)) tt,
      )
  | inr (m, h) ↦
      let w : (if ltb_ℤ p m then some p else some m) ≡ some q = rw h at e in
      (
        ground arith,
        All-keys-map (Covers sell (some m)) (Covers sell (some q)) (λ x c. ground arith) (keys b)
            (min_key-bounds b m h),
      )
]

max_key-Covers : (b : Book) (d : ℤ) → All (Covers buy (or_else (max_key b) d)) (keys b)
unfolding keys
max_key-Covers b d = elim (Option-cases (max_key b)) [
  | inl e ↦
      subst (λ c. All (Covers buy (or_else (max_key b) d)) (keys c)) (sym (empty_of-max_key b e)) tt
  | inr (q, e) ↦ subst (λ o. All (Covers buy (or_else o d)) (keys b)) (sym e) (max_key-bounds b q e)
]

min_key-Covers : (b : Book) (d : ℤ) → All (Covers sell (or_else (min_key b) d)) (keys b)
unfolding keys
min_key-Covers b d = elim (Option-cases (min_key b)) [
  | inl e ↦
      subst (λ c. All (Covers sell (or_else (min_key b) d)) (keys c)) (sym (empty_of-min_key b e))
        tt
  | inr (q, e) ↦
      subst (λ o. All (Covers sell (or_else o d)) (keys b)) (sym e) (min_key-bounds b q e)
]

-- After `_rebuildBest` both best prices cover their sides.
pub rebuild_best-IsCovered : (lob : Lob) → IsCovered (rebuild_best lob)
unfolding rebuild_best
rebuild_best-IsCovered lob = (max_key-Covers lob.bids _, min_key-Covers lob.asks _)

above-Covers :
    (k : ℤ) (best : Option ℤ) (p : ℤ)
    → above k best ≡ true
    → Covers buy best p
    → Covers buy (some k) p
above-Covers k none p h c = absurd c
above-Covers k (some q) p h c = ground arith

not_above-Covers : (k : ℤ) (best : Option ℤ) → above k best ≡ false → Covers buy best k
not_above-Covers k none h = absurd (ground arith)
not_above-Covers k (some q) h = ground arith

below-Covers :
    (k : ℤ) (best : Option ℤ) (p : ℤ)
    → below k best ≡ true
    → Covers sell best p
    → Covers sell (some k) p
below-Covers k none p h c = absurd c
below-Covers k (some q) p h c = ground arith

not_below-Covers : (k : ℤ) (best : Option ℤ) → below k best ≡ false → Covers sell best k
not_below-Covers k none h = absurd (ground arith)
not_below-Covers k (some q) h = ground arith

-- `addOrder` keeps both best prices at least as good as every price of their side.
pub add_order-IsCovered :
    (side : Side) (price volume : ℤ) (who : String) (lob : Lob)
    → IsCovered lob
    → IsCovered (add_order side price volume who lob).1
unfolding add_order
add_order-IsCovered buy price volume who lob c =
    let k = price_key price in
    let best = lob.best_bid in
    elim (Bool-cases (above k best)) [
      | inl e ↦ rw e (
        All-put_level (Covers buy (some k)) k _ lob.bids (le_refl _) (
            All-keys-map (Covers buy best) (Covers buy (some k)) (λ p. above-Covers k best p e)
              (keys lob.bids) c.0),
        c.1,
      )
      | inr e ↦
          rw e (All-put_level (Covers buy best) k _ lob.bids (not_above-Covers k best e) c.0, c.1)
    ]
add_order-IsCovered sell price volume who lob c =
    let k = price_key price in
    let best = lob.best_ask in
    elim (Bool-cases (below k best)) [
      | inl e ↦ rw e (
        c.0,
        All-put_level (Covers sell (some k)) k _ lob.asks (le_refl _) (
            All-keys-map (Covers sell best) (Covers sell (some k)) (λ p. below-Covers k best p e)
              (keys lob.asks) c.1),
      )
      | inr e ↦
          rw e (c.0, All-put_level (Covers sell best) k _ lob.asks (not_below-Covers k best e) c.1)
    ]
