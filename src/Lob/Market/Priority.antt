-- ===== src/Lob/Market/Priority.antt =====
-- Price and time priority of `marketOrder`.
use vidhi_trading_platform.Prelude.{
  String, ◌≡◌, refl, inl, inr, List, [], ◌∷◌, ◌++◌, map, true, false, if◌then◌else◌, All,
  All-append, ℤ, pos, ◌-ℤ◌, min_ℤ, leb_ℤ, ltb_ℤ, Bool-cases, Option-cases, ap, arith,
}
use vidhi_trading_platform.Lob.Types.{Side, Order, Fill, Lob}
use vidhi_trading_platform.Lob.Book.{get_level, keys}
use vidhi_trading_platform.Lob.Orders.{own_book}
use vidhi_trading_platform.Lob.Market.{
  match_orders, match_level, match_prices, market_order, opposite, sorted_prices,
}
use vidhi_trading_platform.Lob.Market.Conserve.{
  match_prices_stop, match_prices_missing, match_prices_found,
}
use vidhi_trading_platform.Lob.Market.Sorted.{NoBetter, IsBestFirst, sort_by-IsBestFirst}

-- No fill is at a better price than one before it.
abbrev pub IsPriceOrdered : Side → List Fill → Type 0
IsPriceOrdered side [] = Unit
IsPriceOrdered side (f ∷ fs) = All (λ g. NoBetter side g.price f.price) fs × IsPriceOrdered side fs

-- What time priority gives the orders of a level, the oldest first: each its whole volume, until the one that
-- covers what is then left, and nothing to those after it.
unfoldable pub served : List Order → ℤ → List (String × ℤ)
served [] r = []
served (o ∷ os) r =
    let rest = served os (r -ℤ o.volume) in
    if leb_ℤ r (pos 0)
    then []
    else if ltb_ℤ o.volume r
    then (o.participant_id, o.volume) ∷ rest
    else (o.participant_id, r) ∷ []

abbrev pub maker_and_volume : Fill → String × ℤ
maker_and_volume f = (f.maker_participant_id, f.volume)

nothing_left :
    (side : Side) (who : String) (p : ℤ) (os : List Order) (volume r : ℤ)
    → leb_ℤ r (pos 0) ≡ true
    → (match_orders side who p os volume r).fills ≡ []
unfolding match_orders
nothing_left side who p [] volume r h = refl
nothing_left side who p (o ∷ os) volume r h = rw h refl

whole : (v r : ℤ) → ltb_ℤ v r ≡ true → min_ℤ v r ≡ v
unfolding min_ℤ
whole v r h = ground arith

covered : (v r : ℤ) → ltb_ℤ v r ≡ false → min_ℤ v r ≡ r
unfolding min_ℤ
covered v r h = ground arith

taken_off : (r : ℤ) → leb_ℤ (r -ℤ r) (pos 0) ≡ true
unfolding ◌-ℤ◌
taken_off r = ground arith

-- Within a level the older order comes first: the makers and volumes of the fills are the orders from the front
-- of the level, each taken as a whole before the next one, until one covers what is left to fill.
pub match_orders_fifo :
    (side : Side) (who : String) (p : ℤ) (os : List Order) (volume r : ℤ)
    → map maker_and_volume (match_orders side who p os volume r).fills ≡ served os r
unfolding match_orders served
match_orders_fifo side who p [] volume r = refl
match_orders_fifo side who p (o ∷ os) volume r = elim (Bool-cases (leb_ℤ r (pos 0))) [
  | inl stop ↦ rw stop refl
  | inr go ↦ elim (Bool-cases (ltb_ℤ o.volume r)) [
    | inl more ↦
        rw (go, more, whole o.volume r more)
          (ap (λ xs. (o.participant_id, o.volume) ∷ xs)
            (match_orders_fifo side who p os (volume -ℤ o.volume) (r -ℤ o.volume)))
    | inr last ↦
        let none_left = nothing_left side who p os (volume -ℤ r) (r -ℤ r) (taken_off r) in
        rw (go, last, covered o.volume r last, none_left) refl
  ]
]

match_orders_price :
    (P : ℤ → Type 0) (side : Side) (who : String) (p : ℤ) (os : List Order) (volume r : ℤ)
    → P p
    → All (λ f. P f.price) (match_orders side who p os volume r).fills
unfolding match_orders
match_orders_price P side who p [] volume r h = tt
match_orders_price P side who p (o ∷ os) volume r h =
    let v = min_ℤ o.volume r in
    elim (Bool-cases (leb_ℤ r (pos 0))) [
      | inl stop ↦ rw stop tt
      | inr go ↦ rw go (h, match_orders_price P side who p os (volume -ℤ v) (r -ℤ v) h)
    ]

-- Every fill is at one of the prices of the loop.
match_prices_price :
    (P : ℤ → Type 0) (side : Side) (who : String) (ps : List ℤ) (r : ℤ) (lob : Lob)
    → All P ps
    → All (λ f. P f.price) (match_prices side who ps r lob).fills
unfolding match_prices
match_prices_price P side who [] r lob h = tt
match_prices_price P side who (p ∷ ps) r lob h = elim (Bool-cases (leb_ℤ r (pos 0))) [
  | inl stop ↦ rw (match_prices_stop side who p ps r lob stop) tt
  | inr go ↦ elim (Option-cases (get_level p (own_book (opposite side) lob))) [
    | inl missing ↦
        rw (match_prices_missing side who p ps r lob go missing)
          (match_prices_price P side who ps r lob h.1)
    | inr (l, found) ↦
        let m = match_orders side who p l.orders l.volume r in
        let lob' = (match_level side who p l r lob).1 in
        rw (match_prices_found side who p l ps r lob go found) (
          All-append (λ f. P f.price) m.fills _
            (match_orders_price P side who p l.orders l.volume r h.0)
            (match_prices_price P side who ps m.remaining lob' h.1))
  ]
]

-- Fills at the one price `p`, followed by ordered fills at no better price, are ordered.
IsPriceOrdered-append :
    (side : Side) (p : ℤ) (fs gs : List Fill)
    → All (λ f. f.price ≡ p) fs
    → All (λ g. NoBetter side g.price p) gs
    → IsPriceOrdered side gs
    → IsPriceOrdered side (fs ++ gs)
IsPriceOrdered-append side p [] gs at worse ordered = ordered
IsPriceOrdered-append side p (f ∷ fs) gs at worse ordered = (
  rw at.0 (All-append (λ g. NoBetter side g.price p) fs gs (same fs at.1) worse),
  IsPriceOrdered-append side p fs gs at.1 worse ordered,
)
  where
    irrefl : (s : Side) → NoBetter s p p
    irrefl Side.buy = ground arith
    irrefl Side.sell = ground arith

    same : (hs : List Fill) → All (λ f. f.price ≡ p) hs → All (λ g. NoBetter side g.price p) hs
    same [] a = tt
    same (h ∷ hs) a = (rw a.0 (irrefl side), same hs a.1)

match_prices-IsPriceOrdered :
    (side : Side) (who : String) (ps : List ℤ) (r : ℤ) (lob : Lob)
    → IsBestFirst side ps
    → IsPriceOrdered side (match_prices side who ps r lob).fills
unfolding match_prices
match_prices-IsPriceOrdered side who [] r lob h = tt
match_prices-IsPriceOrdered side who (p ∷ ps) r lob h = elim (Bool-cases (leb_ℤ r (pos 0))) [
  | inl stop ↦ rw (match_prices_stop side who p ps r lob stop) tt
  | inr go ↦ elim (Option-cases (get_level p (own_book (opposite side) lob))) [
    | inl missing ↦
        rw (match_prices_missing side who p ps r lob go missing)
          (match_prices-IsPriceOrdered side who ps r lob h.1)
    | inr (l, found) ↦
        let m = match_orders side who p l.orders l.volume r in
        let lob' = (match_level side who p l r lob).1 in
        rw (match_prices_found side who p l ps r lob go found) (
          IsPriceOrdered-append side p m.fills _
            (match_orders_price (λ q. q ≡ p) side who p l.orders l.volume r refl)
            (match_prices_price (λ q. NoBetter side q p) side who ps m.remaining lob' h.0)
            (match_prices-IsPriceOrdered side who ps m.remaining lob' h.1))
  ]
]

-- The fills of a market order come in price order: for a buyer no ask is lower than one before it,
-- for a seller no bid is higher than one before it.
pub market_order-IsPriceOrdered :
    (side : Side) (volume : ℤ) (who : String) (lob : Lob)
    → IsPriceOrdered side (market_order side volume who lob).fills
unfolding market_order
market_order-IsPriceOrdered side volume who lob =
    match_prices-IsPriceOrdered side who (sorted_prices side lob) volume lob
      (sort_by-IsBestFirst side (keys (own_book (opposite side) lob)))
