-- ===== src/Lob/Market/Exhaust.antt =====
-- `marketOrder` stops short only when the other side of the book is used up.
use vidhi_trading_platform.Prelude.{
  All-append, min_ℤ_lem, true, ℕ, String, ◌≡◌, refl, ◌≢◌, ◌⊎◌, inl, inr, List, [], ◌∷◌, none, some,
  arith, All, ℤ, pos, ◌+ℤ◌, ◌≤ℤ◌, min_ℤ, leb_ℤ, leb_ℤ→le, leb_ℤ→lt, eqb_ℤ, eqb_ℤ→eq, int_laws,
  parts, eq_of_parts, Bool-cases, Option-cases, ap, ◌∙◌,
}
use vidhi_trading_platform.Lob.Types.{Side, Level, Book, Lob}
use vidhi_trading_platform.Lob.Book.{get_level, resting, keys}
use vidhi_trading_platform.Lob.Orders.{own_book}
use vidhi_trading_platform.Lob.Market.{
  match_orders, match_level, match_prices, market_order, opposite, sorted_prices,
}
use vidhi_trading_platform.Lob.Market.Matching.{match_orders_nonneg, sum_fills}
use vidhi_trading_platform.Lob.Market.Step.{
  match_level-next_book, next_book, next_book-IsSound, get_level-next_book,
  get_level-next_book_self,
}
use vidhi_trading_platform.Lob.Market.Conserve.{
  match_prices_stop, match_prices_missing, match_prices_found, match_prices-IsExecution,
}
use vidhi_trading_platform.Lob.Market.Sorted.{Among, Among-sort_by, get_level_cases}
use vidhi_trading_platform.Lob.Sound.{sum_orders_nonneg, IsSound, IsSoundLevel, get_level-IsSound}

match_prices_over :
    (side : Side) (who : String) (ps : List ℤ) (r : ℤ) (lob : Lob)
    → leb_ℤ r (pos 0) ≡ true
    → (match_prices side who ps r lob).remaining ≡ r
unfolding match_prices
match_prices_over side who [] r lob h = refl
match_prices_over side who (p ∷ ps) r lob h = rw (h, match_prices)

still_emptied :
    (n : ℕ) (side : Side) (who : String) (p : ℤ) (l : Level) (r : ℤ) (b : Book) (s : IsSound n b)
    (found : get_level p b ≡ some l) (fair : IsSoundLevel n l) (j : ℤ) (ps : List ℤ)
    → let m = match_orders side who p l.orders l.volume r in
      (get_level j b ≡ none) ⊎ Among j (p ∷ ps)
      → pos 1 ≤ℤ m.remaining
      → (get_level j (next_book p m b) ≡ none) ⊎ Among j ps
still_emptied n side who p l r b s found fair j ps h more =
    let m = match_orders side who p l.orders l.volume r in
    elim (Bool-cases (eqb_ℤ j p)) [
      | inl e ↦
          let q = eqb_ℤ→eq j p e in
          inl (rw q (get_level-next_book_self n side who p l r b s found fair more))
      | inr e ↦
          let ne : j ≢ p = λ q. ground arith in
          elim h [
            | inl missing ↦ inl (get_level-next_book n side who p l r b s found fair j ne ∙ missing)
            | inr (inl here) ↦ absurd (ne here)
            | inr (inr later) ↦ inr later
          ]
    ]

-- A price that has no level, or that the loop has yet to come to, has no level at the end.
emptied :
    (side : Side) (who : String) (ps : List ℤ) (r : ℤ) (lob : Lob) (j : ℤ)
    → IsSound lob.next_order_id (own_book (opposite side) lob)
    → (get_level j (own_book (opposite side) lob) ≡ none) ⊎ Among j ps
    → pos 1 ≤ℤ (match_prices side who ps r lob).remaining
    → get_level j (own_book (opposite side) (match_prices side who ps r lob).lob) ≡ none
unfolding match_prices
emptied side who [] r lob j s (inl missing) more = missing
emptied side who [] r lob j s (inr h) more = absurd h
emptied side who (p ∷ ps) r lob j s h more = elim (Bool-cases (leb_ℤ r (pos 0))) [
  | inl stop ↦
      let q = rw (match_prices_stop side who p ps r lob stop) at more in
      absurd (omega (arith, leb_ℤ→le r (pos 0) stop, q))
  | inr go ↦ elim (Option-cases (get_level p (own_book (opposite side) lob))) [
    | inl none_there ↦
        let step = match_prices_missing side who p ps r lob go none_there in
        let still : (get_level j (own_book (opposite side) lob) ≡ none) ⊎ Among j ps = elim h [
          | inl missing ↦ inl missing
          | inr (inl here) ↦ inl (rw here none_there)
          | inr (inr later) ↦ inr later
        ] in
        rw step (emptied side who ps r lob j s still (rw step at more))
    | inr (l, found) ↦
        let n = lob.next_order_id in
        let b = own_book (opposite side) lob in
        let m = match_orders side who p l.orders l.volume r in
        let lob' = (match_level side who p l r lob).1 in
        let fair = get_level-IsSound n p b {l = l} s found in
        let change = match_level-next_book side who p l r lob in
        let sound : IsSound lob'.next_order_id (own_book (opposite side) lob') =
          rw (change.0, change.2) (next_book-IsSound n side who p l r b s found fair) in
        let step = match_prices_found side who p l ps r lob go found in
        let more' = rw step at more in
        let still : (get_level j (own_book (opposite side) lob') ≡ none) ⊎ Among j ps =
          elim (Bool-cases (leb_ℤ m.remaining (pos 0))) [
            | inl over ↦ absurd (
                omega (
                  arith,
                  leb_ℤ→le m.remaining (pos 0) over,
                  more',
                  parts (match_prices_over side who ps m.remaining lob' over),
                ))
            | inr under ↦ rw change.0 (
                still_emptied n side who p l r b s found fair j ps h
                  (omega (arith, leb_ℤ→lt m.remaining (pos 0) under)))
          ] in
        rw step (emptied side who ps m.remaining lob' j sound still more')
  ]
]

no_levels : (b : Book) → ((j : ℤ) → get_level j b ≡ none) → b ≡ []
unfolding get_level
no_levels [] h = refl
no_levels ((p, l) ∷ b) h = ground (arith, h p)

-- If a market order leaves something to fill, it has emptied the other side of the book.
pub market_order_exhausts :
    (side : Side) (volume : ℤ) (who : String) (lob : Lob)
    → IsSound lob.next_order_id (own_book (opposite side) lob)
    → pos 1 ≤ℤ (market_order side volume who lob).remaining
    → own_book (opposite side) (market_order side volume who lob).lob ≡ []
unfolding market_order
market_order_exhausts side volume who lob s more =
    let b = own_book (opposite side) lob in
    no_levels _ λ j.
      emptied side who (sorted_prices side lob) volume lob j s
        (elim (get_level_cases j b) [
          | inl missing ↦ inl missing
          | inr present ↦ inr (Among-sort_by side j (keys b) present)
        ])
        more

-- Against fair orders the loop leaves nothing negative to fill, and no fill is negative.
match_prices_nonneg :
    (side : Side) (who : String) (ps : List ℤ) (r : ℤ) (lob : Lob)
    → IsSound lob.next_order_id (own_book (opposite side) lob)
    → pos 0 ≤ℤ r
    → (pos 0 ≤ℤ (match_prices side who ps r lob).remaining)
      × All (λ f. pos 0 ≤ℤ f.volume) (match_prices side who ps r lob).fills
unfolding match_prices
match_prices_nonneg side who [] r lob s h = (h, tt)
match_prices_nonneg side who (p ∷ ps) r lob s h = elim (Bool-cases (leb_ℤ r (pos 0))) [
  | inl stop ↦ rw (match_prices_stop side who p ps r lob stop) (h, tt)
  | inr go ↦ elim (Option-cases (get_level p (own_book (opposite side) lob))) [
    | inl none_there ↦
        rw (match_prices_missing side who p ps r lob go none_there)
          (match_prices_nonneg side who ps r lob s h)
    | inr (l, found) ↦
        let n = lob.next_order_id in
        let b = own_book (opposite side) lob in
        let m = match_orders side who p l.orders l.volume r in
        let lob' = (match_level side who p l r lob).1 in
        let fair = get_level-IsSound n p b {l = l} s found in
        let change = match_level-next_book side who p l r lob in
        let sound : IsSound lob'.next_order_id (own_book (opposite side) lob') =
          rw (change.0, change.2) (next_book-IsSound n side who p l r b s found fair) in
        let here = match_orders_nonneg n side who p l.orders l.volume r fair.1 h in
        let there = match_prices_nonneg side who ps m.remaining lob' sound here.0 in
        rw (match_prices_found side who p l ps r lob go found)
          (there.0, All-append (λ f. pos 0 ≤ℤ f.volume) m.fills _ here.1 there.1)
  ]
]

resting_nonneg : (n : ℕ) (b : Book) → IsSound n b → pos 0 ≤ℤ resting b
unfolding resting
resting_nonneg n [] s = omega arith
resting_nonneg n ((p, l) ∷ b) s =
    omega (int_laws, parts s.0.0, sum_orders_nonneg n l.orders s.0.1, resting_nonneg n b s.2)

-- A market order for a volume that is not negative fills as much as it can: the volume asked for,
-- or all that rests on the other side, whichever is less. No fill is negative, what it fills has
-- left the other side, which stays sound, and its own side of the book is untouched.
pub market_order_fills :
    (side : Side) (volume : ℤ) (who : String) (lob : Lob)
    → IsSound lob.next_order_id (own_book (opposite side) lob)
    → pos 0 ≤ℤ volume
    → let e = market_order side volume who lob in
      let before = resting (own_book (opposite side) lob) in
      (sum_fills e.fills ≡ min_ℤ volume before)
      × All (λ f. pos 0 ≤ℤ f.volume) e.fills
      × (resting (own_book (opposite side) e.lob) +ℤ sum_fills e.fills ≡ before)
      × IsSound lob.next_order_id (own_book (opposite side) e.lob)
      × (own_book side e.lob ≡ own_book side lob)
unfolding market_order resting
market_order_fills side volume who lob s h =
    let ps = sorted_prices side lob in
    let e = match_prices side who ps volume lob in
    let x = match_prices-IsExecution side who ps volume lob s in
    let signs = match_prices_nonneg side who ps volume lob s h in
    let before = resting (own_book (opposite side) lob) in
    let low = min_ℤ_lem volume before in
    let after_nonneg = resting_nonneg lob.next_order_id (own_book (opposite side) e.lob) x.sound in
    (
      elim (Bool-cases (leb_ℤ e.remaining (pos 0))) [
        | inl full ↦ eq_of_parts _ _ (
            omega (
              int_laws,
              leb_ℤ→le e.remaining (pos 0) full,
              signs.0,
              parts x.taken,
              parts x.moved,
              after_nonneg,
              low,
            ))
        | inr short ↦
            let more = leb_ℤ→lt e.remaining (pos 0) short in
            let gone =
              ap resting (market_order_exhausts side volume who lob s (omega (arith, more))) in
            eq_of_parts _ _ (omega (int_laws, more, parts x.taken, parts x.moved, parts gone, low))
      ],
      signs.1,
      x.moved,
      x.sound,
      x.own,
    )
