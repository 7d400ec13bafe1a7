-- ===== src/Lob/Market/Matching.antt =====
-- The inner loop of `marketOrder`: it conserves volume and uses a level up before it stops short.
use vidhi_trading_platform.Prelude.{
  ℕ, String, ◌≡◌, refl, inl, inr, List, [], ◌∷◌, ◌++◌, arith, All, ℤ, pos, ◌+ℤ◌, ◌-ℤ◌, ◌≤ℤ◌, leb_ℤ,
  int_laws, parts, leb_ℤ→le, leb_ℤ→lt, min_ℤ, min_ℤ_lem, Bool-cases,
}
use vidhi_trading_platform.Lob.Types.{Side, Order, Fill}
use vidhi_trading_platform.Lob.Market.{Matched, match_orders}
use vidhi_trading_platform.Lob.Sound.{sum_orders, IsFair}

abbrev pub sum_fills : List Fill → ℤ
sum_fills [] = pos 0
sum_fills (f ∷ fs) = f.volume +ℤ sum_fills fs

pub sum_fills-append : (fs gs : List Fill) → sum_fills (fs ++ gs) ≡ sum_fills fs +ℤ sum_fills gs
sum_fills-append [] gs = omega int_laws
sum_fills-append (f ∷ fs) gs = grind (int_laws, sum_fills-append fs gs)

-- What the inner loop keeps equal, for orders of any sign.
pub record Conserves (os : List Order) (volume remaining : ℤ) (m : Matched) : Type 0 where
  pub taken : sum_fills m.fills +ℤ m.remaining ≡ remaining
  pub counted : sum_fills m.fills +ℤ m.level_volume ≡ volume
  pub left : sum_fills m.fills +ℤ sum_orders m.orders ≡ sum_orders os

pub match_orders-Conserves :
    (side : Side) (who : String) (price : ℤ) (os : List Order) (volume remaining : ℤ)
    → Conserves os volume remaining (match_orders side who price os volume remaining)
unfolding match_orders
match_orders-Conserves side who price [] volume remaining = record {
  taken = omega int_laws;
  counted = omega int_laws;
  left = omega int_laws;
}
match_orders-Conserves side who price (o ∷ os) volume remaining =
    let v = min_ℤ o.volume remaining in
    let ih = match_orders-Conserves side who price os (volume -ℤ v) (remaining -ℤ v) in
    let low = min_ℤ_lem o.volume remaining in
    elim (Bool-cases (leb_ℤ remaining (pos 0))) [
      | inl stop ↦
          rw stop record { taken = omega int_laws; counted = omega int_laws; left = omega int_laws }
      | inr go ↦ rw go record {
        taken = omega (int_laws, parts ih.taken);
        counted = omega (int_laws, parts ih.counted);
        left = elim (Bool-cases (leb_ℤ (o.volume -ℤ v) (pos 0))) [
          | inl used ↦
              rw used (omega (int_laws, parts ih.left, low, leb_ℤ→le (o.volume -ℤ v) (pos 0) used))
          | inr kept ↦ rw kept (omega (int_laws, parts ih.left))
        ];
      }
    ]

-- Fair orders stay fair, at any counter.
pub match_orders-IsFair :
    (next : ℕ) (side : Side) (who : String) (price : ℤ) (os : List Order) (volume remaining : ℤ)
    → All (IsFair next) os
    → All (IsFair next) (match_orders side who price os volume remaining).orders
unfolding match_orders
match_orders-IsFair next side who price [] volume remaining h = tt
match_orders-IsFair next side who price (o ∷ os) volume remaining h =
    let v = min_ℤ o.volume remaining in
    let ih = match_orders-IsFair next side who price os (volume -ℤ v) (remaining -ℤ v) h.1 in
    elim (Bool-cases (leb_ℤ remaining (pos 0))) [
      | inl stop ↦ rw stop h
      | inr go ↦ rw go (elim (Bool-cases (leb_ℤ (o.volume -ℤ v) (pos 0))) [
        | inl used ↦ rw used ih
        | inr kept ↦ rw kept ((omega (int_laws, min_ℤ_lem o.volume remaining), h.0.1), ih)
      ])
    ]

-- Fills against fair orders have no negative volume, and leave none to fill.
pub match_orders_nonneg :
    (next : ℕ) (side : Side) (who : String) (price : ℤ) (os : List Order) (volume remaining : ℤ)
    → All (IsFair next) os
    → pos 0 ≤ℤ remaining
    → (pos 0 ≤ℤ (match_orders side who price os volume remaining).remaining)
      × All (λ f. pos 0 ≤ℤ f.volume) (match_orders side who price os volume remaining).fills
unfolding match_orders
match_orders_nonneg next side who price [] volume remaining h r = (r, tt)
match_orders_nonneg next side who price (o ∷ os) volume remaining h r =
    let v = min_ℤ o.volume remaining in
    let low = min_ℤ_lem o.volume remaining in
    let ih =
      match_orders_nonneg next side who price os (volume -ℤ v) (remaining -ℤ v) h.1
        (omega (int_laws, low)) in
    elim (Bool-cases (leb_ℤ remaining (pos 0))) [
      | inl stop ↦ rw stop (r, tt)
      | inr go ↦ rw go (ih.0, (omega (int_laws, low), ih.1))
    ]

match_orders_stop :
    (side : Side) (who : String) (price : ℤ) (os : List Order) (volume remaining : ℤ)
    → remaining ≤ℤ pos 0
    → (match_orders side who price os volume remaining).remaining ≡ remaining
unfolding match_orders
match_orders_stop side who price [] volume remaining h = refl
match_orders_stop side who price (o ∷ os) volume remaining h =
    elim (Bool-cases (leb_ℤ remaining (pos 0))) [
      | inl stop ↦ rw stop
      | inr go ↦ absurd (omega (arith, leb_ℤ→lt remaining (pos 0) go))
    ]

-- If something remains to fill, the level is used up.
pub match_orders_used_up :
    (next : ℕ) (side : Side) (who : String) (price : ℤ) (os : List Order) (volume remaining : ℤ)
    → All (IsFair next) os
    → pos 1 ≤ℤ (match_orders side who price os volume remaining).remaining
    → (match_orders side who price os volume remaining).orders ≡ []
unfolding match_orders
match_orders_used_up next side who price [] volume remaining h r = refl
match_orders_used_up next side who price (o ∷ os) volume remaining h r =
    let v = min_ℤ o.volume remaining in
    let ih = match_orders_used_up next side who price os (volume -ℤ v) (remaining -ℤ v) h.1 in
    elim (Bool-cases (leb_ℤ remaining (pos 0))) [
      | inl stop ↦ absurd (omega (arith, leb_ℤ→le remaining (pos 0) stop, rw stop at r))
      | inr go ↦
          let r' = rw go at r in
          elim (Bool-cases (leb_ℤ (o.volume -ℤ v) (pos 0))) [
            | inl used ↦ rw (go, used) (ih r')
            | inr kept ↦
                let low = min_ℤ_lem o.volume remaining in
                let over = leb_ℤ→lt (o.volume -ℤ v) (pos 0) kept in
                let done : remaining -ℤ v ≤ℤ pos 0 = omega (int_laws, low, over) in
                absurd (
                  omega (
                    arith,
                    r',
                    done,
                    parts (match_orders_stop side who price os (volume -ℤ v) (remaining -ℤ v) done),
                  ))
          ]
    ]
