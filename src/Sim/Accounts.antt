-- ===== src/Sim/Accounts.antt =====
-- What settling fills does to the contestant's position and cash.
use vidhi_trading_platform.Prelude.{
  true, ◌≡◌, refl, List, [], ◌∷◌, arith, ℤ, pos, negsuc, ◌+ℤ◌, ◌-ℤ◌, ◌*ℤ◌, int_laws, parts,
  eq_of_parts, str_eq, String, if◌then◌else◌, Bool-cases, inl, inr, ◌∙◌,
}
use vidhi_trading_platform.Lob.Types.{Side, buy, sell, Fill}
use vidhi_trading_platform.Sim.Types.{contestant_name}
use vidhi_trading_platform.Sim.Ledger.{
  Account, taker_sign, maker_sign, taker_fill, maker_fill, settle_fill, settle,
}

signs_cancel : (s : Side) (v : ℤ) → taker_sign s v +ℤ maker_sign s v ≡ pos 0
signs_cancel buy v = eq_of_parts _ _ (omega int_laws)
signs_cancel sell v = eq_of_parts _ _ (omega int_laws)

-- The participant that buys with a fill, and that which sells: the taker of a buy is the buyer.
abbrev pub buyer : Side → Fill → String
buyer buy f = f.participant_id
buyer sell f = f.maker_participant_id

abbrev pub seller : Side → Fill → String
seller buy f = f.maker_participant_id
seller sell f = f.participant_id

-- The volume that the contestant buys with the fills, and that it sells.
unfoldable pub bought : List Fill → ℤ
bought [] = pos 0
bought (f ∷ fs) =
    let rest = bought fs in
    if str_eq (buyer f.side f) contestant_name then f.volume +ℤ rest else rest

unfoldable pub sold : List Fill → ℤ
sold [] = pos 0
sold (f ∷ fs) =
    let rest = sold fs in
    if str_eq (seller f.side f) contestant_name then f.volume +ℤ rest else rest

settle_one :
    (s : Side) (f : Fill) (fs : List Fill) (a : Account)
    → f.side ≡ s
    → (settle_fill f a).position +ℤ bought fs -ℤ sold fs
      ≡ a.position +ℤ bought (f ∷ fs) -ℤ sold (f ∷ fs)
unfolding settle_fill taker_fill maker_fill bought sold
settle_one buy f fs a e = elim (Bool-cases (str_eq f.participant_id contestant_name)) [
  | inl t ↦ elim (Bool-cases (str_eq f.maker_participant_id contestant_name)) [
    | inl m ↦ rw (e, t, m) (eq_of_parts _ _ (omega int_laws))
    | inr m ↦ rw (e, t, m) (eq_of_parts _ _ (omega int_laws))
  ]
  | inr t ↦ elim (Bool-cases (str_eq f.maker_participant_id contestant_name)) [
    | inl m ↦ rw (e, t, m) (eq_of_parts _ _ (omega int_laws))
    | inr m ↦ rw (e, t, m) refl
  ]
]
settle_one sell f fs a e = elim (Bool-cases (str_eq f.participant_id contestant_name)) [
  | inl t ↦ elim (Bool-cases (str_eq f.maker_participant_id contestant_name)) [
    | inl m ↦ rw (e, t, m) (eq_of_parts _ _ (omega int_laws))
    | inr m ↦ rw (e, t, m) (eq_of_parts _ _ (omega int_laws))
  ]
  | inr t ↦ elim (Bool-cases (str_eq f.maker_participant_id contestant_name)) [
    | inl m ↦ rw (e, t, m) (eq_of_parts _ _ (omega int_laws))
    | inr m ↦ rw (e, t, m) refl
  ]
]

-- Settling any fills moves the contestant's position by what it buys with them, less what it sells, whether
-- it is the taker of a fill, its maker, both or neither.
pub settle_position :
    (fs : List Fill) (a : Account) → (settle fs a).position ≡ a.position +ℤ bought fs -ℤ sold fs
unfolding settle bought sold
settle_position [] a = eq_of_parts _ _ (omega int_laws)
settle_position (f ∷ fs) a = settle_position fs (settle_fill f a) ∙ settle_one f.side f fs a refl

neg_mul : (v p : ℤ) → (pos 0 -ℤ v) *ℤ p ≡ pos 0 -ℤ v *ℤ p
unfolding ◌*ℤ◌ ◌-ℤ◌
neg_mul (pos v) (pos p) = ground arith
neg_mul (pos v) (negsuc p) = ground arith
neg_mul (negsuc v) (pos p) = ground arith
neg_mul (negsuc v) (negsuc p) = ground arith

maker_cost :
    (f : Fill)
    → maker_sign f.side f.volume *ℤ f.price ≡ pos 0 -ℤ taker_sign f.side f.volume *ℤ f.price
maker_cost f = go f.side
  where
    go : (s : Side) → maker_sign s f.volume *ℤ f.price ≡ pos 0 -ℤ taker_sign s f.volume *ℤ f.price
    go buy = neg_mul f.volume f.price
    go sell = eq_of_parts _ _ (omega (int_laws, parts (neg_mul f.volume f.price)))

-- A fill of the contestant against its own order leaves its position as it was, but takes the cost of
-- the fill from its cash twice: with a sale to itself the contestant gains twice the proceeds.
settle_self :
    (f : Fill) (a : Account)
    → str_eq f.participant_id contestant_name ≡ true
    → str_eq f.maker_participant_id contestant_name ≡ true
    → let cost = taker_sign f.side f.volume *ℤ f.price in
      ((settle_fill f a).position ≡ a.position) × ((settle_fill f a).cash ≡ a.cash -ℤ cost -ℤ cost)
unfolding settle_fill
settle_self f a h k =
    rw (h, k)
      (
        eq_of_parts _ _ (omega (int_laws, parts (signs_cancel f.side f.volume))),
        eq_of_parts _ _ (omega (int_laws, parts (maker_cost f))),
      )
