-- ===== src/Pages/Metrics/Largest.antt =====
-- The drawdown is the largest fall of the history.
use vidhi_trading_platform.Prelude.{
  List, [], ◌∷◌, some, ℤ, pos, ◌-ℤ◌, ◌≤ℤ◌, max_ℤ, ◌≡◌, refl, ap, ◌∙◌, ◌⊎◌, inl, inr, arith,
  int_laws, eq_of_parts, parts,
}
use vidhi_trading_platform.Pages.Metrics.{drawdown_from, max_drawdown}

abbrev pub IsIn : ℤ → List ℤ → Type 0
IsIn b [] = ⊥
IsIn b (v ∷ vs) = (b ≡ v) ⊎ IsIn b vs

-- A fall from a value to that one or a later one.
abbrev pub IsFall : List ℤ → ℤ → Type 0
IsFall [] d = ⊥
IsFall (v ∷ vs) d = ((b : ℤ) × IsIn b (v ∷ vs) × (d ≡ v -ℤ b)) ⊎ IsFall vs d

max_ℤ_lem : (a b : ℤ) → (a ≤ℤ max_ℤ a b) × (b ≤ℤ max_ℤ a b) × ((max_ℤ a b ≡ a) ⊎ (max_ℤ a b ≡ b))
unfolding max_ℤ
max_ℤ_lem a b = ground arith

-- What the loop comes to from a peak and a drawdown: no less than that drawdown, than the falls from the
-- peak, and than the falls after it; and one of these.
record IsLargest (peak dd : ℤ) (vs : List ℤ) (r : ℤ) : Type 0 where
  above : dd ≤ℤ r
  above_peak : (b : ℤ) → IsIn b vs → peak -ℤ b ≤ℤ r
  above_falls : (d : ℤ) → IsFall vs d → d ≤ℤ r
  one_of : (r ≡ dd) ⊎ (((b : ℤ) × IsIn b vs × (r ≡ peak -ℤ b)) ⊎ IsFall vs r)

le_fall : (p q b r : ℤ) → p ≤ℤ q → q -ℤ b ≤ℤ r → p -ℤ b ≤ℤ r
le_fall p q b r h k = omega (int_laws, h, k)

-- A fall from the new peak is one from the old peak or from the value that it rose to.
risen_peak :
    {dd : ℤ} (peak v b : ℤ) (vs : List ℤ) (r : ℤ)
    → IsIn b (v ∷ vs)
    → r ≡ max_ℤ peak v -ℤ b
    → (max_ℤ peak v ≡ peak) ⊎ (max_ℤ peak v ≡ v)
    → (r ≡ dd) ⊎ (((b : ℤ) × IsIn b (v ∷ vs) × (r ≡ peak -ℤ b)) ⊎ IsFall (v ∷ vs) r)
risen_peak peak v b vs r is_in e (inl same) = inr (inl (b, is_in, e ∙ ap (λ t. t -ℤ b) same))
risen_peak peak v b vs r is_in e (inr rise) = inr (inr (inl (b, is_in, e ∙ ap (λ t. t -ℤ b) rise)))

one_more_value :
    (peak dd v : ℤ) (vs : List ℤ) (r : ℤ)
    → IsLargest (max_ℤ peak v) (max_ℤ dd (max_ℤ peak v -ℤ v)) vs r
    → IsLargest peak dd (v ∷ vs) r
one_more_value peak dd v vs r h =
    let (p_top, v_top, top_is) = max_ℤ_lem peak v in
    let (dd_new, fall_new, new_is) = max_ℤ_lem dd (max_ℤ peak v -ℤ v) in
    let here : max_ℤ peak v -ℤ v ≤ℤ r = omega (arith, fall_new, h.above) in
    record {
      above = omega (arith, dd_new, h.above);
      above_peak = λ b is_in. elim is_in [
        | inl e ↦ omega (int_laws, parts e, p_top, here)
        | inr later ↦ le_fall peak (max_ℤ peak v) b r p_top (h.above_peak b later)
      ];
      above_falls = λ d falls. elim falls [
        | inl (b, inl e, eq) ↦ omega (int_laws, parts e, parts eq, v_top, here)
        | inl (b, inr later, eq) ↦
            let low = le_fall v (max_ℤ peak v) b r v_top (h.above_peak b later) in
            omega (arith, parts eq, low)
        | inr later ↦ h.above_falls d later
      ];
      one_of = elim h.one_of [
        | inl e ↦ elim new_is [
          | inl old ↦ inl (e ∙ old)
          | inr new ↦ risen_peak peak v v vs r (inl refl) (e ∙ new) top_is
        ]
        | inr (inl (b, is_in, e)) ↦ risen_peak peak v b vs r (inr is_in) e top_is
        | inr (inr later) ↦ inr (inr (inr later))
      ];
    }

drawdown_from-IsLargest :
    (peak dd : ℤ) (vs : List ℤ) → IsLargest peak dd vs (drawdown_from (some peak) dd vs)
unfolding drawdown_from
drawdown_from-IsLargest peak dd [] = record {
  above = omega arith;
  above_peak = λ b is_in. absurd is_in;
  above_falls = λ d falls. absurd falls;
  one_of = inl refl;
}
drawdown_from-IsLargest peak dd (v ∷ vs) =
    one_more_value peak dd v vs _
      (drawdown_from-IsLargest (max_ℤ peak v) (max_ℤ dd (max_ℤ peak v -ℤ v)) vs)

first_fall : (v : ℤ) → max_ℤ (pos 0) (v -ℤ v) ≡ v -ℤ v
first_fall v = elim (max_ℤ_lem (pos 0) (v -ℤ v)).2 [
  | inl zero_is ↦ zero_is ∙ eq_of_parts _ _ (omega int_laws)
  | inr same ↦ same
]

-- The drawdown of a history that is not empty is its largest fall from a value to that value or a later
-- one: it is such a fall, and no such fall is larger.
pub max_drawdown_largest :
    (v : ℤ) (vs : List ℤ)
    → let r = max_drawdown (v ∷ vs) in IsFall (v ∷ vs) r × ((d : ℤ) → IsFall (v ∷ vs) d → d ≤ℤ r)
unfolding max_drawdown drawdown_from
max_drawdown_largest v vs =
    let dd = max_ℤ (pos 0) (v -ℤ v) in
    let dd_is : dd ≡ v -ℤ v = first_fall v in
    let h = drawdown_from-IsLargest v dd vs in
    (
      elim h.one_of [
        | inl e ↦ inl (v, inl refl, e ∙ dd_is)
        | inr (inl (b, later, e)) ↦ inl (b, inr later, e)
        | inr (inr falls) ↦ inr falls
      ],
      λ d falls. elim falls [
        | inl (b, inl e, eq) ↦ omega (int_laws, parts e, parts eq, parts dd_is, h.above)
        | inl (b, inr later, eq) ↦ let low = h.above_peak b later in omega (arith, parts eq, low)
        | inr later ↦ h.above_falls d later
      ],
    )
