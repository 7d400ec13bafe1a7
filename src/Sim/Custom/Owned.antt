-- ===== src/Sim/Custom/Owned.antt =====
-- What a bot cannot cancel.
use vidhi_trading_platform.Prelude.{
  ℕ, ◌==◌, ◌&&◌, false, String, str_eq, List, [], ◌∷◌, All, map, find, some, none, ◌≡◌, refl, ◌∙◌,
  subst, ap, Bool-cases, Option-cases, inl, inr, arith,
}
use vidhi_trading_platform.Lob.Types.{Order, Book, Lob}
use vidhi_trading_platform.Lob.Orders.{find_order}
use vidhi_trading_platform.Sim.Types.{cancel}
use vidhi_trading_platform.Sim.Custom.{find_by, cancel_by, execute_by, execute_all_by}

-- No order of the book has this id and is the participant's.
abbrev pub IsForeign : String → ℕ → Book → Type 0
IsForeign who i [] = Unit
IsForeign who i ((p, l) ∷ b) =
    All (λ (o : Order). (o.id == i && str_eq o.participant_id who) ≡ false) l.orders
    × IsForeign who i b

found_foreign :
    (who : String) (i : ℕ) (os : List Order) (o : Order)
    → All (λ (q : Order). (q.id == i && str_eq q.participant_id who) ≡ false) os
    → find_order i os ≡ some o
    → str_eq o.participant_id who ≡ false
unfolding find_order
found_foreign who i [] o h e = absurd (ground arith)
found_foreign who i (q ∷ os) o h e = elim (Bool-cases (q.id == i)) [
  | inl same ↦
      let w : some q ≡ some o = rw same at e in
      let alike : q ≡ o = ground arith in
      let foreign : str_eq q.participant_id who ≡ false = rw same at h.0 in
      subst (λ (x : Order). str_eq x.participant_id who ≡ false) alike foreign
  | inr other ↦
      let w : find (λ (x : Order). x.id == i) os ≡ some o = rw other at e in
      found_foreign who i os o h.1 w
]

find_by-foreign : (who : String) (i : ℕ) (b : Book) → IsForeign who i b → find_by who i b ≡ none
unfolding find_by
find_by-foreign who i [] h = refl
find_by-foreign who i ((p, l) ∷ b) h = elim (Option-cases (find_order i l.orders)) [
  | inl e ↦ rw (e, find_by) (find_by-foreign who i b h.1)
  | inr (o, e) ↦
      rw (e, find_by) (rw (found_foreign who i l.orders o h.0 e) (find_by-foreign who i b h.1))
]

cancel_by-foreign :
    (who : String) (i : ℕ) (lob : Lob)
    → IsForeign who i lob.bids
    → IsForeign who i lob.asks
    → cancel_by who i lob ≡ lob
unfolding cancel_by
cancel_by-foreign who i lob bids asks =
    rw (find_by-foreign who i lob.bids bids, cancel_by)
      (rw (find_by-foreign who i lob.asks asks, cancel_by) refl)

-- A custom bot cancels only its own orders: cancels of ids that no order of the bot has leave the book as it
-- is, also where the ids are those of other participants' orders.
pub execute_all_by_foreign :
    (who : String) (ids : List ℕ) (lob : Lob)
    → All (λ i. IsForeign who i lob.bids × IsForeign who i lob.asks) ids
    → execute_all_by who (map cancel ids) lob ≡ lob
unfolding execute_all_by execute_by
execute_all_by_foreign who [] lob h = refl
execute_all_by_foreign who (i ∷ ids) lob h =
    ap (execute_all_by who (map cancel ids)) (cancel_by-foreign who i lob h.0.0 h.0.1)
    ∙ execute_all_by_foreign who ids lob h.1
