-- ===== src/Lob/Market/Conserve.antt =====
-- `marketOrder` conserves volume, over the whole of its loop.
use vidhi_trading_platform.Prelude.{
  true, false, String, ◌≡◌, refl, inl, inr, List, [], ◌∷◌, ◌++◌, none, some, ℤ, pos, ◌+ℤ◌, leb_ℤ,
  int_laws, parts, Bool-cases, Option-cases, ap, ◌∙◌,
}
use vidhi_trading_platform.Lob.Types.{Side, Level, Lob}
use vidhi_trading_platform.Lob.Book.{get_level, resting}
use vidhi_trading_platform.Lob.Orders.{own_book}
use vidhi_trading_platform.Lob.Market.{Executed, match_orders, match_level, match_prices, opposite}
use vidhi_trading_platform.Lob.Market.Matching.{sum_fills, sum_fills-append, match_orders-Conserves}
use vidhi_trading_platform.Lob.Market.Step.{
  match_level-next_book, next_book-IsSound, resting-next_book,
}
use vidhi_trading_platform.Lob.Sound.{IsSound, get_level-IsSound}

-- What an execution of `volume` keeps: the fills and the rest make up the volume, they are what has
-- left the other side, and that side stays sound; the own side and the id counter are as before.
pub record IsExecution (side : Side) (volume : ℤ) (lob : Lob) (e : Executed) : Type 0 where
  pub taken : sum_fills e.fills +ℤ e.remaining ≡ volume
  pub moved :
      resting (own_book (opposite side) e.lob) +ℤ sum_fills e.fills
      ≡ resting (own_book (opposite side) lob)
  pub sound : IsSound lob.next_order_id (own_book (opposite side) e.lob)
  pub own : own_book side e.lob ≡ own_book side lob
  pub ids : e.lob.next_order_id ≡ lob.next_order_id

unmoved :
    (side : Side) (volume : ℤ) (lob : Lob)
    → IsSound lob.next_order_id (own_book (opposite side) lob)
    → IsExecution side volume lob (record { fills = []; remaining = volume; lob = lob })
unmoved side volume lob s = record {
  taken = omega int_laws;
  moved = omega int_laws;
  sound = s;
  own = refl;
  ids = refl;
}

-- The three ways in which the outer loop treats a price.
pub match_prices_stop :
    (side : Side) (who : String) (p : ℤ) (ps : List ℤ) (r : ℤ) (lob : Lob)
    → leb_ℤ r (pos 0) ≡ true
    → match_prices side who (p ∷ ps) r lob ≡ record { fills = []; remaining = r; lob = lob }
unfolding match_prices
match_prices_stop side who p ps r lob h = rw (h, match_prices)

pub match_prices_missing :
    (side : Side) (who : String) (p : ℤ) (ps : List ℤ) (r : ℤ) (lob : Lob)
    → leb_ℤ r (pos 0) ≡ false
    → get_level p (own_book (opposite side) lob) ≡ none
    → match_prices side who (p ∷ ps) r lob ≡ match_prices side who ps r lob
unfolding match_prices
match_prices_missing side who p ps r lob h e = rw (h, match_prices) (rw (e, match_prices))

pub match_prices_found :
    (side : Side) (who : String) (p : ℤ) (l : Level) (ps : List ℤ) (r : ℤ) (lob : Lob)
    → leb_ℤ r (pos 0) ≡ false
    → get_level p (own_book (opposite side) lob) ≡ some l
    → let m = match_orders side who p l.orders l.volume r in
      let e = match_prices side who ps m.remaining (match_level side who p l r lob).1 in
      match_prices side who (p ∷ ps) r lob
      ≡ record { fills = m.fills ++ e.fills; remaining = e.remaining; lob = e.lob }
unfolding match_prices
match_prices_found side who p l ps r lob h e = rw (h, match_prices) (rw (e, match_prices))

pub match_prices-IsExecution :
    (side : Side) (who : String) (ps : List ℤ) (r : ℤ) (lob : Lob)
    → IsSound lob.next_order_id (own_book (opposite side) lob)
    → IsExecution side r lob (match_prices side who ps r lob)
unfolding match_prices
match_prices-IsExecution side who [] r lob s = unmoved side r lob s
match_prices-IsExecution side who (p ∷ ps) r lob s =
    let b = own_book (opposite side) lob in
    elim (Bool-cases (leb_ℤ r (pos 0))) [
      | inl stop ↦ rw (match_prices_stop side who p ps r lob stop) (unmoved side r lob s)
      | inr go ↦ elim (Option-cases (get_level p b)) [
        | inl missing ↦
            rw (match_prices_missing side who p ps r lob go missing)
              (match_prices-IsExecution side who ps r lob s)
        | inr (l, found) ↦
            let n = lob.next_order_id in
            let m = match_orders side who p l.orders l.volume r in
            let lob' = (match_level side who p l r lob).1 in
            let e = match_prices side who ps m.remaining lob' in
            let fair = get_level-IsSound n p b {l = l} s found in
            let change = match_level-next_book side who p l r lob in
            let c = match_orders-Conserves side who p l.orders l.volume r in
            let moved = resting-next_book n side who p l r b s found fair in
            let sound : IsSound lob'.next_order_id (own_book (opposite side) lob') =
              rw (change.0, change.2) (next_book-IsSound n side who p l r b s found fair) in
            let ih = match_prices-IsExecution side who ps m.remaining lob' sound in
            let app = sum_fills-append m.fills e.fills in
            rw (match_prices_found side who p l ps r lob go found) record {
              taken = omega (int_laws, parts app, parts c.taken, parts ih.taken);
              moved =
                  omega
                    (int_laws, parts app, parts moved, parts ih.moved, parts (ap resting change.0));
              sound = rw change.2 at ih.sound;
              own = ih.own ∙ change.1;
              ids = ih.ids ∙ change.2;
            }
      ]
    ]
