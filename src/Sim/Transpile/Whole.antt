-- ===== src/Sim/Transpile/Whole.antt =====
-- The text that `_transpile` makes of a text of blocks.
use vidhi_trading_platform.Prelude.{
  ℕ, ◌<◌, ◌≤◌, String, split, join, List, [], ◌∷◌, ◌++◌, map, reverse, Option, none, some,
  Bool-cases, inl, inr, ltb, ltb→lt, arith, ◌≡◌, refl, ap, ◌∙◌, sym,
}
use vidhi_trading_platform.Sim.Transpile.{strip, transpile}
use vidhi_trading_platform.Sim.Transpile.Blocks.{
  statement, Piece, blank, closed, plain, State, top, close_to, add_line, on_line, on_lines,
  close_all, at_start, print_lines, piece_text,
}
use vidhi_trading_platform.Sim.Transpile.Lines.{read_line}
use vidhi_trading_platform.Sim.Transpile.Tree.{
  Code, indent_at, levels, lines_of, braced, preface_lines, preface_pieces,
}
use vidhi_trading_platform.Sim.Transpile.Braces.{
  inside, close_to_pop, close_to_stop, close_to-levels, close_to-close_to, on_lines-append,
  lines_of-braced,
}

-- What closes to the first indent of the stack closes all.
close_all-close_to :
    (stack : List ℕ) (out end : List Piece)
    → close_to 0 stack out ≡ record { stack = 0 ∷ []; out = end }
    → close_all stack out ≡ end
unfolding close_to close_all
close_all-close_to [] out end h = ground arith
close_all-close_to (t ∷ []) out end h = ground arith
close_all-close_to (t ∷ u ∷ us) out end h = elim (Bool-cases (ltb 0 t)) [
  | inl e ↦
      let below : 0 < t = ltb→lt 0 t e in
      close_all-close_to (u ∷ us) (closed u ∷ out) end
        (sym (close_to_pop 0 t (u ∷ us) out below) ∙ h)
  | inr e ↦ ground (arith, e)
]

top_first : (base i : ℕ) → top (levels base 0) ≤ i
unfolding levels
top_first base i = omega arith

on_lines-preface_lines :
    (base : ℕ) (ps : List (ℕ × Option String)) (out : List Piece)
    → on_lines (preface_lines ps) (inside base 0 out) ≡ inside base 0 (preface_pieces ps out)
unfolding on_lines on_line add_line preface_lines preface_pieces
on_lines-preface_lines base [] out = refl
on_lines-preface_lines base ((i, none) ∷ ps) out = on_lines-preface_lines base ps (blank ∷ out)
on_lines-preface_lines base ((i, some s) ∷ ps) out =
    ap (λ (r : State). on_lines (preface_lines ps) (add_line i (statement s) r))
      (close_to-levels base 0 i out (top_first base i))
    ∙ on_lines-preface_lines base ps (plain i s ∷ out)

-- The lines that are printed for code whose blocks are indented by four spaces each, from any indent of its
-- own and after any statements, are those statements and the same blocks in braces.
print_lines-braced :
    (base : ℕ) (ps : List (ℕ × Option String)) (c : Code)
    → print_lines (preface_lines ps ++ lines_of base 0 c) ≡ braced base 0 c (preface_pieces ps [])
unfolding print_lines indent_at levels
print_lines-braced base ps c =
    let out = preface_pieces ps [] in
    let ls = preface_lines ps ++ lines_of base 0 c in
    let s = on_lines ls at_start in
    let end = braced base 0 c out in
    let same : s ≡ on_lines (lines_of base 0 c) (inside base 0 out) =
      on_lines-append (preface_lines ps) (lines_of base 0 c) at_start
      ∙ ap (on_lines (lines_of base 0 c)) (on_lines-preface_lines base ps []) in
    let closes : close_to base s.stack s.out ≡ inside base 0 end =
      ap (λ (r : State). close_to base r.stack r.out) same ∙ lines_of-braced base 0 c out in
    close_all-close_to s.stack s.out end (
      sym (close_to-close_to base 0 s.stack s.out (omega arith))
      ∙ ap (λ (r : State). close_to 0 r.stack r.out) closes
      ∙ close_to_stop 0 0 [] end (omega arith))

-- Code whose lines, once its head, doc strings and imports are off, are read as statements and after them blocks
-- that are indented by four spaces each, from any indent of their own, is translated to those statements and
-- the same blocks in braces.
pub transpile-braced :
    (raw : String) (base : ℕ) (ps : List (ℕ × Option String)) (c : Code)
    → map read_line (split "\n" (strip raw)) ≡ preface_lines ps ++ lines_of base 0 c
    → transpile raw ≡ join "\n" (map piece_text (reverse (braced base 0 c (preface_pieces ps []))))
unfolding transpile
transpile-braced raw base ps c h =
    ap (λ (out : List Piece). join "\n" (map piece_text (reverse out)))
      (ap print_lines h ∙ print_lines-braced base ps c)
