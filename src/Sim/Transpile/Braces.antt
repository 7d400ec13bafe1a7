-- ===== src/Sim/Transpile/Braces.antt =====
-- What `_transpile` makes of code that is indented by four spaces per block: the same blocks in braces.
use vidhi_trading_platform.Prelude.{
  ℕ, zero, suc, ◌<◌, ◌≤◌, Bool-cases, String, List, [], ◌∷◌, ◌++◌, ◌≡◌, refl, ap, ◌∙◌, sym, subst,
  inl, inr, arith, ltb, ltb→lt,
}
use vidhi_trading_platform.Sim.Transpile.Blocks.{
  Line, follower, opener, statement, Piece, blank, closed, opened, joined, plain, State, top,
  is_brace, close_to, join_to, add_line, on_line, on_lines,
}
use vidhi_trading_platform.Sim.Transpile.Tree.{
  Code, done, gap, simple, block, Tail, ended, then_simple, then_block, follow, indent_at, levels,
  lines_of, tail_lines, braced, braced_tail,
}

-- The state inside `d` blocks that are all open still.
abbrev pub inside : ℕ → ℕ → List Piece → State
inside base d out = record { stack = levels base d; out = out }

top-levels : (base d : ℕ) → top (levels base d) ≤ indent_at base d
unfolding levels indent_at
top-levels base zero = omega arith
top-levels base (suc d) = omega arith

-- The two ends of a turn of the closing loop.
pub close_to_pop :
    (i t : ℕ) (ts : List ℕ) (out : List Piece)
    → i < t
    → close_to i (t ∷ ts) out ≡ close_to i ts (closed (top ts) ∷ out)
unfolding close_to
close_to_pop i t ts out h = ground arith

pub close_to_stop :
    (i t : ℕ) (ts : List ℕ) (out : List Piece)
    → t ≤ i
    → close_to i (t ∷ ts) out ≡ record { stack = t ∷ ts; out = out }
unfolding close_to
close_to_stop i t ts out h = ground arith

-- Nothing closes at the depth's own indent or beyond it.
pub close_to-levels :
    (base d i : ℕ) (out : List Piece)
    → top (levels base d) ≤ i
    → close_to i (levels base d) out ≡ inside base d out
unfolding levels
close_to-levels base zero i out h = close_to_stop i 0 [] out h
close_to-levels base (suc d) i out h =
    close_to_stop i (indent_at base (suc d)) (levels base d) out h

-- Leaving a block prints its brace.
close_to_outer :
    (base d : ℕ) (out : List Piece)
    → close_to (indent_at base d) (levels base (suc d)) out
      ≡ inside base d (closed (top (levels base d)) ∷ out)
unfolding levels indent_at
close_to_outer base d out =
    close_to_pop (indent_at base d) (indent_at base (suc d)) (levels base d) out (omega arith)
    ∙ close_to-levels base d (indent_at base d) (closed (top (levels base d)) ∷ out)
        (top-levels base d)

-- Closing to an indent closes to any greater one on the way.
pub close_to-close_to :
    (i j : ℕ) (stack : List ℕ) (out : List Piece)
    → j ≤ i
    → let s = close_to i stack out in close_to j s.stack s.out ≡ close_to j stack out
unfolding close_to
close_to-close_to i j [] out h = refl
close_to-close_to i j (t ∷ ts) out h = elim (Bool-cases (ltb i t)) [
  | inl e ↦
      let below : i < t = ltb→lt i t e in
      rw (close_to_pop i t ts out below, close_to_pop j t ts out (omega arith))
        (close_to-close_to i j ts (closed (top ts) ∷ out) h)
  | inr e ↦ rw (close_to_stop i t ts out (ground (arith, e))) refl
]

pub on_lines-append :
    (ls ms : List (ℕ × Line)) (s : State) → on_lines (ls ++ ms) s ≡ on_lines ms (on_lines ls s)
unfolding on_lines
on_lines-append [] ms s = refl
on_lines-append (l ∷ ls) ms s = on_lines-append ls ms (on_line l s)

-- A state whose blocks are those of a depth, once the deeper ones are closed.
abbrev pub AtDepth : ℕ → ℕ → List Piece → State → Type 0
AtDepth base d out s = close_to (indent_at base d) s.stack s.out ≡ inside base d out

leave :
    (base d : ℕ) (s : State) (out : List Piece)
    → AtDepth base (suc d) out s
    → AtDepth base d (closed (top (levels base d)) ∷ out) s
unfolding indent_at
leave base d s out h =
    sym (close_to-close_to (indent_at base (suc d)) (indent_at base d) s.stack s.out (omega arith))
    ∙ ap (λ (r : State). close_to (indent_at base d) r.stack r.out) h
    ∙ close_to_outer base d out

stay : (base d : ℕ) (out : List Piece) → AtDepth base d out (inside base d out)
stay base d out = close_to-levels base d (indent_at base d) out (top-levels base d)

-- A line at the indent of its depth meets the blocks of that depth.
on_line-AtDepth :
    (base d : ℕ) (s : State) (out : List Piece) (t : String)
    → AtDepth base d out s
    → (on_line (indent_at base d, statement t) s ≡ inside base d (plain (indent_at base d) t ∷ out))
      × (on_line (indent_at base d, opener t) s
          ≡ inside base (suc d) (opened (indent_at base d) t ∷ out))
unfolding on_line add_line levels indent_at
on_line-AtDepth base d s out t h = (rw h refl, rw h refl)

on_follower :
    (base d : ℕ) (s : State) (out : List Piece) (t : String)
    → AtDepth base d (closed (top (levels base d)) ∷ out) s
    → on_line (indent_at base d, follower t) s
      ≡ inside base (suc d) (joined (closed (top (levels base d))) t ∷ out)
unfolding on_line add_line levels indent_at join_to is_brace
on_follower base d s out t h = rw h refl

on_lines-on_line :
    (l : ℕ × Line) (ls : List (ℕ × Line)) (s r : State)
    → on_line l s ≡ r
    → on_lines (l ∷ ls) s ≡ on_lines ls r
unfolding on_lines
on_lines-on_line l ls s r h = ap (on_lines ls) h

-- A head, the lines of its block's body, and those of what follows it.
on_lines_block :
    (base d : ℕ) (l : ℕ × Line) (b : Code) (t : Tail) (s : State) (out : List Piece)
    → on_line l s ≡ inside base (suc d) out
    → on_lines (l ∷ (lines_of base (suc d) b ++ tail_lines base d t)) s
      ≡ on_lines
          (tail_lines base d t)
          (on_lines (lines_of base (suc d) b) (inside base (suc d) out))
on_lines_block base d l b t s out h =
    on_lines-on_line l (lines_of base (suc d) b ++ tail_lines base d t) s (inside base (suc d) out)
      h
    ∙ on_lines-append (lines_of base (suc d) b) (tail_lines base d t) (inside base (suc d) out)

mutual
  unfolding lines_of braced on_lines

  pub lines_of-braced :
      (base d : ℕ) (c : Code) (out : List Piece)
      → AtDepth base d (braced base d c out) (on_lines (lines_of base d c) (inside base d out))
  lines_of-braced base d done out = stay base d out
  lines_of-braced base d (gap i c) out = lines_of-braced base d c (blank ∷ out)
  lines_of-braced base d (simple x c) out =
      subst (AtDepth base d _)
        (sym (
          on_lines-on_line (indent_at base d, statement x) (lines_of base d c) _ _
            (on_line-AtDepth base d (inside base d out) out x (stay base d out)).0))
        (lines_of-braced base d c (plain (indent_at base d) x ∷ out))
  lines_of-braced base d (block x b t) out =
      subst (AtDepth base d _)
        (sym (
          on_lines_block base d (indent_at base d, opener x) b t _ _
            (on_line-AtDepth base d (inside base d out) out x (stay base d out)).1))
        (tail_lines-braced base d t _ _
          (lines_of-braced base (suc d) b (opened (indent_at base d) x ∷ out)))

  tail_lines-braced :
      (base d : ℕ) (t : Tail) (s : State) (out : List Piece)
      → AtDepth base (suc d) out s
      → AtDepth base d (braced_tail base d t out) (on_lines (tail_lines base d t) s)
  tail_lines-braced base d ended s out h = leave base d s out h
  tail_lines-braced base d (then_simple x c) s out h =
      let brace = closed (top (levels base d)) in
      subst (AtDepth base d _)
        (sym (
          on_lines-on_line (indent_at base d, statement x) (lines_of base d c) s _
            (on_line-AtDepth base d s (brace ∷ out) x (leave base d s out h)).0))
        (lines_of-braced base d c (plain (indent_at base d) x ∷ brace ∷ out))
  tail_lines-braced base d (then_block x b t) s out h =
      let brace = closed (top (levels base d)) in
      subst (AtDepth base d _)
        (sym (
          on_lines_block base d (indent_at base d, opener x) b t s _
            (on_line-AtDepth base d s (brace ∷ out) x (leave base d s out h)).1))
        (tail_lines-braced base d t _ _
          (lines_of-braced base (suc d) b (opened (indent_at base d) x ∷ brace ∷ out)))
  tail_lines-braced base d (follow x b t) s out h =
      let brace = closed (top (levels base d)) in
      subst (AtDepth base d _)
        (sym (
          on_lines_block base d (indent_at base d, follower x) b t s _
            (on_follower base d s out x (leave base d s out h))))
        (tail_lines-braced base d t _ _ (lines_of-braced base (suc d) b (joined brace x ∷ out)))
