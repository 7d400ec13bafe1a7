-- ===== src/Sim/Transpile/Balance.antt =====
-- What `_transpile` prints for any lines: each brace that closes a block has a line that began it.
use vidhi_trading_platform.Prelude.{
  ℕ, ◌+◌, ◌<◌, ◌≤◌, Bool-cases, String, List, [], ◌∷◌, length, ◌≡◌, refl, inl, inr, arith, ltb,
  ltb→lt, ap, ◌∙◌,
}
use vidhi_trading_platform.Sim.Transpile.Blocks.{
  Line, empty, bare, follower, opener, skipped, statement, Piece, closed, opened, joined, stray,
  omitted, plain, State, top, is_brace, close_to, join_to, add_line, on_line, on_lines, close_all,
  at_start, print_lines,
}
use vidhi_trading_platform.Sim.Transpile.Braces.{close_to_pop, close_to_stop}

-- The braces of a printed line that close a block, and those that open one; a stray follower closes and opens.
unfoldable pub closings : Piece → ℕ
closings (closed n) = 1
closings (stray n t) = 1
closings (joined p t) = closings p
closings p = 0

unfoldable pub openings : Piece → ℕ
openings (opened n t) = 1
openings (stray n t) = 1
openings (joined p t) = 1 + openings p
openings p = 0

-- The lines that begin a block for the stack and open no brace for it: nested `def`s, and stray followers,
-- whose brace is closed on their own line.
unfoldable pub unopened : Piece → ℕ
unopened (stray n t) = 1
unopened (omitted n) = 1
unopened (joined p t) = unopened p
unopened p = 0

unfoldable pub total : (Piece → ℕ) → List Piece → ℕ
total f [] = 0
total f (p ∷ ps) = f p + total f ps

-- The stack has an entry for each block that is not closed yet, and one more.
abbrev IsCounted : State → Type 0
IsCounted s =
    total closings s.out + length s.stack ≡ total openings s.out + total unopened s.out + 1

close_to-IsCounted :
    (i : ℕ) (stack : List ℕ) (out : List Piece)
    → IsCounted (record { stack = stack; out = out })
    → IsCounted (close_to i stack out)
unfolding close_to total closings openings unopened
close_to-IsCounted i [] out h = h
close_to-IsCounted i (t ∷ ts) out h = elim (Bool-cases (ltb i t)) [
  | inl e ↦
      rw (close_to_pop i t ts out (ltb→lt i t e))
        (close_to-IsCounted i ts (closed (top ts) ∷ out) (omega (arith, h)))
  | inr e ↦ rw (close_to_stop i t ts out (ground (arith, e))) h
]

join_to_counts :
    (i : ℕ) (t : String) (out : List Piece)
    → total closings (join_to i t out) + total openings out + total unopened out + 1
      ≡ total closings out + total openings (join_to i t out) + total unopened (join_to i t out)
unfolding join_to total closings openings unopened
join_to_counts i t [] = refl
join_to_counts i t (p ∷ ps) = elim (Bool-cases (is_brace p)) [
  | inl e ↦ rw (join_to, e) (omega arith)
  | inr e ↦ rw (join_to, e) (omega arith)
]

add_line-IsCounted : (i : ℕ) (l : Line) (s : State) → IsCounted s → IsCounted (add_line i l s)
unfolding add_line total closings openings unopened
add_line-IsCounted i (follower t) s h = omega (arith, h, join_to_counts i t s.out)
add_line-IsCounted i empty s h = omega (arith, h)
add_line-IsCounted i bare s h = omega (arith, h)
add_line-IsCounted i (opener t) s h = omega (arith, h)
add_line-IsCounted i skipped s h = omega (arith, h)
add_line-IsCounted i (statement t) s h = omega (arith, h)

-- The first indent is 0, and no line closes it.
unfoldable IsGrounded : List ℕ → Type 0
IsGrounded [] = ⊥
IsGrounded (i ∷ []) = i ≡ 0
IsGrounded (i ∷ j ∷ is) = IsGrounded (j ∷ is)

close_to-IsGrounded :
    (i : ℕ) (stack : List ℕ) (out : List Piece)
    → IsGrounded stack
    → IsGrounded (close_to i stack out).stack
unfolding IsGrounded
close_to-IsGrounded i [] out h = elim h [ ]
close_to-IsGrounded i (t ∷ []) out h = rw (close_to_stop i t [] out (omega (arith, h))) h
close_to-IsGrounded i (t ∷ u ∷ us) out h = elim (Bool-cases (ltb i t)) [
  | inl e ↦
      rw (close_to_pop i t (u ∷ us) out (ltb→lt i t e))
        (close_to-IsGrounded i (u ∷ us) (closed u ∷ out) h)
  | inr e ↦ rw (close_to_stop i t (u ∷ us) out (ground (arith, e))) h
]

push-IsGrounded : (i : ℕ) (stack : List ℕ) → IsGrounded stack → IsGrounded (i ∷ stack)
unfolding IsGrounded
push-IsGrounded i [] h = elim h [ ]
push-IsGrounded i (t ∷ ts) h = h

add_line-IsGrounded :
    (i : ℕ) (l : Line) (s : State) → IsGrounded s.stack → IsGrounded (add_line i l s).stack
unfolding add_line
add_line-IsGrounded i (follower t) s h = push-IsGrounded (i + 4) s.stack h
add_line-IsGrounded i (opener t) s h = push-IsGrounded (i + 4) s.stack h
add_line-IsGrounded i skipped s h = push-IsGrounded (i + 4) s.stack h
add_line-IsGrounded i empty s h = h
add_line-IsGrounded i bare s h = h
add_line-IsGrounded i (statement t) s h = h

record IsBalanced (s : State) : Type 0 where
  counted : IsCounted s
  grounded : IsGrounded s.stack

add_line-IsBalanced : (i : ℕ) (l : Line) (s : State) → IsBalanced s → IsBalanced (add_line i l s)
add_line-IsBalanced i l s h = record {
  counted = add_line-IsCounted i l s h.counted;
  grounded = add_line-IsGrounded i l s h.grounded;
}

close_to-IsBalanced : (i : ℕ) (s : State) → IsBalanced s → IsBalanced (close_to i s.stack s.out)
close_to-IsBalanced i s h = record {
  counted = close_to-IsCounted i s.stack s.out h.counted;
  grounded = close_to-IsGrounded i s.stack s.out h.grounded;
}

on_line-IsBalanced : (l : ℕ × Line) (s : State) → IsBalanced s → IsBalanced (on_line l s)
unfolding on_line
on_line-IsBalanced (i, empty) s h = add_line-IsBalanced i empty s h
on_line-IsBalanced (i, bare) s h = add_line-IsBalanced i bare _ (close_to-IsBalanced i s h)
on_line-IsBalanced (i, follower t) s h =
    add_line-IsBalanced i (follower t) _ (close_to-IsBalanced i s h)
on_line-IsBalanced (i, opener t) s h =
    add_line-IsBalanced i (opener t) _ (close_to-IsBalanced i s h)
on_line-IsBalanced (i, skipped) s h = add_line-IsBalanced i skipped _ (close_to-IsBalanced i s h)
on_line-IsBalanced (i, statement t) s h =
    add_line-IsBalanced i (statement t) _ (close_to-IsBalanced i s h)

on_lines-IsBalanced : (ls : List (ℕ × Line)) (s : State) → IsBalanced s → IsBalanced (on_lines ls s)
unfolding on_lines
on_lines-IsBalanced [] s h = h
on_lines-IsBalanced (l ∷ ls) s h = on_lines-IsBalanced ls (on_line l s) (on_line-IsBalanced l s h)

close_all_counts :
    (stack : List ℕ) (out : List Piece)
    → IsBalanced (record { stack = stack; out = out })
    → let end = close_all stack out in total closings end ≡ total openings end + total unopened end
unfolding close_all total closings openings unopened IsGrounded
close_all_counts [] out h = absurd h.grounded
close_all_counts (i ∷ []) out h = omega (arith, h.counted)
close_all_counts (i ∷ j ∷ is) out h =
    close_all_counts (j ∷ is) (closed j ∷ out)
      (record { counted = omega (arith, h.counted); grounded = h.grounded })

-- Whatever the lines, the printed ones have as many closing braces of blocks as opening ones, and one more for
-- each nested `def` and for each follower that has no brace before it.
pub print_lines_balance :
    (ls : List (ℕ × Line))
    → let out = print_lines ls in total closings out ≡ total openings out + total unopened out
unfolding print_lines total closings openings unopened IsGrounded
print_lines_balance ls =
    let s = on_lines ls at_start in
    close_all_counts s.stack s.out
      (on_lines-IsBalanced ls at_start (record { counted = refl; grounded = refl }))

-- What is closed to an indent is closed to any greater one.
close_to_past :
    (i j : ℕ) (stack : List ℕ) (before out : List Piece)
    → i ≤ j
    → let r = close_to i stack before in
      close_to j r.stack out ≡ record { stack = r.stack; out = out }
unfolding close_to
close_to_past i j [] before out h = refl
close_to_past i j (t ∷ ts) before out h = elim (Bool-cases (ltb i t)) [
  | inl e ↦
      rw (close_to_pop i t ts before (ltb→lt i t e))
        (close_to_past i j ts (closed (top ts) ∷ before) out h)
  | inr e ↦
      rw (close_to_stop i t ts before (ground (arith, e)))
        (close_to_stop j t ts out (ground (arith, e)))
]

-- A statement that is indented by less than four spaces beyond the head of a block is printed after the brace
-- that closes the block.
pub on_lines_shallow :
    (i j : ℕ) (h t : String) (s : State)
    → i ≤ j
    → j < i + 4
    → let r = close_to i s.stack s.out in
      let out = (on_lines ((i, opener h) ∷ (j, statement t) ∷ []) s).out in
      out ≡ plain j t ∷ closed (top r.stack) ∷ opened i h ∷ r.out
unfolding on_lines on_line add_line
on_lines_shallow i j h t s at_least below =
    let r = close_to i s.stack s.out in
    ap (λ (x : State). plain j t ∷ x.out)
      (close_to_pop j (i + 4) r.stack (opened i h ∷ r.out) below
        ∙ close_to_past i j s.stack s.out (closed (top r.stack) ∷ opened i h ∷ r.out) at_least)
