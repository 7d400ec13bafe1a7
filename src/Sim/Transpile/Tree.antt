-- ===== src/Sim/Transpile/Tree.antt =====
-- Code by its blocks, as it is written with indents and as it is printed with braces.
use vidhi_trading_platform.Prelude.{
  ℕ, zero, suc, ◌+◌, String, List, [], ◌∷◌, ◌++◌, Option, none, some,
}
use vidhi_trading_platform.Sim.Transpile.Blocks.{
  Line, empty, follower, opener, statement, Piece, blank, closed, opened, joined, plain, top,
}

-- Code by its blocks. `Code` is what stands at one depth; `Tail` is what stands there after a block. A blank
-- line, of any indent, before the end of a block counts to the block.
mutual
  pub data Code : Type 0 where
    done : Code
    gap : ℕ → Code → Code
    simple : String → Code → Code
    block : String → Code → Tail → Code

  pub data Tail : Type 0 where
    ended : Tail
    then_simple : String → Code → Tail
    then_block : String → Code → Tail → Tail
    follow : String → Code → Tail → Tail

-- The indent of a depth, for code that starts at a base.
unfoldable pub indent_at : ℕ → ℕ → ℕ
indent_at base zero = base
indent_at base (suc d) = indent_at base d + 4

-- The stack of indents inside that many blocks.
unfoldable pub levels : ℕ → ℕ → List ℕ
unfolding indent_at
levels base zero = 0 ∷ []
levels base (suc d) = indent_at base (suc d) ∷ levels base d

-- The lines of the code, each with the indent of its depth.
unfoldable mutual
  unfolding indent_at

  pub lines_of : ℕ → ℕ → Code → List (ℕ × Line)
  lines_of base d done = []
  lines_of base d (gap i c) = (i, empty) ∷ lines_of base d c
  lines_of base d (simple s c) = (indent_at base d, statement s) ∷ lines_of base d c
  lines_of base d (block h b t) =
      (indent_at base d, opener h) ∷ (lines_of base (suc d) b ++ tail_lines base d t)

  pub tail_lines : ℕ → ℕ → Tail → List (ℕ × Line)
  tail_lines base d ended = []
  tail_lines base d (then_simple s c) = (indent_at base d, statement s) ∷ lines_of base d c
  tail_lines base d (then_block h b t) =
      (indent_at base d, opener h) ∷ (lines_of base (suc d) b ++ tail_lines base d t)
  tail_lines base d (follow h b t) =
      (indent_at base d, follower h) ∷ (lines_of base (suc d) b ++ tail_lines base d t)

-- The code in braces, before what is printed so far: each block between its head and a brace, and what
-- follows a block on the line of its brace.
unfoldable mutual
  unfolding indent_at levels

  pub braced : ℕ → ℕ → Code → List Piece → List Piece
  braced base d done out = out
  braced base d (gap i c) out = braced base d c (blank ∷ out)
  braced base d (simple s c) out = braced base d c (plain (indent_at base d) s ∷ out)
  braced base d (block h b t) out =
      braced_tail base d t (braced base (suc d) b (opened (indent_at base d) h ∷ out))

  pub braced_tail : ℕ → ℕ → Tail → List Piece → List Piece
  braced_tail base d ended out = closed (top (levels base d)) ∷ out
  braced_tail base d (then_simple s c) out =
      braced base d c (plain (indent_at base d) s ∷ closed (top (levels base d)) ∷ out)
  braced_tail base d (then_block h b t) out =
      let brace = closed (top (levels base d)) in
      braced_tail base d t (braced base (suc d) b (opened (indent_at base d) h ∷ brace ∷ out))
  braced_tail base d (follow h b t) out =
      let brace = joined (closed (top (levels base d))) h in
      braced_tail base d t (braced base (suc d) b (brace ∷ out))

-- What stands before the code: statements and blank lines of any indent.
unfoldable pub preface_lines : List (ℕ × Option String) → List (ℕ × Line)
preface_lines [] = []
preface_lines ((i, none) ∷ ps) = (i, empty) ∷ preface_lines ps
preface_lines ((i, some s) ∷ ps) = (i, statement s) ∷ preface_lines ps

unfoldable pub preface_pieces : List (ℕ × Option String) → List Piece → List Piece
preface_pieces [] out = out
preface_pieces ((i, none) ∷ ps) out = preface_pieces ps (blank ∷ out)
preface_pieces ((i, some s) ∷ ps) out = preface_pieces ps (plain i s ∷ out)
