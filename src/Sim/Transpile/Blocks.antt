-- ===== src/Sim/Transpile/Blocks.antt =====
-- The loop of `_transpile` over lines that are read already: the stack of indents, the braces that close
-- blocks, and the lines that it prints.
use vidhi_trading_platform.Prelude.{
  ℕ, zero, suc, ◌+◌, Bool, true, false, String, ◌+++◌, str_eq, trim, List, [], ◌∷◌, ltb,
}

-- A line of the contestant's code, as the tests of the loop tell it: blank or a comment of its own;
-- nothing left without its comment; `elif`, `else`, `except` and `finally`, with the text after the
-- brace that they share; a block, with the text of its head; a nested `def`; any other statement.
pub data Line : Type 0 where
  empty : Line
  bare : Line
  follower : String → Line
  opener : String → Line
  skipped : Line
  statement : String → Line

-- A printed line, with its indent.
pub data Piece : Type 0 where
  blank : Piece
  closed : ℕ → Piece
  opened : ℕ → String → Piece
  joined : Piece → String → Piece
  stray : ℕ → String → Piece
  omitted : ℕ → Piece
  plain : ℕ → String → Piece

-- `' '.repeat(n)`
unfoldable pub spaces : ℕ → String
spaces zero = ""
spaces (suc n) = " " +++ spaces n

unfoldable pub piece_text : Piece → String
unfolding spaces
piece_text blank = ""
piece_text (closed n) = spaces n +++ "}"
piece_text (opened n t) = spaces n +++ t
piece_text (joined p t) = piece_text p +++ " " +++ t
piece_text (stray n t) = spaces n +++ "} " +++ t
piece_text (omitted n) = spaces n +++ "/* def skipped */"
piece_text (plain n t) = spaces n +++ t

-- `out[out.length - 1].trim() === '}'`
unfoldable pub is_brace : Piece → Bool
unfolding trim
is_brace (closed n) = true
is_brace (plain n t) = str_eq (trim t) "}"
is_brace _ = false

-- `indentStack`, the top first, and `out`, the last line first.
pub record State : Type 0 where
  pub stack : List ℕ
  pub out : List Piece

abbrev pub top : List ℕ → ℕ
top [] = 0
top (i ∷ is) = i

-- `while (indent < indentStack[...])`: nothing is less than the top of an empty stack.
unfoldable pub close_to : ℕ → List ℕ → List Piece → State
close_to indent [] out = record { stack = []; out = out }
close_to indent (i ∷ is) out = elim (ltb indent i) [
  | true ↦ close_to indent is (closed (top is) ∷ out)
  | false ↦ record { stack = i ∷ is; out = out }
]

-- A follower's line: after the last brace where that is the last line, else with a brace of its own.
unfoldable pub join_to : ℕ → String → List Piece → List Piece
unfolding is_brace
join_to indent t [] = stray indent t ∷ []
join_to indent t (p ∷ ps) = elim (is_brace p) [
  | true ↦ joined p t ∷ ps
  | false ↦ stray indent t ∷ p ∷ ps
]

-- What a line adds once the blocks before it are closed.
unfoldable pub add_line : ℕ → Line → State → State
unfolding join_to
add_line indent empty s = record s { out = blank ∷ s.out }
add_line indent bare s = record s { out = blank ∷ s.out }
add_line indent (follower t) s = record {
  stack = (indent + 4) ∷ s.stack;
  out = join_to indent t s.out;
}
add_line indent (opener t) s = record {
  stack = (indent + 4) ∷ s.stack;
  out = opened indent t ∷ s.out;
}
add_line indent skipped s = record { stack = (indent + 4) ∷ s.stack; out = omitted indent ∷ s.out }
add_line indent (statement t) s = record s { out = plain indent t ∷ s.out }

-- One turn of the loop.
unfoldable pub on_line : ℕ × Line → State → State
unfolding add_line close_to
on_line (indent, empty) s = add_line indent empty s
on_line (indent, line) s = add_line indent line (close_to indent s.stack s.out)

unfoldable pub on_lines : List (ℕ × Line) → State → State
unfolding on_line
on_lines [] s = s
on_lines (l ∷ ls) s = on_lines ls (on_line l s)

-- `while (indentStack.length > 1)`
unfoldable pub close_all : List ℕ → List Piece → List Piece
close_all (i ∷ j ∷ is) out = close_all (j ∷ is) (closed j ∷ out)
close_all _ out = out

abbrev pub at_start : State
at_start = record { stack = 0 ∷ []; out = [] }

-- The lines that are printed for the lines of the code, the last first.
unfoldable pub print_lines : List (ℕ × Line) → List Piece
unfolding on_lines close_all
print_lines ls = let s = on_lines ls at_start in close_all s.stack s.out
