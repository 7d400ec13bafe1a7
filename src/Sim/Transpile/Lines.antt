-- ===== src/Sim/Transpile/Lines.antt =====
-- How `_transpile` reads one line of the contestant's code: its indent, and what it is.

use vidhi_trading_platform.Prelude.{
  ℕ, ◌+◌, ◌-◌, Bool, false, not, ◌&&◌, ◌||◌, String, ◌+++◌, len, slice, str_eq, starts_with,
  ends_with, trim, trim_end, List, [], ◌∷◌, Option, some, none, ltb, if◌then◌else◌,
}
use vidhi_trading_platform.Sim.Transpile.Blocks.{
  Line, empty, bare, follower, opener, skipped, statement,
}
use vidhi_trading_platform.Sim.Transpile.Scan.{
  is_word, is_digit, is_blank, span, blanks, drop, word_first, word_at, call_at, replace_every,
  inline_comment,
}

-- `getIndent`: a tab counts four.
unfoldable pub get_indent : String → ℕ
get_indent String.[] = 0
get_indent (String.◌∷◌ c s) =
    let n = get_indent s in
    if is_blank c then (if str_eq (String.◌∷◌ c "") "\t" then 4 + n else 1 + n) else 0

-- `^w\b`
abbrev pub starts_word : String → String → Bool
starts_word w s = starts_with s w && not (word_first (drop (len w) s))

-- The keywords whose lines open a block when they end in a colon.
abbrev pub block_words : List String
block_words =
    "if" ∷ "elif" ∷ "else" ∷ "for" ∷ "while" ∷ "def" ∷ "try" ∷ "except" ∷ "finally" ∷ "with" ∷ []

abbrev pub starts_some : List String → String → Bool
starts_some [] s = false
starts_some (w ∷ ws) s = starts_word w s || starts_some ws s

abbrev pub is_block_open : String → Bool
is_block_open s = starts_some block_words s && ends_with s ":"

-- `^w\s*:`
abbrev pub starts_colon : String → String → Bool
unfolding span
starts_colon w s =
    let rest = drop (len w) s in starts_with s w && starts_with (drop (blanks rest) rest) ":"

-- `replace(/^w\s+/, '')`
abbrev pub without_word : String → String → String
unfolding span
without_word w s =
    let rest = drop (len w) s in
    if starts_with s w && ltb 0 (blanks rest) then drop (blanks rest) rest else s

-- `replace(/:$/, '')`
abbrev pub without_colon : String → String
without_colon s = if ends_with s ":" then slice s 0 (len s - 1) else s

-- The words that differ between the two languages; the replacement of `**` by itself is left out.
unfoldable pub translate_words : String → String
unfolding replace_every
translate_words s =
    let s1 = replace_every (word_at "True") "true" s in
    let s2 = replace_every (word_at "False") "false" s1 in
    let s3 = replace_every (word_at "None") "null" s2 in
    let s4 = replace_every (word_at "and") "&&" s3 in
    let s5 = replace_every (word_at "or") "||" s4 in replace_every (word_at "not") "!" s5

-- `^for\s+(\w+)\s+in\s+(.+)\s*$`: the variable, and what it runs over. Where only blanks follow `in`, the
-- last of two or more is taken for that.
unfoldable pub for_parts : String → Option (String × String)
unfolding span
for_parts s =
    let a = 3 + blanks (drop 3 s) in
    let b = a + span is_word (drop a s) in
    let c = b + blanks (drop b s) in
    let d = c + 2 in
    let e = d + blanks (drop d s) in
    let over = if ltb e (len s) then drop e s else drop (len s - 1) s in
    if ltb 3 a
      && (ltb a b
          && (ltb b c
              && (starts_with (drop c s) "in" && (ltb d e && (ltb e (len s) || ltb (d + 1) e)))))
    then some (slice s a b, over)
    else none

-- `range\((\d+)\)\s*$`: the number's digits.
unfoldable pub range_count : String → Option String
unfolding span
range_count s =
    let a = 6 + span is_digit (drop 6 s) in
    let rest = drop (a + 1) s in
    if starts_with s "range("
      && (ltb 6 a && (starts_with (drop a s) ")" && str_eq (drop (blanks rest) rest) ""))
    then some (slice s 6 a)
    else none

-- The head of a `for` block.
unfoldable pub for_head : String → String
unfolding for_parts range_count
for_head s = elim (for_parts s) [
  | none ↦ "{ /* for */ "
  | some (x, over) ↦ elim (range_count over) [
    | some n ↦ "for (let " +++ x +++ " = 0; " +++ x +++ " < " +++ n +++ "; " +++ x +++ "++) {"
    | none ↦ "for (const " +++ x +++ " of " +++ over +++ ") {"
  ]
]

-- The branches on the keyword of a block, its colon taken off.
unfoldable pub open_line : String → Line
unfolding for_head trim
open_line s =
    if starts_word "if" s
    then opener ("if (" +++ trim (without_word "if" s) +++ ") {")
    else (if starts_word "for" s
        then opener (for_head s)
        else (if starts_word "while" s
            then opener ("while (" +++ trim (without_word "while" s) +++ ") {")
            else (if starts_word "def" s
                then skipped
                else (if starts_word "try" s
                    then opener "try {"
                    else (if starts_word "with" s
                        then opener "{ /* with */"
                        else opener (s +++ " {"))))))

-- `print` in a comment
unfoldable pub silence : String → String
unfolding span
silence s =
    let n = 5 + blanks (drop 5 s) in
    let t = "/* print(" +++ drop (n + 1) s in
    if starts_with s "print" && starts_with (drop n s) "("
    then (if ends_with t ")" then slice t 0 (len t - 1) +++ ") */" else t)
    else s

-- The functions that the two languages name differently.
unfoldable pub translate_calls : String → String
unfolding replace_every
translate_calls s =
    let s1 = replace_every (call_at "abs") "Math.abs(" s in
    let s2 = replace_every (call_at "round") "Math.round(" s1 in
    let s3 = replace_every (call_at "int") "Math.trunc(" s2 in
    let s4 = replace_every (call_at "float") "parseFloat(" s3 in
    replace_every (call_at "len") "/* len( */0 /* ) */" s4

-- A statement: its calls, and a semicolon where it has none.
unfoldable pub statement_text : String → String
unfolding silence translate_calls
statement_text s =
    let t = translate_calls (silence s) in
    if ends_with t ";"
      || (ends_with t "{" || (ends_with t "}" || (starts_with t "//" || starts_with t "/*")))
    then t
    else t +++ ";"

-- `catch (spec || '_e')`, for `^except\s*`
unfoldable pub catch_text : String → String
unfolding span trim
catch_text s =
    let rest = drop 6 s in
    let spec = trim (without_colon (drop (blanks rest) rest)) in
    "catch(" +++ (if str_eq spec "" then "_e" else spec) +++ ") {"

-- The tests of the loop on a line without its comment, its words translated.
unfoldable pub code_line : String → Line
unfolding open_line statement_text catch_text trim
code_line s =
    if starts_word "elif" s
    then follower ("else if (" +++ trim (without_colon (without_word "elif" s)) +++ ") {")
    else (if starts_colon "else" s
        then follower "else {"
        else (if starts_word "except" s
            then follower (catch_text s)
            else (if starts_colon "finally" s
                then follower "finally {"
                else (if is_block_open s
                    then open_line (slice s 0 (len s - 1))
                    else statement (statement_text s)))))

-- A line: its indent, and what it is.
unfoldable pub read_line : String → ℕ × Line
unfolding get_indent code_line translate_words replace_every trim trim_end
read_line raw =
    let t = trim raw in
    let s = replace_every inline_comment "" t in
    let line = trim_end (len s) s in
    if str_eq t "" || starts_with t "#"
    then (get_indent raw, empty)
    else (if str_eq line ""
        then (get_indent raw, bare)
        else (get_indent raw, code_line (translate_words line)))
