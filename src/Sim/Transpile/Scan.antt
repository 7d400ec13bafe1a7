-- ===== src/Sim/Transpile/Scan.antt =====
-- The regular expressions of `_transpile`: a pattern is a function from the letter before a place and the
-- text from there on to the length of what it matches. Blanks are the ASCII ones, and a line ends in "\n".
use Prim.Native.Char.{Char, code}
use vidhi_trading_platform.Prelude.{
  ℕ, zero, suc, ◌+◌, ◌-◌, Bool, false, not, ◌&&◌, ◌||◌, String, ◌+++◌, len, slice, str_eq,
  starts_with, includes, find?, Option, some, none, ltb, leb, if◌then◌else◌,
}

abbrev pub Pattern : Type 0
Pattern = String → String → Option ℕ

-- `\w` and `\d` of a letter
abbrev pub is_digit : Char → Bool
is_digit c = leb b'0' (code c) && leb (code c) b'9'

abbrev pub is_word : Char → Bool
is_word c =
    (leb b'a' (code c) && leb (code c) b'z')
    || ((leb b'A' (code c) && leb (code c) b'Z') || (is_digit c || str_eq (String.◌∷◌ c "") "_"))

abbrev pub is_blank : Char → Bool
is_blank c =
    let s = String.◌∷◌ c "" in str_eq s " " || (str_eq s "\n" || (str_eq s "\t" || str_eq s "\r"))

-- How many bytes of a text pass a test from its start on.
unfoldable pub span : (Char → Bool) → String → ℕ
span p String.[] = 0
span p (String.◌∷◌ c s) = let n = span p s in if p c then len (String.◌∷◌ c "") + n else 0

abbrev pub blanks : String → ℕ
unfolding span
blanks s = span is_blank s

abbrev pub drop : ℕ → String → String
drop n s = slice s n (len s)

-- Whether a letter of `\w` stands at the start.
abbrev pub word_first : String → Bool
word_first String.[] = false
word_first (String.◌∷◌ c s) = is_word c

-- `\bw\b` at a place
abbrev pub word_at : String → Pattern
word_at w before s =
    if starts_with s w && (not (word_first before) && not (word_first (drop (len w) s)))
    then some (len w)
    else none

-- `\bw\s*\(` at a place
abbrev pub call_at : String → Pattern
unfolding span
call_at w before s =
    let n = len w + blanks (drop (len w) s) in
    if starts_with s w && (not (word_first before) && starts_with (drop n s) "(")
    then some (n + 1)
    else none

-- `s.replace(/.../g, u)`, with the bytes left to skip of a match and the letter before.
unfoldable pub replace_from : Pattern → String → ℕ → String → String → String
replace_from m u skip before String.[] = ""
replace_from m u (suc k) before (String.◌∷◌ c s) =
    replace_from m u (suc k - len (String.◌∷◌ c "")) (String.◌∷◌ c "") s
replace_from m u zero before (String.◌∷◌ c s) = elim (m before (String.◌∷◌ c s)) [
  | some n ↦ u +++ replace_from m u (n - len (String.◌∷◌ c "")) (String.◌∷◌ c "") s
  | none ↦ String.◌∷◌ c "" +++ replace_from m u 0 (String.◌∷◌ c "") s
]

unfoldable pub replace_every : Pattern → String → String → String
unfolding replace_from
replace_every m u s = replace_from m u 0 "" s

-- `s.replace(/.../, u)`: the first match only.
unfoldable pub replace_first_from : Pattern → String → String → String → String
replace_first_from m u before String.[] = ""
replace_first_from m u before (String.◌∷◌ c s) = elim (m before (String.◌∷◌ c s)) [
  | some n ↦ u +++ drop n (String.◌∷◌ c s)
  | none ↦ String.◌∷◌ c "" +++ replace_first_from m u (String.◌∷◌ c "") s
]

-- The bytes up to the next of a text, all where it is not there.
abbrev pub up_to : String → String → ℕ
up_to t s = elim (find? s t) [ some i ↦ i | none ↦ len s ]

-- `"""[\s\S]*?"""`, for the quotes given
abbrev pub quoted : String → Pattern
quoted q before s =
    let rest = drop (len q) s in
    if starts_with s q
    then elim (find? rest q) [ some i ↦ some (len q + i + len q) | none ↦ none ]
    else none

-- `@\w+[^\n]*`
abbrev pub decorator : Pattern
decorator before s =
    if starts_with s "@" && word_first (drop 1 s) then some (up_to "\n" s) else none

abbrev pub at_line_start : String → Bool
at_line_start before = str_eq before "" || str_eq before "\n"

-- `^from\s+\S+\s+import.*$`
abbrev pub from_import : Pattern
unfolding span
from_import before s =
    let a = blanks (drop 4 s) in
    let b = span (λ c. not (is_blank c)) (drop (4 + a) s) in
    let c = blanks (drop (4 + a + b) s) in
    let n = 4 + a + b + c in
    if at_line_start before
      && (starts_with s "from"
          && (ltb 0 a && (ltb 0 b && (ltb 0 c && starts_with (drop n s) "import"))))
    then some (n + up_to "\n" (drop n s))
    else none

-- `^import\s+.*$`
abbrev pub plain_import : Pattern
unfolding span
plain_import before s =
    let a = blanks (drop 6 s) in
    if at_line_start before && (starts_with s "import" && ltb 0 a)
    then some (6 + a + up_to "\n" (drop (6 + a) s))
    else none

-- `^def\s+on_tick\s*\([^)]*\)\s*:`
abbrev pub on_tick_def : Pattern
unfolding span
on_tick_def before s =
    let a = blanks (drop 3 s) in
    let b = 3 + a + 7 in
    let c = b + blanks (drop b s) in
    let d = c + up_to ")" (drop c s) in
    let e = d + 1 + blanks (drop (d + 1) s) in
    if at_line_start before
      && (starts_with s "def"
          && (ltb 0 a
              && (starts_with (drop (3 + a) s) "on_tick"
                  && (starts_with (drop c s) "("
                      && (ltb d (len s) && starts_with (drop e s) ":")))))
    then some (e + 1)
    else none

-- `#[^'"\n]*$`
abbrev pub inline_comment : Pattern
inline_comment before s =
    if starts_with s "#" && not (includes s "'" || (includes s "\"" || includes s "\n"))
    then some (len s)
    else none
