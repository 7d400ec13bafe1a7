-- ===== src/Prelude/Text.antt =====
-- The methods of JavaScript's texts that the source uses, on ASCII letters where they change case.
use Prim.Native.Nat.{ℕ, zero, suc, ◌+◌, ◌-◌}
use Prim.Native.String.{String, ◌++◌ as ◌+++◌, len, slice}
use mathlib.Core.Path.{◌≡◌, refl}
use mathlib.Core.Bool.{Bool, ◌&&◌, ◌||◌, true, false}
use mathlib.Core.List.{List, [], ◌∷◌}
use mathlib.Core.Option.{none, some}
use text.Mathlib.Text.{◌==◌ as str_eq, find?}
use vidhi_trading_platform.Prelude.Tests.{leb, if◌then◌else◌}

-- `s.endsWith(t)`
abbrev pub ends_with : String → String → Bool
ends_with s t = leb (len t) (len s) && str_eq (slice s (len s - len t) (len s)) t

-- `s.includes(t)`
abbrev pub includes : String → String → Bool
includes s t = elim (find? s t) [ none ↦ false | some i ↦ true ]

-- `s.split(sep)`, for a separator that is not empty, with the pieces left counted: a text has at most one
-- piece more than bytes.
unfoldable pub pieces : ℕ → String → String → List String
pieces zero sep s = s ∷ []
pieces (suc n) sep s = elim (find? s sep) [
  | none ↦ s ∷ []
  | some i ↦ slice s 0 i ∷ pieces n sep (slice s (i + len sep) (len s))
]

unfoldable pub split : String → String → List String
unfolding pieces
split sep s = pieces (len s) sep s

-- `xs.join(sep)`
unfoldable pub join : String → List String → String
join sep [] = ""
join sep (x ∷ []) = x
join sep (x ∷ y ∷ ys) = x +++ sep +++ join sep (y ∷ ys)

-- `s.replace(/t/g, u)`
unfoldable pub replace_all : String → String → String → String
unfolding split join
replace_all t u s = join u (split t s)

abbrev pub is_blank_at : ℕ → String → Bool
is_blank_at i s =
    let c = slice s i (i + 1) in str_eq c " " || (str_eq c "\n" || (str_eq c "\t" || str_eq c "\r"))

unfoldable pub trim_start : ℕ → String → String
trim_start zero s = s
trim_start (suc n) s =
    let rest = trim_start n (slice s 1 (len s)) in if is_blank_at 0 s then rest else s

unfoldable pub trim_end : ℕ → String → String
trim_end zero s = s
trim_end (suc n) s =
    let rest = trim_end n (slice s 0 (len s - 1)) in if is_blank_at (len s - 1) s then rest else s

-- `s.trim()`
unfoldable pub trim : String → String
unfolding trim_start trim_end
trim s = let t = trim_start (len s) s in trim_end (len t) t

abbrev pub letters : List (String × String)
letters =
    ("a", "A")
    ∷ ("b", "B")
    ∷ ("c", "C")
    ∷ ("d", "D")
    ∷ ("e", "E")
    ∷ ("f", "F")
    ∷ ("g", "G")
    ∷ ("h", "H")
    ∷ ("i", "I")
    ∷ ("j", "J")
    ∷ ("k", "K")
    ∷ ("l", "L")
    ∷ ("m", "M")
    ∷ ("n", "N")
    ∷ ("o", "O")
    ∷ ("p", "P")
    ∷ ("q", "Q")
    ∷ ("r", "R")
    ∷ ("s", "S")
    ∷ ("t", "T")
    ∷ ("u", "U")
    ∷ ("v", "V")
    ∷ ("w", "W")
    ∷ ("x", "X")
    ∷ ("y", "Y")
    ∷ ("z", "Z")
    ∷ []

unfoldable pub to_upper : List (String × String) → String → String
unfolding replace_all
to_upper [] s = s
to_upper ((small, big) ∷ rest) s = to_upper rest (replace_all small big s)

unfoldable pub to_lower : List (String × String) → String → String
unfolding replace_all
to_lower [] s = s
to_lower ((small, big) ∷ rest) s = to_lower rest (replace_all big small s)

trimmed : trim " a b\n" ≡ "a b"
unfolding trim
trimmed = refl

raised : to_upper letters "mMr x" ≡ "MMR X"
unfolding to_upper
raised = refl

parted : split "," "a,,b" ≡ "a" ∷ "" ∷ "b" ∷ []
unfolding split
parted = refl
