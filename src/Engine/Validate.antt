-- ===== src/Engine/Validate.antt =====
-- `_validateBackendPython`: the fields of `state` that a server has.
use Prim.Native.Char.{Char}
use vidhi_trading_platform.Sim.Transpile.Scan.{Pattern, is_word, is_digit, span, word_first, drop}
use vidhi_trading_platform.Prelude.{
  ℕ, zero, suc, ◌+◌, ◌-◌, ◌&&◌, len, slice, starts_with, join, Bool, not, true, false, String,
  ◌+++◌, str_eq, List, [], ◌∷◌, Option, none, some, filter_by, if◌then◌else◌,
}

-- `BACKEND_ALLOWED_STATE_FIELDS`
abbrev pub allowed_fields : List String
allowed_fields =
    "bid_price" ∷ "ask_price" ∷ "mid_price" ∷ "spread" ∷ "last_trade_price" ∷ "last_trade_volume"
    ∷ "underlying_signal" ∷ "volatility" ∷ "bid_depth" ∷ "ask_depth" ∷ "position" ∷ "cash" ∷ "pnl"
    ∷ "fill_count" ∷ "fills" ∷ "ema_fast" ∷ "ema_slow" ∷ "tick_count" ∷ "my_position" ∷ "s0" ∷ "s1"
    ∷ "s2" ∷ "s3" ∷ "s4" ∷ "s5" ∷ "s6" ∷ "s7" ∷ []

unfoldable pub has_text : String → List String → Bool
has_text x [] = false
has_text x (y ∷ ys) = if str_eq y x then true else has_text x ys

-- `[...new Set(xs)]`, which keeps the first of equal ones.
unfoldable pub distinct_after : List String → List String → List String
unfolding has_text
distinct_after seen [] = []
distinct_after seen (x ∷ xs) =
    if has_text x seen then distinct_after seen xs else x ∷ distinct_after (x ∷ seen) xs

abbrev pub unsupported_fields : List String → List String
unsupported_fields fields =
    distinct_after [] (filter_by (λ f. not (has_text f allowed_fields)) fields)

-- The message for the fields that are not allowed.
unfoldable pub unsupported_message : List String → Option String
unfolding join
unsupported_message [] = none
unsupported_message (f ∷ fs) = some (
    "Unsupported backend state field(s): "
    +++ join ", " (f ∷ fs)
    +++ ". Use SDK fields like state.position, state.tick_count, state.ema_fast / state.ema_slow, or custom slots state.s0..state.s7.")

-- The first letter of a name, `[A-Za-z_]`
abbrev pub is_letter : Char → Bool
is_letter c = is_word c && not (is_digit c)

abbrev pub letter_first : String → Bool
letter_first String.[] = false
letter_first (String.◌∷◌ c s) = is_letter c

-- `\bstate\.([A-Za-z_][A-Za-z0-9_]*)\b` at a place, after the letter before it. The name takes all letters of `\w`
-- that follow, so its end is always one of a word.
abbrev pub field_at : Pattern
unfolding span
field_at before s =
    if starts_with s "state." && (not (word_first before) && letter_first (drop 6 s))
    then some (6 + span is_word (drop 6 s))
    else none

-- The names of all matches, `code.matchAll(...)`, with the bytes left to skip of a match and the letter before.
unfoldable pub fields_from : ℕ → String → String → List String
unfolding span
fields_from skip before String.[] = []
fields_from (suc k) before (String.◌∷◌ c s) =
    fields_from (suc k - len (String.◌∷◌ c "")) (String.◌∷◌ c "") s
fields_from zero before (String.◌∷◌ c s) = elim (field_at before (String.◌∷◌ c s)) [
  | some n ↦
      slice (String.◌∷◌ c s) 6 n ∷ fields_from (n - len (String.◌∷◌ c "")) (String.◌∷◌ c "") s
  | none ↦ fields_from 0 (String.◌∷◌ c "") s
]

-- The fields of `state` that a text names, in their order.
unfoldable pub state_fields : String → List String
unfolding fields_from
state_fields code = fields_from 0 "" code

-- `_validateBackendPython`: nothing, or the message.
unfoldable pub validate_backend_python : String → Option String
unfolding unsupported_message has_text distinct_after state_fields
validate_backend_python code = unsupported_message (unsupported_fields (state_fields code))
