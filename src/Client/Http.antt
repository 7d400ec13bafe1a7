-- ===== src/Client/Http.antt =====
-- What `fetch` comes to, and what the code makes of it. `show` is how JavaScript prints a number.
use vidhi_trading_platform.Prelude.{ℕ, String, ◌+++◌, str_eq, Option, none, some, if◌then◌else◌}

-- A response: the request was rejected, with the message of the error; it is not ok, with its status,
-- its status text, and the field `error` of its body if that is JSON; it is ok and its body is read;
-- or it is ok and reading the body throws.
pub data Response {ℓ} (A : Type ℓ) : Type ℓ where
  rejected : String → Response A
  not_ok : ℕ → String → Option String → Response A
  ok : A → Response A
  unreadable : String → Response A

-- A value, or an error with its message.
pub data Result {ℓ} (A : Type ℓ) : Type ℓ where
  value : A → Result A
  thrown : String → Result A

-- `a || b` on texts
abbrev pub or_else_text : String → String → String
or_else_text a b = if str_eq a "" then b else a

-- `const err = await res.json().catch(() => ({ error: res.statusText }))`, its field `error`.
abbrev pub body_error : String → Option String → String
body_error status_text none = status_text
body_error status_text (some e) = e

-- `throw new Error(err.error || `HTTP ${res.status}`)` where the response is not ok.
unfoldable pub read {ℓ} : {A : Type ℓ} → (ℕ → String) → Response A → Result A
read show (rejected message) = thrown message
read show (not_ok status text body) =
    thrown (or_else_text (body_error text body) ("HTTP " +++ show status))
read show (ok a) = value a
read show (unreadable message) = thrown message

-- The target of a request: `customBaseUrl || LOCAL_BASE`, a path, and the header `X-API-Key`.
pub record Request : Type 0 where
  pub url : String
  pub api_key : Option String

-- `key ? { 'X-API-Key': key } : {}`
abbrev pub key_header : String → Option String
key_header key = if str_eq key "" then none else some key

-- `get` and `post`, before the response; `base` is "" where none is given.
unfoldable pub request : String → String → String → String → Request
request local_base base path key = record {
  url = or_else_text base local_base +++ path;
  api_key = key_header key;
}
