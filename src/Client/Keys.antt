-- ===== src/Client/Keys.antt =====
-- The API key in the browser's storage.
use vidhi_trading_platform.Prelude.{String, str_eq, Option, none, some, if◌then◌else◌}
use vidhi_trading_platform.Client.Http.{Response, ok}

-- `getApiKey`, on what the storage has.
unfoldable pub get_api_key : Option String → String
get_api_key none = ""
get_api_key (some key) = key

-- `setApiKey`; an empty key, or `null`, removes the entry.
unfoldable pub set_api_key : String → Option String → Option String
set_api_key key stored = if str_eq key "" then none else some key

-- `autoProvisionApiKey`: the key that it returns, and the storage. A key that is there is kept.
unfoldable pub auto_provision : Response String → Option String → Option String × Option String
unfolding get_api_key set_api_key
auto_provision answer stored =
    let provisioned : Option String × Option String = elim answer [
      | ok key ↦ (some key, set_api_key key stored)
      | _ ↦ (none, stored)
    ] in
    if str_eq (get_api_key stored) "" then provisioned else (some (get_api_key stored), stored)
