-- ===== src/Client/Requests.antt =====
-- The calls of the server's interface.
use vidhi_trading_platform.Prelude.{
  includes, ℕ, ◌==◌, Bool, ◌||◌, false, String, ◌+++◌, str_eq, Option, if◌then◌else◌,
}
use vidhi_trading_platform.Client.Http.{Response, not_ok, Result, value, thrown, body_error, read}
use vidhi_trading_platform.Client.Keys.{set_api_key}

pub record Health : Type 0 where
  pub status : String
  pub db : String
  pub redis : String

abbrev pub is_up : Health → Bool
is_up h = str_eq h.status "ok" || (str_eq h.db "ok" || str_eq h.redis "ok")

-- `checkBackendHealth`
unfoldable pub check_backend_health : (ℕ → String) → Response Health → Bool
unfolding read
check_backend_health show answer = elim (read show answer) [ value h ↦ is_up h | thrown _ ↦ false ]

-- `checkCloudHealth`, on the base that the build was given.
unfoldable pub check_cloud_health : (ℕ → String) → String → Response Health → Bool
unfolding check_backend_health
check_cloud_health show cloud_base answer =
    if str_eq cloud_base "" || str_eq cloud_base "/api"
    then false
    else check_backend_health show answer

-- `submitCode`: the run's id or the error, and the storage of the key.
unfoldable pub submit_code :
    (ℕ → String) → Response String → Option String → Result String × Option String
unfolding read set_api_key
submit_code show answer stored = (
  read show answer,
  elim answer [
    | not_ok status text body ↦
        if status == 401 || includes (body_error text body) "invalid or expired"
        then set_api_key "" stored
        else stored
    | _ ↦ stored
  ],
)

-- The path of `fetchLeaderboard`; `encode` is how `URLSearchParams` writes a value.
unfoldable pub leaderboard_path : (String → String) → String → String → String
leaderboard_path encode round_id phase =
    let round = "round_id=" +++ encode round_id in
    let stage = "phase=" +++ encode phase in
    if str_eq round_id ""
    then (if str_eq phase "" then "/leaderboard" else "/leaderboard?" +++ stage)
    else (if str_eq phase ""
        then "/leaderboard?" +++ round
        else "/leaderboard?" +++ round +++ "&" +++ stage)

-- `downloadRunLog` and `downloadRunCode`: the file that the browser is given, its content and name.
unfoldable pub download {ℓ} :
    {A : Type ℓ} → (ℕ → String) → String → String → Response A → Result (A × String)
unfolding read
download show run_id extension answer = elim (read show answer) [
  | value blob ↦ value (blob, run_id +++ extension)
  | thrown message ↦ thrown message
]

-- The path of `uploadRoundDataset`.
unfoldable pub dataset_path : String → Bool → String
dataset_path round_id is_final =
    "/rounds/" +++ round_id +++ (if is_final then "/final-dataset" else "/dataset")
