-- ===== src/Engine/Submit.antt =====
-- `_failBeforeRun`, `_startCloudRun` and `_startBackendRun`: runs on a server.
use vidhi_trading_platform.Prelude.{
  includes, ℕ, Bool, ◌||◌, true, false, String, ◌+++◌, str_eq, Option, none, some, if◌then◌else◌,
}
use vidhi_trading_platform.Store.Types.{State, Store, Browser}
use vidhi_trading_platform.Store.Student.{or_text}
use vidhi_trading_platform.Store.Board.{get_active_contest, get_active_round_id}
use vidhi_trading_platform.Client.Http.{Response, Result, value, thrown}
use vidhi_trading_platform.Client.Keys.{auto_provision}
use vidhi_trading_platform.Client.Requests.{submit_code}
use vidhi_trading_platform.Engine.Types.{Status, Mode, backend_mode, cloud_mode, Engine}
use vidhi_trading_platform.Engine.Shown.{nothing_shown}
use vidhi_trading_platform.Engine.Notify.{set_status, log, tell_states, tell_complete}
use vidhi_trading_platform.Engine.Telemetry.{or_value}
use vidhi_trading_platform.Engine.Messages.{Texts, World}
use vidhi_trading_platform.Engine.Config.{Options, bot_config_text, find_round}
use vidhi_trading_platform.Engine.Validate.{validate_backend_python}

-- What `submitCode` is given.
pub record RunRequest : Type 0 where
  pub code : String
  pub is_practice : Bool
  pub user_id : String
  pub round_id : String
  pub bot_config : String
  pub base : String

-- What a run on a server meets: whether the local server is up, the answers to the requests for a key
-- and a run, with those of a second try, and the base that the build was given. `slug` is
-- how a name becomes an id.
pub record Backend : Type 0 where
  pub local_up : Bool
  pub key : String → Response String
  pub submit : RunRequest → Response String
  pub key_again : String → Response String
  pub submit_again : RunRequest → Response String
  pub cloud_base : String
  pub slug : String → String

-- `_failBeforeRun`
unfoldable pub fail_before_run : String → Engine → Engine
unfolding set_status log
fail_before_run message e =
    let shown = record nothing_shown {
      status = some "error";
      error_message = some message;
      is_done = true;
      code = some e.current_code;
    } in
    let e1 = set_status Status.error (record e { is_simulating = false }) in
    tell_states shown
      (tell_complete shown (log ("[ERROR] " +++ message) (record e1 { last_state = some shown })))

-- `worker.onerror`
unfoldable pub worker_crashed : String → Engine → Engine
unfolding fail_before_run
worker_crashed message e = fail_before_run ("Worker crashed: " +++ message) e

-- `_connectWS` and `_disconnectWS`
unfoldable pub connect_ws : Engine → Engine
connect_ws e = record e { socket_open = true }

unfoldable pub disconnect_ws : Engine → Engine
disconnect_ws e = record e { socket_open = false }

-- The first try of `submitCode`, and the second where `retries` holds of the error's message; with the
-- storage of the API key before and after, and whether there was a second.
unfoldable pub submit_twice :
    (ℕ → String) → Backend → RunRequest → Option String → Result String × Option String × Bool
submit_twice show k r stored =
    let (_, stored1) = auto_provision (k.key r.user_id) stored in
    let (first, stored2) = submit_code show (k.submit r) stored1 in
    let (_, stored3) = auto_provision (k.key_again r.user_id) stored2 in
    let (second, stored4) = submit_code show (k.submit_again r) stored3 in
    elim first [
      | value run_id ↦ (value run_id, stored2, false)
      | thrown message ↦
          if includes message "401" || includes message "invalid or expired"
          then (second, stored4, true)
          else (thrown message, stored2, false)
    ]

abbrev pub is_network_error : String → Bool
is_network_error m = str_eq m "Failed to fetch" || (includes m "NetworkError" || includes m "CORS")

-- The storage of the API key goes along with the engine and the store.
abbrev pub Stage : Type 0
Stage = World × Option String

abbrev pub on_engine : (Engine → Engine) → Stage → Stage
on_engine f ((e, st), key) = ((f e, st), key)

-- What a server run does once the submission came to its end.
unfoldable pub submitted : Mode → Bool → String → Result String → Engine → Engine
unfolding log fail_before_run
submitted cloud_mode again base (value run_id) e =
    let e1 = if again then log "[AUTH] API key expired, provisioning new one..." e else e in
    log "[CLOUD] AST scan → transpile → Numba AOT → C++ Game Master (AWS)..." (
      log ("[CLOUD] Run ID: " +++ run_id +++ " — pipeline started on AWS")
        (record e1 { current_run_id = run_id }))
submitted cloud_mode true base (thrown m) e =
    fail_before_run ("Cloud submit failed: " +++ m)
      (log "[AUTH] API key expired, provisioning new one..." e)
submitted cloud_mode false base (thrown m) e =
    fail_before_run
      (if is_network_error m
        then "Cloud connection failed (CORS/Network): Cannot reach " +++ base
          +++ "\n\nThis usually means the AWS ALB is not running or is blocking cross-origin requests from the S3 site.\nCheck: Is the backend ECS service running? Does the ALB have CORS headers set?"
        else "Cloud submit failed: " +++ m)
      e
submitted _ again base (value run_id) e =
    let e1 =
      if again then log "[AUTH] API key expired, provisioning new one and retrying..." e else e in
    log "[FORGE] AST scan → transpile → Numba AOT → Game Master..." (
      log ("[FORGE] Run ID: " +++ run_id +++ " — pipeline started")
        (record e1 { current_run_id = run_id }))
submitted _ again base (thrown m) e =
    let e1 =
      if again then log "[AUTH] API key expired, provisioning new one and retrying..." e else e in
    fail_before_run ("Backend submit failed: " +++ m) e1

abbrev pub cloud_fallback : String
cloud_fallback = "http://vidhi-alb-141110176.us-east-1.elb.amazonaws.com"

abbrev pub is_no_base : String → Bool
is_no_base base = str_eq base "" || str_eq base "/api"

abbrev pub cloud_base_of : Backend → String
cloud_base_of k = if is_no_base k.cloud_base then cloud_fallback +++ "/api" else k.cloud_base

-- `storeState.studentId || (storeState.studentName ? … : 'anonymous')`
abbrev pub user_id_of : (String → String) → State → String
user_id_of slug s =
    or_text s.student_id (if str_eq s.student_name "" then "anonymous" else slug s.student_name)

-- The request of a run on a server, and the store: the active round is asked for first.
unfoldable pub run_request : Browser → Backend → String → Bool → String → Store → RunRequest × Store
unfolding bot_config_text
run_request b k code practice base st =
    let (active, st1) = get_active_round_id b st in
    let round_id = or_text (or_value active "") "round1" in
    let (contest, st2) = get_active_contest b st1 in
    (
      record {
        code = code;
        is_practice = practice;
        user_id = user_id_of k.slug st.state;
        round_id = round_id;
        bot_config = elim (find_round round_id contest) [
          | none ↦ ""
          | some r ↦ bot_config_text "" r
        ];
        base = base;
      },
      st2,
    )

-- The part that both server runs have.
unfoldable pub submit_run :
    Texts → Mode → Browser → Backend → String → Bool → String → Stage → Stage
unfolding submitted
submit_run texts mode b k code practice base ((e, st), key) =
    let (request, st') = run_request b k code practice base st in
    let (result, key', again) = submit_twice texts.show k request key in
    ((submitted mode again base result e, st'), key')

-- `_startCloudRun`
unfoldable pub start_cloud_run : Texts → Browser → Backend → String → Stage → Stage
unfolding log connect_ws fail_before_run validate_backend_python
start_cloud_run texts b k code s =
    let base = cloud_base_of k in
    let target =
      if is_no_base k.cloud_base
      then "[CLOUD] VITE_CLOUD_API_URL not set — using hardcoded ALB: " +++ cloud_fallback
      else "[CLOUD] Target: " +++ base in
    let s1 = on_engine (log target) s in
    elim (validate_backend_python code) [
      | some message ↦ on_engine (fail_before_run message) s1
      | none ↦ submit_run texts cloud_mode b k code true base (
          on_engine
            (λ e.
              log ("[CLOUD] Submitting to " +++ base +++ "/submit ...")
                (connect_ws (log "[CLOUD] Connecting WebSocket telemetry to AWS..." e)))
            s1)
    ]

-- `_startBackendRun`
unfoldable pub start_backend_run : Texts → Browser → Backend → String → Options → Stage → Stage
unfolding log connect_ws fail_before_run validate_backend_python
start_backend_run texts b k code options s = elim (validate_backend_python code) [
  | some message ↦ on_engine (fail_before_run message) s
  | none ↦ submit_run texts backend_mode b k code options.is_practice "" (
      on_engine (λ e. log "[FORGE] Submitting to local backend forge pipeline..." (connect_ws e)) s)
]
