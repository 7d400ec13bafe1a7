-- ===== src/Store/Storage/Kept.antt =====
-- The storage always holds what JSON keeps of the state.
use vidhi_trading_platform.Prelude.{
  ℕ, true, String, List, [], ◌∷◌, Option, some, if◌then◌else◌, ◌≡◌, refl, Option, map, ap, ◌∙◌,
}
use vidhi_trading_platform.Store.Types.{
  Run, Participant, Contest, State, Stored, written, Store, Browser,
}
use vidhi_trading_platform.Store.Storage.{
  json_participant, json_contest, json_state, load, reset, subscribe, unsubscribe,
}
use vidhi_trading_platform.Store.Contests.{
  update_contest, publish_contest, end_contest, delete_contest,
}
use vidhi_trading_platform.Store.Student.{
  join_contest, leave_contest, save_last_code, RoundResult, record_result, add_run_history,
}
use vidhi_trading_platform.Store.Board.{get_active_contest}
use vidhi_trading_platform.Store.Telemetry.{
  TickMessage, connect_telemetry, on_connect, on_disconnect, on_message, on_timer,
  disconnect_telemetry,
}

-- What the pages, the websocket and the timer ask of the store. `getActiveRoundId` is not among it,
-- since it does not save.
pub data Action : Type 0 where
  update : String → (Contest → Contest) → Action
  publish_it end_it delete join : String → Action
  leave clear activate connect connected disconnected fired disconnect : Action
  keep_code : String → Action
  record_it : RoundResult → Action
  add_run : Run → Action
  receive : TickMessage → Action
  listen unlisten : ℕ → Action

unfoldable pub act : Browser → Action → Store → Store
act b (update i f) st = update_contest b i f st
act b (publish_it i) st = publish_contest b i st
act b (end_it i) st = end_contest b i st
act b (delete i) st = delete_contest b i st
act b (join i) st = (join_contest b i st).1
act b leave st = leave_contest b st
act b clear st = reset b st
act b activate st = (get_active_contest b st).1
act b connect st = connect_telemetry b st
act b connected st = on_connect b st
act b disconnected st = on_disconnect b st
act b fired st = on_timer b st
act b disconnect st = disconnect_telemetry st
act b (keep_code code) st = save_last_code b code st
act b (record_it r) st = record_result b r st
act b (add_run run) st = add_run_history b run st
act b (receive m) st = on_message m st
act b (listen i) st = subscribe i st
act b (unlisten i) st = unsubscribe i st

-- Actions one after the other, each at its time.
unfoldable pub act_all : Browser → List (ℕ × Action) → Store → Store
act_all b [] st = st
act_all b ((t, a) ∷ as') st = act_all b as' (act (record b { now = t }) a st)

json_participant_again :
    (ps : List Participant)
    → map json_participant (map json_participant ps) ≡ map json_participant ps
unfolding json_participant
json_participant_again [] = refl
json_participant_again (p ∷ ps) = ap (λ qs. json_participant p ∷ qs) (json_participant_again ps)

json_contest_again :
    (cs : List Contest) → map json_contest (map json_contest cs) ≡ map json_contest cs
unfolding json_contest
json_contest_again [] = refl
json_contest_again (c ∷ cs) =
    ap (λ ps. record c { participants = ps } ∷ map json_contest (map json_contest cs))
      (json_participant_again c.participants)
    ∙ ap (λ ds. json_contest c ∷ ds) (json_contest_again cs)

json_state_again : (s : State) → json_state (json_state s) ≡ json_state s
unfolding json_state
json_state_again s = ap (λ cs. record s { contests = cs }) (json_contest_again s.contests)

-- A page load would give back what JSON keeps of the state.
abbrev pub IsKept : Store → Type 0
IsKept st = load st.storage ≡ json_state st.state

module _ (b : Browser) (fits : (s : State) → b.fits s ≡ true) where
  pub load_written :
      (s : State) (o : Option Stored)
      → load (if b.fits s then some (written (json_state s)) else o) ≡ json_state s
  unfolding load
  load_written s o = rw (fits s) (json_state_again s)
