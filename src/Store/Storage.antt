-- ===== src/Store/Storage.antt =====
-- The constructor, `_load`, `_save`, `subscribe` and `reset`. JSON writes the elements of an array and none
-- of its other properties, so the result at "-1" of a participant is lost in a text; a hole becomes null, which
-- is no result either.
pub mod Reload
pub mod Kept
use vidhi_trading_platform.Prelude.{
  ℕ, ◌==◌, false, not, [], ◌∷◌, ◌++◌, map, Option, none, some, filter_by, find, if◌then◌else◌,
}
use vidhi_trading_platform.Store.Types.{
  Participant, Contest, State, Stored, written, broken, Store, Browser, default_state,
}

-- What JSON keeps of a participant, of a contest and of the state.
unfoldable pub json_participant : Participant → Participant
json_participant p = record p { result_outside = none }

unfoldable pub json_contest : Contest → Contest
unfolding json_participant
json_contest c = record c { participants = map json_participant c.participants }

unfoldable pub json_state : State → State
unfolding json_contest
json_state s = record s { contests = map json_contest s.contests }

-- `_load`: what is stored, or the defaults where nothing is or where it cannot be read.
unfoldable pub load : Option Stored → State
unfolding json_state
load none = default_state
load (some (written s)) = json_state s
load (some broken) = default_state

-- A page load, on what the browser has stored.
unfoldable pub boot : Option Stored → Store
unfolding load
boot storage = record {
  state = load storage;
  storage = storage;
  listeners = [];
  notices = [];
  socket_open = false;
  telemetry_buffer = [];
  timer_set = false;
}

-- `_save`: write if it fits, and tell the listeners in either case.
unfoldable pub save : Browser → Store → Store
unfolding json_state
save b st = record st {
  storage = if b.fits st.state then some (written (json_state st.state)) else st.storage;
  notices = st.notices ++ map (λ i. (i, st.state)) st.listeners;
}

-- `subscribe`: a set of listeners, the new one told at once.
unfoldable pub subscribe : ℕ → Store → Store
subscribe i st = record st {
  listeners = elim (find (λ j. j == i) st.listeners) [
    | none ↦ st.listeners ++ (i ∷ [])
    | some j ↦ st.listeners
  ];
  notices = st.notices ++ ((i, st.state) ∷ []);
}

-- What `subscribe` returns.
unfoldable pub unsubscribe : ℕ → Store → Store
unsubscribe i st = record st { listeners = filter_by (λ j. not (j == i)) st.listeners }

-- A change of the state that is then saved, as nearly every operation ends.
unfoldable pub change : Browser → State → Store → Store
unfolding save
change b s st = save b (record st { state = s })

-- `reset`
unfoldable pub reset : Browser → Store → Store
unfolding change
reset b st = change b default_state st
