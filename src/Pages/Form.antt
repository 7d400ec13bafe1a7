-- ===== src/Pages/Form.antt =====
-- `ContestCreator.jsx`: the form of a contest, its rounds and the upload of their datasets. The error of an
-- upload, which is only drawn, is left out.
pub mod Again
use vidhi_trading_platform.Prelude.{
  ℕ, zero, suc, ◌+◌, Bool, true, false, not, String, ◌+++◌, str_eq, starts_with, trim, List, [],
  ◌∷◌, ◌++◌, length, get_elem?, set, map, filter_by, find, Option, none, some, ◌||◌, if◌then◌else◌,
  pos,
}
use vidhi_trading_platform.Store.Types.{Round, Contest, Store, Browser}
use vidhi_trading_platform.Store.Contests.{get_contest}
use vidhi_trading_platform.Store.Server.{Reply, Names, DraftRound, Draft, create_contest}
use vidhi_trading_platform.Client.Http.{Result, value, thrown}

-- `BLANK_ROUND`, which has neither an id nor a status.
abbrev pub blank_round : String → DraftRound
blank_round name = record {
  id = none;
  status = none;
  round = record {
    id = "";
    name = name;
    description = "";
    status = "";
    tick_count = 100_000;
    tick_rate = 1;
    position_limit = 1000;
    starting_capital = 100_000;
    active_bots = some ("MM" ∷ "NOISE" ∷ []);
    bot_aggressiveness = "0.5";
    asset_name = "VIDHI-1";
    asset_base_price = pos 15_000_000;
    own_asset_name = "";
    base_price = pos 0;
    test_data_name = "";
    test_data_key = "";
    dataset_path = "";
    final_data_name = "";
    final_data_key = "";
    start_at = 0;
    end_at = 0;
  };
}

-- The form of a new contest.
abbrev pub blank_form : Draft
blank_form = record {
  id = none;
  name = "";
  description = "";
  status = none;
  created_at = none;
  ends_at = 0;
  max_participants = 100;
  participants = none;
  rounds = blank_round "Round 1" ∷ [];
}

-- `current.includes(botId)`
unfoldable pub has_bot : String → List String → Bool
has_bot bot [] = false
has_bot bot (b ∷ bs) = str_eq b bot || has_bot bot bs

-- `toggleBot`, on `round.activeBots || []`
unfoldable pub toggle_bot : String → List String → List String
unfolding has_bot
toggle_bot bot bots =
    if has_bot bot bots then filter_by (λ b. not (str_eq b bot)) bots else bots ++ (bot ∷ [])

-- `updateRound`: the rounds are those of the form that was drawn, the rest is the form's of now.
unfoldable pub update_round : Draft → ℕ → DraftRound → Draft → Draft
update_round drawn i r f = record f { rounds = set drawn.rounds i r }

unfoldable pub remove_at {ℓ} : {A : Type ℓ} → ℕ → List A → List A
remove_at i [] = []
remove_at zero (x ∷ xs) = xs
remove_at (suc i) (x ∷ xs) = x ∷ remove_at i xs

-- `deleteRound`
unfoldable pub delete_round : ℕ → Draft → Draft
unfolding remove_at
delete_round i f = record f { rounds = remove_at i f.rounds }

-- `addRound`; `show` is how JavaScript prints a number.
unfoldable pub add_round : (ℕ → String) → Draft → Draft
add_round show f = record f {
  rounds = f.rounds ++ (blank_round ("Round " +++ show (length f.rounds + 1)) ∷ []);
}

-- `{ ...saved }`
abbrev pub given_round : Round → DraftRound
given_round r = record { id = some r.id; status = some r.status; round = r }

abbrev pub given : Contest → Draft
given c = record {
  id = some c.id;
  name = c.name;
  description = c.description;
  status = some c.status;
  created_at = some c.created_at;
  ends_at = c.ends_at;
  max_participants = c.max_participants;
  participants = some c.participants;
  rounds = map given_round c.rounds;
}

abbrev pub form_after : Option Contest → Draft → Draft
form_after none f = f
form_after (some c) f = given c

abbrev pub with_status : Bool → Draft → Draft
with_status publish f = record f { status = some (if publish then "active" else "draft") }

-- `saveContest`: nothing without a name.
unfoldable pub save_contest :
    Browser → Names → Bool → Reply String → List (Reply String) → Draft × Store → Draft × Store
unfolding trim create_contest get_contest
save_contest b names publish reply replies (f, st) =
    let (i, st') = create_contest b names (with_status publish f) reply replies st in
    if str_eq (trim f.name) "" then (f, st) else (form_after (get_contest i st'.state) f, st')

-- The two datasets of a round.
pub data Dataset : Type 0 where
  test_data final_data : Dataset

abbrev pub named : Dataset → String → DraftRound → DraftRound
named test_data name r = record r { round = record (r.round) { test_data_name = name } }
named final_data name r = record r { round = record (r.round) { final_data_name = name } }

abbrev pub keyed : Dataset → String → DraftRound → DraftRound
keyed test_data key r = record r { round = record (r.round) { test_data_key = key } }
keyed final_data key r = record r { round = record (r.round) { final_data_key = key } }

-- `!round.id || !round.id.startsWith('round_')`
abbrev pub is_unpublished : DraftRound → Bool
is_unpublished r = elim r.id [ none ↦ true | some i ↦ not (starts_with i "round_") ]

-- The change of the file input up to the request, in the form that was drawn with this round: nothing but an
-- alert for a round with no id of the server.
unfoldable pub pick_file : Dataset → Draft → ℕ → DraftRound → Draft → Draft
unfolding update_round
pick_file which drawn i r f =
    if is_unpublished r then f else update_round drawn i (named which "Uploading..." r) f

-- The answer to the upload of a file of a name: the path of the dataset, or an error.
unfoldable pub finish_upload :
    Dataset → Draft → ℕ → DraftRound → String → Result String → Draft → Draft
unfolding update_round
finish_upload which drawn i r file_name (value path) f =
    update_round drawn i (keyed which path (named which file_name r)) f
finish_upload which drawn i r file_name (thrown m) f =
    update_round drawn i (named which "Upload Failed" r) f

abbrev is_finishing : Round → Bool
is_finishing r = str_eq r.status "active" || str_eq r.status "ended"

-- `handleFinalEvaluation` of `MonitorPanel`: the alert that it ends with. `trigger` is the request for a
-- round.
unfoldable pub final_evaluation : (String → Result Bool) → List Round → String
final_evaluation trigger rounds = elim (find is_finishing rounds) [
  | none ↦ "No round to evaluate."
  | some r ↦ elim (trigger r.id) [
    | value b ↦ "Final Evaluation started on backend! Monitor leaderboard for updates."
    | thrown m ↦ "Evaluation failed: " +++ m
  ]
]
