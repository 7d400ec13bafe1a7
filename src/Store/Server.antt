-- ===== src/Store/Server.antt =====
-- What the store asks of the server: `fetchContestsFromServer`, `setRole` and `createContest`. The
-- answers are parameters.
pub mod Created
use vidhi_trading_platform.Prelude.{
  ℕ, zero, suc, ◌+◌, Bool, true, false, not, String, str_eq, List, [], ◌∷◌, ◌++◌, Option, none,
  some, find, if◌then◌else◌,
}
use vidhi_trading_platform.Store.Types.{Round, Participant, Contest, State, Store, Browser}
use vidhi_trading_platform.Store.Storage.{change, save}
use vidhi_trading_platform.Store.Contests.{has_id, update_first, get_contest}

-- What `tryFetch` returns: nothing where the request or the parsing fails, an array of contests, or
-- some other value.
pub data Fetched : Type 0 where
  failed other : Fetched
  contests_of : List Contest → Fetched

-- `cloudData || localData`
abbrev pub or_fetched : Fetched → Fetched → Fetched
or_fetched failed b = b
or_fetched other b = other
or_fetched (contests_of cs) b = contests_of cs

-- `fetchContestsFromServer`
unfoldable pub fetch_contests : Browser → Fetched → Fetched → Store → Store
unfolding change
fetch_contests b local cloud st = elim (or_fetched cloud local) [
  | contests_of cs ↦ change b (record (st.state) { contests = cs }) st
  | _ ↦ st
]

-- The answer to a POST: one that is read, one that is not `ok`, or none since the request, or the
-- parsing of its answer, throws.
pub data Reply {ℓ} (A : Type ℓ) : Type ℓ where
  answered : A → Reply A
  refused thrown : Reply A

-- The part of `setRole` that asks for an API key: `localStorage` keeps the key on its own as well.
unfoldable pub take_key : Browser → Reply String → Store → Store
unfolding save
take_key b (answered key) st =
    save b (record st { state = record (st.state) { student_api_key = key } })
take_key b refused st = save b st
take_key b thrown st = st

-- The part of `setRole` that registers a contestant.
unfoldable pub register : Browser → Reply String → Reply String → Store → Store
unfolding take_key
register b (answered i) key st =
    take_key b key (record st { state = record (st.state) { student_id = i } })
register b _ key st = st

-- `setRole`
unfoldable pub set_role :
    Browser → String → String → String → Reply String → Reply String → Store → Store
unfolding change
set_role b role name team user key st =
    let st' =
      change b (record (st.state) { role = role; student_name = name; student_team = team }) st in
    if str_eq role "student" then (if str_eq name "" then st' else register b user key st') else st'

-- What the page hands to `createContest`: the fields that it may lack are `none`. A draft always has
-- its rounds, as the form of the page does.
pub record DraftRound : Type 0 where
  pub id : Option String
  pub status : Option String
  pub round : Round

pub record Draft : Type 0 where
  pub id : Option String
  pub name : String
  pub description : String
  pub status : Option String
  pub created_at : Option ℕ
  pub ends_at : ℕ
  pub max_participants : ℕ
  pub participants : Option (List Participant)
  pub rounds : List DraftRound

-- `{ key: default, ...data }`
abbrev pub or_given {ℓ} : {A : Type ℓ} → Option A → A → A
or_given none d = d
or_given (some a) d = a

-- The names that the store makes up: `contest_` with the time, and `r` with the number of a round.
pub record Names : Type 0 where
  pub contest_at : ℕ → String
  pub round_no : ℕ → String
  pub is_local : String → Bool

-- `data.id && !data.id.startsWith('contest_')`
unfoldable pub is_update : Names → Option String → Bool
is_update names none = false
is_update names (some i) = if str_eq i "" then false else not (names.is_local i)

abbrev pub complete_round : String → DraftRound → Round
complete_round i r = record (r.round) {
  id = or_given r.id i;
  status = or_given r.status "upcoming";
}

unfoldable pub complete_rounds : Names → ℕ → List DraftRound → List Round
complete_rounds names n [] = []
complete_rounds names n (r ∷ rs) =
    complete_round (names.round_no (n + 1)) r ∷ complete_rounds names (n + 1) rs

-- A round as the draft has it.
abbrev pub plain_round : DraftRound → Round
plain_round r = record (r.round) { id = or_given r.id ""; status = or_given r.status "" }

abbrev pub plain_rounds : List DraftRound → List Round
plain_rounds [] = []
plain_rounds (r ∷ rs) = plain_round r ∷ plain_rounds rs

-- The contest of a new draft.
abbrev pub new_contest : Browser → Names → Draft → Contest
new_contest b names d = record {
  id = or_given d.id (names.contest_at b.now);
  name = d.name;
  description = d.description;
  status = or_given d.status "draft";
  created_at = or_given d.created_at b.now;
  ends_at = d.ends_at;
  max_participants = d.max_participants;
  participants = or_given d.participants [];
  rounds = complete_rounds names 0 d.rounds;
}

-- `{ ...old, ...data }`
abbrev pub merge : Draft → Contest → Contest
merge d c = record {
  id = or_given d.id c.id;
  name = d.name;
  description = d.description;
  status = or_given d.status c.status;
  created_at = or_given d.created_at c.created_at;
  ends_at = d.ends_at;
  max_participants = d.max_participants;
  participants = or_given d.participants c.participants;
  rounds = plain_rounds d.rounds;
}

abbrev pub nothing_yet : Contest
nothing_yet = record {
  id = "";
  name = "";
  description = "";
  status = "";
  created_at = 0;
  ends_at = 0;
  max_participants = 0;
  participants = [];
  rounds = [];
}

-- The contest that `createContest` stores before it asks the server.
unfoldable pub drafted : Browser → Names → Draft → State → Contest
unfolding is_update complete_rounds
drafted b names d s =
    if is_update names d.id
    then merge d (or_given (get_contest (or_given d.id "") s) nothing_yet)
    else new_contest b names d

-- In place of the contest of its id, or at the end.
unfoldable pub store_contest : Contest → List Contest → List Contest
store_contest c cs = elim (find (has_id c.id) cs) [
  | some old ↦ update_first (has_id c.id) (λ d. c) cs
  | none ↦ cs ++ (c ∷ [])
]

-- The answers to the POST of each round: the rounds with the ids of the server, and whether the loop
-- came to its end. A round past the answers is one whose request throws.
unfoldable pub post_rounds : List (Reply String) → List Round → List Round × Bool
post_rounds replies [] = ([], true)
post_rounds [] (r ∷ rs) = (r ∷ rs, false)
post_rounds (thrown ∷ replies) (r ∷ rs) = (r ∷ rs, false)
post_rounds (refused ∷ replies) (r ∷ rs) =
    let (rs', done) = post_rounds replies rs in (r ∷ rs', done)
post_rounds (answered i ∷ replies) (r ∷ rs) =
    let (rs', done) = post_rounds replies rs in (record r { id = i } ∷ rs', done)

-- What the answers make of the contest.
unfoldable pub created : Reply String → List (Reply String) → Contest → Contest
unfolding post_rounds
created (answered i) replies c = record c { id = i; rounds = (post_rounds replies c.rounds).0 }
created _ replies c = c

abbrev pub put_contests : List Contest → Store → Store
put_contests cs st = record st { state = record (st.state) { contests = cs } }

-- `createContest`: the id that it returns, and the store. The contest is saved as it was drafted, once
-- with the id of the server, and once with the ids of the rounds unless a request throws before.
unfoldable pub create_contest :
    Browser → Names → Draft → Reply String → List (Reply String) → Store → String × Store
unfolding save drafted store_contest created
create_contest b names d reply replies st =
    let c = drafted b names d st.state in
    let stored = store_contest c st.state.contests in
    let first = save b (put_contests stored st) in
    let exchange = λ (e : Contest). put_contests (update_first (has_id c.id) (λ x. e) stored) in
    let c' = created reply replies c in
    elim reply [
      | answered i ↦
          let second = exchange c' (save b (exchange (record c { id = i }) first)) in
          (c'.id, if (post_rounds replies c.rounds).1 then save b second else second)
      | _ ↦ (c'.id, first)
    ]
