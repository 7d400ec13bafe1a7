-- ===== src/Store/Contests.antt =====
-- The contests, as their creator changes them.
pub mod Local
use vidhi_trading_platform.Prelude.{
  Bool, not, String, str_eq, List, [], ◌∷◌, Option, none, some, filter_by, find, if◌then◌else◌,
}
use vidhi_trading_platform.Store.Types.{Round, Contest, State, Store, Browser}
use vidhi_trading_platform.Store.Storage.{change}

abbrev pub has_id : String → Contest → Bool
has_id i c = str_eq c.id i

-- A change of the first element that the test finds, as `find` and `findIndex` give it out.
abbrev pub update_first {ℓ} : {A : Type ℓ} → (A → Bool) → (A → A) → List A → List A
update_first p f [] = []
update_first p f (x ∷ xs) = if p x then f x ∷ xs else x ∷ update_first p f xs

-- `getContest`
unfoldable pub get_contest : String → State → Option Contest
get_contest i s = find (has_id i) s.contests

-- `updateContest`: `f` stands for the fields of the patch.
unfoldable pub update_contest : Browser → String → (Contest → Contest) → Store → Store
unfolding change
update_contest b i f st = elim (get_contest i st.state) [
  | none ↦ st
  | some c ↦
      change b (record (st.state) { contests = update_first (has_id i) f st.state.contests }) st
]

-- `rounds[0].status = 'active'`
abbrev pub activate_first : List Round → List Round
activate_first [] = []
activate_first (r ∷ rs) = record r { status = "active" } ∷ rs

abbrev pub publish : Contest → Contest
publish c = record c { status = "active"; rounds = activate_first c.rounds }

-- `publishContest`. What the server answers is not used.
unfoldable pub publish_contest : Browser → String → Store → Store
unfolding update_contest
publish_contest b i st = update_contest b i publish st

-- `endContest`
unfoldable pub end_contest : Browser → String → Store → Store
unfolding update_contest
end_contest b i st = update_contest b i (λ c. record c { status = "ended" }) st

-- `deleteContest`
unfoldable pub delete_contest : Browser → String → Store → Store
unfolding change
delete_contest b i st =
    change b (record (st.state) { contests = filter_by (λ c. not (has_id i c)) st.state.contests })
      st
