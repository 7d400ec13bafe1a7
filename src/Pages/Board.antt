-- ===== src/Pages/Board.antt =====
-- The two leaderboards that the pages draw: `Leaderboard.jsx` and `SidebarLeaderboard.jsx`.
pub mod Online
use vidhi_trading_platform.Prelude.{
  ℕ, ◌+◌, ◌==◌, Bool, true, false, String, ◌+++◌, str_eq, split, List, [], ◌∷◌, ◌++◌, length, map,
  take, get_elem?, Option, none, some, if◌then◌else◌, ℤ, pos, ◌⊎◌, inl, inr,
}
use vidhi_trading_platform.Store.Types.{Round, State}
use vidhi_trading_platform.Store.Board.{Row, get_leaderboard}
use vidhi_trading_platform.Store.Student.{or_text}

-- A row of the server, with "" and 0 for a text and a rank that are absent.
pub record ServerRow : Type 0 where
  pub user_id : String
  pub display_name : String
  pub team_name : String
  pub pnl_pct : Option ℤ
  pub p99_ns : Option ℕ
  pub p50_ns : Option ℕ
  pub total_fills : Option ℕ
  pub rank : ℕ

-- A row that the page draws.
pub record PageRow : Type 0 where
  pub id : String
  pub name : String
  pub team : String
  pub pnl_pct : ℤ
  pub p99 : ℕ
  pub p50 : ℕ
  pub fills : ℕ
  pub rank : ℕ
  pub from_cloud : Bool

-- `activeFilter`: the round and the phase that are asked for, "" for `null`.
unfoldable pub filter_parts : String → String × String
unfolding split
filter_parts filter =
    let parts = split "-phase-" filter in
    let part : ℕ → String = λ i. elim (get_elem? parts i) [ none ↦ "" | some p ↦ p ] in
    if str_eq filter "main" then ("", "") else (part 0, part 1)

abbrev or_zero : Option ℕ → ℕ
or_zero none = 0
or_zero (some n) = n

abbrev pub or_no_pnl : Option ℤ → ℤ
or_no_pnl none = pos 0
or_no_pnl (some x) = x

-- `r.rank || (i + 1)`
abbrev pub rank_or : ℕ → ℕ → ℕ
rank_or i r = if r == 0 then i + 1 else r

unfoldable pub page_row : Bool → ℕ → ServerRow → PageRow
page_row cloud i r = record {
  id = r.user_id;
  name = or_text r.display_name (or_text r.user_id "Anonymous");
  team = r.team_name;
  pnl_pct = or_no_pnl r.pnl_pct;
  p99 = or_zero r.p99_ns;
  p50 = or_zero r.p50_ns;
  fills = or_zero r.total_fills;
  rank = rank_or i r.rank;
  from_cloud = cloud;
}

-- `.map((r, i) => ...)`, from index `i`.
unfoldable pub page_rows : Bool → ℕ → List ServerRow → List PageRow
unfolding page_row
page_rows cloud i [] = []
page_rows cloud i (r ∷ rs) = page_row cloud i r ∷ page_rows cloud (i + 1) rs

-- `backendRows` and `backendOnline`
pub record Page : Type 0 where
  pub rows : List PageRow
  pub is_online : Bool

-- `fetchLB`, with nothing for a request that failed; both requests catch their errors, so that nothing is
-- left for the handler that would set the page offline.
unfoldable pub fetch_board : Option (List ServerRow) → Option (List ServerRow) → Page → Page
unfolding page_rows
fetch_board local (some rows) p = record {
  rows = page_rows true 0 (take 50 rows);
  is_online = true;
}
fetch_board (some rows) none p = record {
  rows = page_rows false 0 (take 50 rows);
  is_online = true;
}
fetch_board none none p = p

-- The callback of `onStatus`; the argument is whether the engine runs on a server.
unfoldable pub on_mode : Bool → Page → Page
on_mode remote p = record p { is_online = remote }

-- `localEntries`
unfoldable pub local_entries : State → List Row
unfolding get_leaderboard
local_entries s =
    if str_eq s.active_contest_id "" then [] else get_leaderboard s.active_contest_id s

-- `entries`: those of the server, or the store's where there are none.
unfoldable pub entries : State → Page → List PageRow ⊎ List Row
unfolding local_entries
entries s p = if length p.rows == 0 then inr (local_entries s) else inl p.rows

-- The ids of `filterOptions` after the first, which is `main`.
unfoldable pub filter_options : List Round → List String
filter_options [] = []
filter_options (r ∷ rs) = (r.id +++ "-phase-test") ∷ (r.id +++ "-phase-final") ∷ filter_options rs
