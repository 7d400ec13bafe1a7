-- ===== src/Pages/Sidebar.antt =====
-- `SidebarLeaderboard.jsx` and the rank in the bar of `Layout.jsx`: the rows of the leaderboard beside the pages. `fixed` is how JavaScript prints a
-- number with so many decimals: a percentage, or a thousandth of a count.
use vidhi_trading_platform.Prelude.{
  ℕ, ◌+◌, ◌==◌, String, ◌+++◌, List, [], ◌∷◌, take, Option, none, some, if◌then◌else◌, ℤ, find,
  str_eq,
}
use vidhi_trading_platform.Store.Types.{State}
use vidhi_trading_platform.Store.Board.{Row, get_leaderboard}
use vidhi_trading_platform.Store.Student.{or_text, my_id}
use vidhi_trading_platform.Client.Http.{Result, value, thrown}
use vidhi_trading_platform.Pages.Board.{ServerRow, rank_or, or_no_pnl}

pub record SideRow : Type 0 where
  pub rank : ℕ
  pub name : String
  pub pnl_pct : String
  pub fills : String

pub record Printed : Type 0 where
  pub percent : ℤ → String
  pub thousands : ℕ → String

-- `(x / 1000).toFixed(1) + 'K'`, or what stands for no fills.
abbrev pub fills_text : Printed → ℕ → String
fills_text p n = if n == 0 then "0K" else p.thousands n +++ "K"

abbrev pub or_no_fills : Option ℕ → ℕ
or_no_fills none = 0
or_no_fills (some n) = n

unfoldable pub server_rows : Printed → ℕ → List ServerRow → List SideRow
server_rows p i [] = []
server_rows p i (r ∷ rs) =
    record {
      rank = rank_or i r.rank;
      name = or_text r.display_name (or_text r.user_id "Anonymous");
      pnl_pct = p.percent (or_no_pnl r.pnl_pct) +++ "%";
      fills = fills_text p (or_no_fills r.total_fills);
    }
    ∷ server_rows p (i + 1) rs

unfoldable pub local_rows : Printed → ℕ → List Row → List SideRow
local_rows p i [] = []
local_rows p i (r ∷ rs) =
    record {
      rank = i + 1;
      name = or_text r.participant.name r.participant.id;
      pnl_pct = p.percent r.participant.pnl_pct +++ "%";
      fills = fills_text p r.participant.fills;
    }
    ∷ local_rows p (i + 1) rs

-- `fetchLB`: the rows of the server, or the store's where the request fails.
unfoldable pub fetch_side : Printed → Result (List ServerRow) → State → List SideRow
unfolding server_rows local_rows get_leaderboard
fetch_side p (value rows) s = server_rows p 0 (take 50 rows)
fetch_side p (thrown m) s = local_rows p 0 (get_leaderboard s.active_contest_id s)

abbrev pub rank_text : (ℕ → String) → Option Row → String
rank_text show none = "N/A"
rank_text show (some r) = if r.rank == 0 then "N/A" else "#" +++ show r.rank

-- `updateRank` of `Layout.jsx`, on what was shown before; `show` is how JavaScript prints a number.
unfoldable pub update_rank : (ℕ → String) → State → String → String
unfolding get_leaderboard
update_rank show s before =
    if str_eq s.active_contest_id ""
    then before
    else rank_text show
        (find (λ r. str_eq r.participant.id (my_id s)) (get_leaderboard s.active_contest_id s))
