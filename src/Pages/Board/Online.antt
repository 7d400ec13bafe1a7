-- ===== src/Pages/Board/Online.antt =====
-- What the leaderboard's page draws after its requests.
use vidhi_trading_platform.Prelude.{
  ℕ, suc, ◌+◌, ◌≤◌, Bool, true, false, List, [], ◌∷◌, length, length-take, take, Option, none, some,
  ◌≡◌, refl, arith, ap,
}
use vidhi_trading_platform.Pages.Board.{ServerRow, Page, page_rows, fetch_board}

-- The answers to the requests of one poll: the local server's and the cloud's.
abbrev pub Poll : Type 0
Poll = Option (List ServerRow) × Option (List ServerRow)

unfoldable pub polls : List Poll → Page → Page
unfolding fetch_board
polls [] p = p
polls ((local, cloud) ∷ ps) p = polls ps (fetch_board local cloud p)

length-page_rows :
    (cloud : Bool) (rs : List ServerRow) (i : ℕ) → length (page_rows cloud i rs) ≡ length rs
unfolding page_rows
length-page_rows cloud [] i = refl
length-page_rows cloud (r ∷ rs) i = ap suc (length-page_rows cloud rs (i + 1))

-- No more than fifty rows, and online once and for all.
abbrev IsFit : Page → Type 0
IsFit p = (length p.rows ≤ 50) × (p.is_online ≡ true)

abbrev pub is_answered : Poll → Bool
is_answered (local, some rows) = true
is_answered (some rows, none) = true
is_answered (none, none) = false

answered-IsFit :
    (poll : Poll) (p : Page) → is_answered poll ≡ true → IsFit (fetch_board poll.0 poll.1 p)
unfolding fetch_board
answered-IsFit (local, some rows) p h =
    (omega (arith, length-page_rows true (take 50 rows) 0, length-take 50 rows), refl)
answered-IsFit (some rows, none) p h =
    (omega (arith, length-page_rows false (take 50 rows) 0, length-take 50 rows), refl)
answered-IsFit (none, none) p h = absurd (ground (arith, h))

fetch_board-IsFit :
    (local cloud : Option (List ServerRow)) (p : Page) → IsFit p → IsFit (fetch_board local cloud p)
unfolding fetch_board
fetch_board-IsFit local (some rows) p h = answered-IsFit (local, some rows) p refl
fetch_board-IsFit (some rows) none p h = answered-IsFit (some rows, none) p refl
fetch_board-IsFit none none p h = h

polls-IsFit : (ps : List Poll) (p : Page) → IsFit p → IsFit (polls ps p)
unfolding polls
polls-IsFit [] p h = h
polls-IsFit ((local, cloud) ∷ ps) p h =
    polls-IsFit ps (fetch_board local cloud p) (fetch_board-IsFit local cloud p h)

-- Once a poll has been answered by a server, the page shows fifty rows at most and is online, whatever becomes
-- of the polls after it: where both servers fail, it stays online.
polls_online :
    (poll : Poll) (ps : List Poll) (p : Page)
    → is_answered poll ≡ true
    → let end = polls (poll ∷ ps) p in (length end.rows ≤ 50) × (end.is_online ≡ true)
unfolding polls
polls_online poll ps p h = polls-IsFit ps (fetch_board poll.0 poll.1 p) (answered-IsFit poll p h)
