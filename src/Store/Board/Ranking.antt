-- ===== src/Store/Board/Ranking.antt =====
-- The leaderboard is sorted, complete and numbered.
use vidhi_trading_platform.Prelude.{
  ℕ, zero, suc, ◌+◌, String, List, [], ◌∷◌, map, length, some, All, ℤ, ◌≤ℤ◌, ltb_ℤ, ◌≡◌, refl, ap,
  Bool-cases, inl, inr, arith,
}
use mathlib.Core.List.{Perm}
use mathlib.Core.List.Perm
use vidhi_trading_platform.Store.Types.{Participant, Contest, State}
use vidhi_trading_platform.Store.Contests.{get_contest}
use vidhi_trading_platform.Store.Board.{insert_ranked, sort_ranked, rank_from, get_leaderboard}

-- Nobody has a higher percentage than one before.
abbrev pub IsDescending : List Participant → Type 0
IsDescending [] = Unit
IsDescending (p ∷ ps) = All (λ q. q.pnl_pct ≤ℤ p.pnl_pct) ps × IsDescending ps

-- The numbers after `i`, `n` of them.
abbrev pub numbers_after : ℕ → ℕ → List ℕ
numbers_after i zero = []
numbers_after i (suc n) = (i + 1) ∷ numbers_after (i + 1) n

All-insert_ranked :
    (P : Participant → Type 0) (p : Participant) (ps : List Participant)
    → P p
    → All P ps
    → All P (insert_ranked p ps)
unfolding insert_ranked
All-insert_ranked P p [] h a = (h, tt)
All-insert_ranked P p (q ∷ qs) h a = elim (Bool-cases (ltb_ℤ p.pnl_pct q.pnl_pct)) [
  | inl e ↦ rw e (a.0, All-insert_ranked P p qs h a.1)
  | inr e ↦ rw e (h, a)
]

All-mono :
    (x y : ℤ) (ps : List Participant)
    → x ≤ℤ y
    → All (λ q. q.pnl_pct ≤ℤ x) ps
    → All (λ q. q.pnl_pct ≤ℤ y) ps
All-mono x y [] h a = tt
All-mono x y (p ∷ ps) h a = (ground arith, All-mono x y ps h a.1)

insert_ranked-IsDescending :
    (p : Participant) (ps : List Participant) → IsDescending ps → IsDescending (insert_ranked p ps)
unfolding insert_ranked
insert_ranked-IsDescending p [] h = (tt, tt)
insert_ranked-IsDescending p (q ∷ qs) h = elim (Bool-cases (ltb_ℤ p.pnl_pct q.pnl_pct)) [
  | inl e ↦
      let below : p.pnl_pct ≤ℤ q.pnl_pct = ground arith in
      rw e (
        All-insert_ranked (λ x. x.pnl_pct ≤ℤ q.pnl_pct) p qs below h.0,
        insert_ranked-IsDescending p qs h.1,
      )
  | inr e ↦
      let above : q.pnl_pct ≤ℤ p.pnl_pct = ground arith in
      rw e ((above, All-mono q.pnl_pct p.pnl_pct qs above h.0), h)
]

insert_ranked-perm : (p : Participant) (ps : List Participant) → Perm (insert_ranked p ps) (p ∷ ps)
unfolding insert_ranked
insert_ranked-perm p [] = Perm.refl _
insert_ranked-perm p (q ∷ qs) = elim (Bool-cases (ltb_ℤ p.pnl_pct q.pnl_pct)) [
  | inl e ↦ rw e (Perm.trans (Perm.cons q (insert_ranked-perm p qs)) (Perm.swap p q qs))
  | inr e ↦ rw e (Perm.refl _)
]

sort_ranked-IsDescending : (ps : List Participant) → IsDescending (sort_ranked ps)
unfolding sort_ranked
sort_ranked-IsDescending [] = tt
sort_ranked-IsDescending (p ∷ ps) =
    insert_ranked-IsDescending p (sort_ranked ps) (sort_ranked-IsDescending ps)

sort_ranked-perm : (ps : List Participant) → Perm (sort_ranked ps) ps
unfolding sort_ranked
sort_ranked-perm [] = Perm.refl _
sort_ranked-perm (p ∷ ps) =
    Perm.trans (insert_ranked-perm p (sort_ranked ps)) (Perm.cons p (sort_ranked-perm ps))

rank_from-participants :
    (i : ℕ) (ps : List Participant) → map (λ r. r.participant) (rank_from i ps) ≡ ps
unfolding rank_from
rank_from-participants i [] = refl
rank_from-participants i (p ∷ ps) = ap (λ xs. p ∷ xs) (rank_from-participants (i + 1) ps)

rank_from-ranks :
    (i : ℕ) (ps : List Participant)
    → map (λ r. r.rank) (rank_from i ps) ≡ numbers_after i (length ps)
unfolding rank_from
rank_from-ranks i [] = refl
rank_from-ranks i (p ∷ ps) = ap (λ xs. (i + 1) ∷ xs) (rank_from-ranks (i + 1) ps)

leaderboard_of :
    (i : String) (s : State) (c : Contest)
    → get_contest i s ≡ some c
    → get_leaderboard i s ≡ rank_from 0 (sort_ranked c.participants)
unfolding get_leaderboard
leaderboard_of i s c h = rw (h, get_leaderboard) refl

-- The leaderboard of a contest lists its participants, each as often as the contest does, by falling
-- percentage, and numbers them from 1.
pub get_leaderboard_ranked :
    (i : String) (s : State) (c : Contest)
    → get_contest i s ≡ some c
    → let rows = get_leaderboard i s in
      let listed = map (λ r. r.participant) rows in
      Perm listed c.participants
      × IsDescending listed
      × (map (λ r. r.rank) rows ≡ numbers_after 0 (length listed))
get_leaderboard_ranked i s c h =
    let sorted = sort_ranked c.participants in
    rw (leaderboard_of i s c h) (
      rw (rank_from-participants 0 sorted) (
        sort_ranked-perm c.participants,
        sort_ranked-IsDescending c.participants,
        rank_from-ranks 0 sorted,
      ))
