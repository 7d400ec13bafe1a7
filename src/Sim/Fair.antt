-- ===== src/Sim/Fair.antt =====
-- Code that submits no order of negative volume keeps the book healthy, tick by tick.
use vidhi_trading_platform.Prelude.{
  ℕ, ◌≤◌, inl, inr, List, [], ◌∷◌, All, arith, length, ℤ, pos, ◌≤ℤ◌, ltb, Bool-cases, Option-cases,
}
use vidhi_trading_platform.Lob.Types.{buy, sell, Lob}
use vidhi_trading_platform.Lob.Orders.{cancel_order}
use vidhi_trading_platform.Lob.Healthy.{
  IsHealthy, add_order-IsHealthy, cancel_order-IsHealthy, market_order-IsHealthy,
}
use vidhi_trading_platform.Sim.Types.{
  Call, limit_buy, limit_sell, market_buy, market_sell, cancel, View, Slots, Environment, Queued,
  contestant_name,
}
use vidhi_trading_platform.Sim.Contestant.{run_contestant}
use vidhi_trading_platform.Sim.Process.{
  Desk, blocked, execute, process, flush, cancel_own, find_own,
}

-- A limit order of the contestant has no negative volume.
abbrev pub IsFairCall : Call → Type 0
IsFairCall (limit_buy p v) = pos 0 ≤ℤ v
IsFairCall (limit_sell p v) = pos 0 ≤ℤ v
IsFairCall _ = Unit

-- The contestant's code never submits such an order.
abbrev pub IsFairCode : Environment → Type 0
IsFairCode env = (v : View) (slots : Slots) → All IsFairCall (run_contestant env v slots).0

cancel_own-IsHealthy : (i : ℕ) (lob : Lob) → IsHealthy lob → IsHealthy (cancel_own i lob)
unfolding cancel_own
cancel_own-IsHealthy i lob h = elim (Option-cases (find_own i lob.bids)) [
  | inr (p, e) ↦ rw (e, cancel_own) (cancel_order-IsHealthy buy p i lob h)
  | inl e ↦ elim (Option-cases (find_own i lob.asks)) [
    | inr (p, f) ↦ rw (e, cancel_own) (rw (f, cancel_own) (cancel_order-IsHealthy sell p i lob h))
    | inl f ↦ rw (e, cancel_own) (rw (f, cancel_own) h)
  ]
]

execute-IsHealthy :
    (c : Call) (d : Desk) → IsFairCall c → IsHealthy d.lob → IsHealthy (execute c d).lob
unfolding execute
execute-IsHealthy (market_buy v) d f h = market_order-IsHealthy buy v contestant_name d.lob h
execute-IsHealthy (market_sell v) d f h = market_order-IsHealthy sell v contestant_name d.lob h
execute-IsHealthy (limit_buy p v) d f h = add_order-IsHealthy buy p v contestant_name d.lob h f
execute-IsHealthy (limit_sell p v) d f h = add_order-IsHealthy sell p v contestant_name d.lob h f
execute-IsHealthy (cancel i) d f h = cancel_own-IsHealthy i d.lob h

pub process-IsHealthy :
    (position : ℤ) (cs : List Call) (d : Desk)
    → All IsFairCall cs
    → IsHealthy d.lob
    → IsHealthy (process position cs d).lob
unfolding process
process-IsHealthy position [] d f h = h
process-IsHealthy position (c ∷ cs) d f h = elim (Bool-cases (blocked position c)) [
  | inl e ↦ rw (e, process) (process-IsHealthy position cs d f.1 h)
  | inr e ↦
      rw (e, process)
        (process-IsHealthy position cs (execute c d) f.1 (execute-IsHealthy c d f.0 h))
]

-- The queue of resting orders is cut to 200, and the book stays healthy.
pub flush_lem :
    (qs : List Queued) (lob : Lob)
    → IsHealthy lob
    → (length (flush qs lob).0 ≤ 200) × IsHealthy (flush qs lob).1
unfolding flush
flush_lem [] lob h = (omega arith, h)
flush_lem (q ∷ qs) lob h = elim (Bool-cases (ltb 200 (length (q ∷ qs)))) [
  | inl e ↦ rw e (
      flush_lem qs (cancel_order q.side q.price q.id lob).1
        (cancel_order-IsHealthy q.side q.price q.id lob h))
  | inr e ↦ rw e (ground arith, h)
]
