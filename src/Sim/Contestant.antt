-- ===== src/Sim/Contestant.antt =====
-- `ContestantRunner.run`: the contestant's code is run on a view of the market, the volumes of its
-- orders are capped, and four of its slots are kept.
use vidhi_trading_platform.Prelude.{true, false, List, [], ◌∷◌, none, some, map, ℤ, pos, min_ℤ}
use vidhi_trading_platform.Lob.Views.{Snapshot, DepthRow}
use vidhi_trading_platform.Sim.Types.{
  Slots, Call, limit_buy, limit_sell, market_buy, market_sell, cancel, View, Outcome, Environment,
  position_limit,
}

-- The `orders` object: each volume is capped at the position limit.
unfoldable pub submit : Call → Call
submit (limit_buy price volume) = limit_buy price (min_ℤ volume position_limit)
submit (limit_sell price volume) = limit_sell price (min_ℤ volume position_limit)
submit (market_buy volume) = market_buy (min_ℤ volume position_limit)
submit (market_sell volume) = market_sell (min_ℤ volume position_limit)
submit (cancel i) = cancel i

-- `depth[0]?.volume ?? 0`
abbrev pub first_volume : List DepthRow → ℤ
first_volume [] = pos 0
first_volume (d ∷ _) = d.volume

unfoldable pub view : Snapshot → ℤ → ℤ → ℤ → ℤ → View
view snap fair_value position cash pnl = record {
  bid_price = snap.bid_price;
  ask_price = snap.ask_price;
  mid_price = snap.mid_price;
  spread = snap.spread;
  bid_volume = first_volume snap.bid_depth;
  ask_volume = first_volume snap.ask_depth;
  last_trade_price = snap.last_trade_price;
  underlying_signal = fair_value;
  position = position;
  cash = cash;
  pnl = pnl;
  fills = [];
}

-- Of the slots that the code leaves, four are kept; where it threw, none is.
unfoldable pub persist : Slots → Outcome → Slots
persist old o = elim o.threw [
  | true ↦ old
  | false ↦ record old {
    ema_fast = o.slots.ema_fast;
    ema_slow = o.slots.ema_slow;
    tick_count = o.slots.tick_count;
    my_position = o.slots.my_position;
  }
]

-- `run`: the submitted orders and the slots. The orders are those from before a throw.
unfoldable pub run_contestant : Environment → View → Slots → List Call × Slots
unfolding submit persist
run_contestant env v slots = elim env.fn [
  | none ↦ ([], slots)
  | some fn ↦ let o = fn v slots in (map submit o.calls, persist slots o)
]
