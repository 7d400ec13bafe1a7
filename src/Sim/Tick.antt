-- ===== src/Sim/Tick.antt =====
-- One round of the loop in `runBatch`, and the price signal that it begins with.
use vidhi_trading_platform.Prelude.{
  ℕ, ◌+◌, ◌*◌, ◌%◌, ◌==◌, ◌&&◌, [], ◌∷◌, ◌++◌, none, some, get_elem?, push_capped, ℤ, pos, ◌-ℤ◌,
  abs_ℤ, ltb, ltb_ℤ, min, max, round_div, if◌then◌else◌,
}
use vidhi_trading_platform.Lob.Views.{snapshot, mid}
use vidhi_trading_platform.Bots.Signal.{Signal}
use vidhi_trading_platform.Bots.MarketMaker
use vidhi_trading_platform.Bots.Momentum
use vidhi_trading_platform.Bots.MeanReversion
use vidhi_trading_platform.Bots.Noise
use vidhi_trading_platform.Bots.Sniper
use vidhi_trading_platform.Sim.Types.{Environment, Sim, LogRow}
use vidhi_trading_platform.Sim.Contestant.{view, run_contestant}
use vidhi_trading_platform.Sim.Process.{process, flush}
use vidhi_trading_platform.Sim.Ledger.{settle, count_fills, notify, mark}

-- `getPriceSignal`: the dataset as far as it goes, with its jumps of more than 1.5 dollars as news,
-- and generated prices past its end. The second part is `_lastFV`.
unfoldable pub price_signal : Environment → ℕ → ℤ → Signal × ℤ
price_signal env tick last_fv = elim env.dataset_prices [
  | none ↦ (env.gbm tick, last_fv)
  | some prices ↦ elim (get_elem? prices tick) [
    | none ↦ (env.gbm tick, last_fv)
    | some fv ↦
        let jump = abs_ℤ (fv -ℤ last_fv) in
        (
          record {
            fair_value = fv;
            volatility = jump;
            is_news_event = ltb 0 tick && ltb_ℤ (pos 15000) jump;
          },
          fv,
        )
  ]
]

-- Steps 1 and 2: the bots compute one after the other, all on the snapshot of before.
unfoldable pub run_bots : Signal → Sim → Sim
run_bots signal s =
    let snap = snapshot s.lob in
    let (mm, lob1) = MarketMaker.compute snap signal (s.market_maker, s.lob) in
    let (mom, lob2) = Momentum.compute snap (s.momentum, lob1) in
    let (mr, lob3) = MeanReversion.compute snap signal (s.mean_reversion, lob2) in
    let (noise, lob4) = Noise.compute snap (s.noise, lob3) in
    let lob5 = Sniper.compute snap signal s.sniper lob4 in
    record s { lob = lob5; market_maker = mm; momentum = mom; mean_reversion = mr; noise = noise }

-- `parseFloat(x.toFixed(2))`: to the nearest cent, in cents.
unfoldable pub to_cents : ℤ → ℤ
to_cents x = round_div x 100

-- Steps 3 to 6: the contestant's code runs and its orders and fills are settled.
unfoldable pub run_orders : Environment → Signal → Sim → Sim
run_orders env signal s =
    let v = view (snapshot s.lob) signal.fair_value s.position s.cash s.pnl in
    let (calls, slots) = run_contestant env v s.slots in
    let d = process s.position calls (record { lob = s.lob; queue = s.orders_queue; fills = [] }) in
    let (queue, lob) = flush d.queue d.lob in
    let a =
      settle d.fills
        (record { position = s.position; cash = s.cash; total_fills = s.total_fills }) in
    record s {
      lob = lob;
      slots = slots;
      orders_queue = queue;
      position = a.position;
      cash = a.cash;
      total_fills = a.total_fills;
      market_maker = notify d.fills s.market_maker;
      bot_activity = count_fills d.fills s.bot_activity;
    }

-- Step 7: the profit, the log, the histories and the count of ticks.
unfoldable pub record_tick : Environment → Sim → Sim
unfolding push_capped to_cents
record_tick env s =
    let t = s.tick_count in
    let end = snapshot s.lob in
    let pnl =
      mark s.lob (record { position = s.position; cash = s.cash; total_fills = s.total_fills }) in
    let row : LogRow = record {
      timestamp = t * 100;
      bid_price = end.bid_price;
      ask_price = end.ask_price;
      mid_price = mid s.lob;
      profit_and_loss = to_cents pnl;
    } in
    let sampled = t % 500 == 0 in
    record s {
      pnl = pnl;
      log_rows = s.log_rows ++ (row ∷ []);
      latency_history = push_capped 500 s.latency_history (max 50 (min 5000 (env.tick_ns t)));
      pnl_history =
          if sampled
          then push_capped 200 s.pnl_history (record { time = t; value = to_cents pnl })
          else s.pnl_history;
      volume_history =
          if sampled
          then push_capped 200 s.volume_history (record { time = t; value = abs_ℤ s.position })
          else s.volume_history;
      tick_count = t + 1;
    }

-- One tick.
unfoldable pub run_tick : Environment → Sim → Sim
unfolding price_signal run_bots run_orders record_tick
run_tick env s =
    let (signal, fv) = price_signal env s.tick_count s.last_fv in
    let begun = record s { lob = record (s.lob) { current_tick = s.tick_count }; last_fv = fv } in
    record_tick env (run_orders env signal (run_bots signal begun))
