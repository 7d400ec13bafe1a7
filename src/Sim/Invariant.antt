-- ===== src/Sim/Invariant.antt =====
-- The invariant of the simulation, and that every tick keeps it.
use vidhi_trading_platform.Prelude.{
  zero, suc, ◌*◌, true, false, ℕ, Bool, ◌≤◌, ◌≡◌, refl, inl, inr, List, [], ◌∷◌, arith, length,
  push_capped, length-push_capped, ℤ, pos, ltb, ltb_ℤ, Bool-cases, if◌then◌else◌, ◌∙◌, subst, sym,
}
use vidhi_trading_platform.Lob.Types.{Fill, Lob}
use vidhi_trading_platform.Lob.Healthy.{IsHealthy}
use vidhi_trading_platform.Lob.Views.{snapshot, Snapshot}
use vidhi_trading_platform.Bots.Signal.{Signal, is_zero}
use vidhi_trading_platform.Bots.MarketMaker
use vidhi_trading_platform.Bots.MarketMaker.{MarketMaker}
use vidhi_trading_platform.Bots.MeanReversion
use vidhi_trading_platform.Bots.MeanReversion.{MeanReversionBot}
use vidhi_trading_platform.Bots.Noise
use vidhi_trading_platform.Bots.Noise.{NoiseTrader}
use vidhi_trading_platform.Bots.Sound.{
  IsScale, market_maker-IsHealthy, momentum-IsHealthy, mean_reversion-IsHealthy, noise-IsHealthy,
  sniper-IsHealthy,
}
use vidhi_trading_platform.Sim.Types.{Environment, Point, Sim}
use vidhi_trading_platform.Sim.Contestant.{run_contestant, view}
use vidhi_trading_platform.Sim.Process.{Desk, process}
use vidhi_trading_platform.Sim.Fair.{IsFairCode, process-IsHealthy, flush_lem}
use vidhi_trading_platform.Sim.Ledger.{notify}
use vidhi_trading_platform.Lob.Book.{keys}
use vidhi_trading_platform.Sim.Batch.{BotConfig, fresh, init_simulation, run_ticks}
use vidhi_trading_platform.Sim.Tick.{price_signal, run_bots, run_orders, record_tick, run_tick}

-- What every tick keeps: a healthy book, at most 200 queued orders, capped histories, and scales
-- that are not negative.
pub record IsValid (s : Sim) : Type 0 where
  pub healthy : IsHealthy s.lob
  pub queued : length s.orders_queue ≤ 200
  pub latencies : length s.latency_history ≤ 500
  pub pnls : length s.pnl_history ≤ 200
  pub volumes : length s.volume_history ≤ 200
  pub mm_scale : IsScale s.market_maker.scale
  pub mr_scale : IsScale s.mean_reversion.scale
  pub noise_scale : IsScale s.noise.scale

mm-scale :
    (snap : Snapshot) (signal : Signal) (b : MarketMaker) (lob : Lob)
    → (MarketMaker.compute snap signal (b, lob)).0.scale ≡ b.scale
unfolding MarketMaker.compute
mm-scale snap signal b lob = elim (Bool-cases (is_zero b.scale)) [ inl e ↦ rw e | inr e ↦ rw e ]

mr-scale :
    (snap : Snapshot) (signal : Signal) (b : MeanReversionBot) (lob : Lob)
    → (MeanReversion.compute snap signal (b, lob)).0.scale ≡ b.scale
unfolding MeanReversion.compute
mr-scale snap signal b lob = elim (Bool-cases (is_zero b.scale)) [ inl e ↦ rw e | inr e ↦ rw e ]

noise-scale :
    (snap : Snapshot) (b : NoiseTrader) (lob : Lob)
    → (Noise.compute snap (b, lob)).0.scale ≡ b.scale
unfolding Noise.compute
noise-scale snap b lob = elim (Bool-cases (is_zero b.scale)) [
  | inl e ↦ rw e
  | inr e ↦ elim (Bool-cases (ltb (6 * Noise.full) (10 * Noise.xorshift b.rng))) [
    | inl q ↦ rw (e, q)
    | inr q ↦ rw (e, q)
  ]
]

notify-scale : (fs : List Fill) (b : MarketMaker) → (notify fs b).scale ≡ b.scale
unfolding notify MarketMaker.on_fill
notify-scale [] b = refl
notify-scale (f ∷ fs) b = notify-scale fs (MarketMaker.on_fill f b) ∙ on_fill-scale f b
  where
    on_fill-scale : (g : Fill) (c : MarketMaker) → (MarketMaker.on_fill g c).scale ≡ c.scale
    on_fill-scale g c = elim (Bool-cases (MarketMaker.is_mine g)) [ inl e ↦ rw e | inr e ↦ rw e ]

pub run_bots-IsValid : (signal : Signal) (s : Sim) → IsValid s → IsValid (run_bots signal s)
unfolding run_bots
run_bots-IsValid signal s v =
    let snap = snapshot s.lob in
    let h1 = market_maker-IsHealthy snap signal s.market_maker s.lob v.mm_scale v.healthy in
    let h2 = momentum-IsHealthy snap s.momentum _ h1 in
    let h3 = mean_reversion-IsHealthy snap signal s.mean_reversion _ v.mr_scale h2 in
    let h4 = noise-IsHealthy snap s.noise _ v.noise_scale h3 in
    record {
      healthy = sniper-IsHealthy snap signal s.sniper _ h4;
      queued = v.queued;
      latencies = v.latencies;
      pnls = v.pnls;
      volumes = v.volumes;
      mm_scale = subst IsScale (sym (mm-scale snap signal s.market_maker s.lob)) v.mm_scale;
      mr_scale = subst IsScale (sym (mr-scale snap signal s.mean_reversion _)) v.mr_scale;
      noise_scale = subst IsScale (sym (noise-scale snap s.noise _)) v.noise_scale;
    }

pub run_orders-IsValid :
    (env : Environment) (signal : Signal) (s : Sim)
    → IsFairCode env
    → IsValid s
    → IsValid (run_orders env signal s)
unfolding run_orders
run_orders-IsValid env signal s fair v =
    let seen = view (snapshot s.lob) signal.fair_value s.position s.cash s.pnl in
    let calls = (run_contestant env seen s.slots).0 in
    let d0 : Desk = record { lob = s.lob; queue = s.orders_queue; fills = [] } in
    let d = process s.position calls d0 in
    let traded = process-IsHealthy s.position calls d0 (fair seen s.slots) v.healthy in
    let cut = flush_lem d.queue d.lob traded in
    record {
      healthy = cut.1;
      queued = cut.0;
      latencies = v.latencies;
      pnls = v.pnls;
      volumes = v.volumes;
      mm_scale = subst IsScale (sym (notify-scale d.fills s.market_maker)) v.mm_scale;
      mr_scale = v.mr_scale;
      noise_scale = v.noise_scale;
    }

choose_capped :
    (b : Bool) (cap : ℕ) (xs : List Point) (x : Point)
    → length xs ≤ cap
    → length (if b then push_capped cap xs x else xs) ≤ cap
choose_capped true cap xs x h = length-push_capped cap xs x h
choose_capped false cap xs x h = h

pub record_tick-IsValid : (env : Environment) (s : Sim) → IsValid s → IsValid (record_tick env s)
unfolding record_tick
record_tick-IsValid env s v = record {
  healthy = v.healthy;
  queued = v.queued;
  latencies = length-push_capped 500 s.latency_history _ v.latencies;
  pnls = choose_capped _ 200 s.pnl_history _ v.pnls;
  volumes = choose_capped _ 200 s.volume_history _ v.volumes;
  mm_scale = v.mm_scale;
  mr_scale = v.mr_scale;
  noise_scale = v.noise_scale;
}

-- If the contestant's code submits no limit order of negative volume, a tick keeps the simulation
-- valid: the book sound and its best prices covered, at most 200 queued orders, and capped
-- histories.
pub run_tick-IsValid :
    (env : Environment) (s : Sim) → IsFairCode env → IsValid s → IsValid (run_tick env s)
unfolding run_tick
run_tick-IsValid env s fair v =
    let p = price_signal env s.tick_count s.last_fv in
    let begun : Sim = record s {
      lob = record (s.lob) { current_tick = s.tick_count };
      last_fv = p.1;
    } in
    record_tick-IsValid env _ (
      run_orders-IsValid env p.0 _ fair (
        run_bots-IsValid p.0 begun (record {
          healthy = record { sound = v.healthy.sound; covered = v.healthy.covered };
          queued = v.queued;
          latencies = v.latencies;
          pnls = v.pnls;
          volumes = v.volumes;
          mm_scale = v.mm_scale;
          mr_scale = v.mr_scale;
          noise_scale = v.noise_scale;
        })))

-- Any number of rounds keeps it too.
pub run_ticks-IsValid :
    (env : Environment) (n : ℕ) (s : Sim) → IsFairCode env → IsValid s → IsValid (run_ticks env n s)
unfolding run_ticks
run_ticks-IsValid env zero s fair v = v
run_ticks-IsValid env (suc n) s fair v = elim (Bool-cases (ltb s.tick_count env.max_ticks)) [
  | inl more ↦
      rw more (run_ticks-IsValid env n (run_tick env s) fair (run_tick-IsValid env s fair v))
  | inr done ↦ rw done v
]

pub fresh-IsValid :
    (base : ℤ) (bc : BotConfig)
    → IsScale bc.mm
    → IsScale bc.mr
    → IsScale bc.noise
    → IsValid (fresh base bc)
unfolding fresh keys
fresh-IsValid base bc a b c = record {
  healthy = record { sound = (tt, tt); covered = (tt, tt) };
  queued = omega arith;
  latencies = omega arith;
  pnls = omega arith;
  volumes = omega arith;
  mm_scale = a;
  mr_scale = b;
  noise_scale = c;
}

init_simulation-IsValid :
    (env : Environment) (base : ℤ) (bc : BotConfig)
    → IsScale bc.mm
    → IsScale bc.mr
    → IsScale bc.noise
    → IsValid (init_simulation env base bc)
unfolding init_simulation
init_simulation-IsValid env base bc a b c =
    let s = fresh base bc in
    let v = fresh-IsValid base bc a b c in
    let snap = snapshot s.lob in
    let signal = (price_signal env 0 base).0 in
    elim (Bool-cases (ltb_ℤ (pos 0) bc.mm.num)) [
      | inl e ↦ rw e record {
        healthy = market_maker-IsHealthy snap signal s.market_maker s.lob v.mm_scale v.healthy;
        queued = v.queued;
        latencies = v.latencies;
        pnls = v.pnls;
        volumes = v.volumes;
        mm_scale = subst IsScale (sym (mm-scale snap signal s.market_maker s.lob)) v.mm_scale;
        mr_scale = v.mr_scale;
        noise_scale = v.noise_scale;
      }
      | inr e ↦ rw e record {
        healthy = v.healthy;
        queued = v.queued;
        latencies = v.latencies;
        pnls = v.pnls;
        volumes = v.volumes;
        mm_scale = v.mm_scale;
        mr_scale = v.mr_scale;
        noise_scale = v.noise_scale;
      }
    ]

-- From `initSimulation` with scales that are not negative, and with code that submits no limit order
-- of negative volume, every number of ticks leads to a valid simulation: the book is sound and its
-- best prices covered, at most 200 orders are queued, and the histories keep to their caps.
pub simulation-IsValid :
    (env : Environment) (base : ℤ) (bc : BotConfig) (n : ℕ)
    → IsFairCode env
    → IsScale bc.mm
    → IsScale bc.mr
    → IsScale bc.noise
    → IsValid (run_ticks env n (init_simulation env base bc))
simulation-IsValid env base bc n fair a b c =
    run_ticks-IsValid env n (init_simulation env base bc) fair
      (init_simulation-IsValid env base bc a b c)
