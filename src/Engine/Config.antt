-- ===== src/Engine/Config.antt =====
-- The start message that a round makes, and the text of its bots.
use vidhi_trading_platform.Prelude.{
  join, ℕ, ◌==◌, Bool, String, ◌+++◌, str_eq, map, Option, none, some, find, ℤ, pos, eqb_ℤ,
  if◌then◌else◌,
}
use vidhi_trading_platform.Store.Types.{Round, Contest}
use vidhi_trading_platform.Store.Student.{or_text}
use vidhi_trading_platform.Store.Board.{head?}
use vidhi_trading_platform.Engine.Types.{StartPayload}

-- `options`, with 0 for a number of ticks that is not given.
pub record Options : Type 0 where
  pub force_local : Bool
  pub force_cloud : Bool
  pub is_practice : Bool
  pub max_ticks : ℕ

-- `activeBots.map(b => `${b}:${botAggressiveness || 0.5}`).join(',')`, or what stands for no list.
unfoldable pub bot_config_text : String → Round → String
unfolding join
bot_config_text missing r = elim r.active_bots [
  | none ↦ missing
  | some bots ↦ join "," (map (λ b. b +++ ":" +++ or_text r.bot_aggressiveness "0.5") bots)
]

abbrev pub find_round : String → Option Contest → Option Round
find_round i none = none
find_round i (some c) = find (λ r. str_eq r.id i) c.rounds

abbrev pub or_first_round : Option Round → Option Contest → Option Round
or_first_round (some r) c = some r
or_first_round none none = none
or_first_round none (some c) = head? c.rounds

abbrev pub or_number : ℕ → ℕ → ℕ
or_number a b = if a == 0 then b else a

abbrev pub or_amount : ℤ → ℤ → ℤ
or_amount a b = if eqb_ℤ a (pos 0) then b else a

-- The payload of a local run, from the round that is active.
unfoldable pub start_payload : String → Options → Option Round → StartPayload
unfolding bot_config_text
start_payload code options none = record {
  code = code;
  dataset_key = "test_99k.csv";
  bot_config = "MM:0.5,MOM:0.5,MR:0.5,NOISE:0.5,SNIPER:0.5";
  base_price = pos 15_000_000;
  asset_name = "VIDHI";
  max_ticks = or_number options.max_ticks 100_000;
}
start_payload code options (some r) = record {
  code = code;
  dataset_key = or_text (or_text r.test_data_key r.dataset_path) "test_99k.csv";
  bot_config = bot_config_text "MM:0.5,MOM:0.5,MR:0.5,NOISE:0.5,SNIPER:0.5" r;
  base_price = or_amount (or_amount r.asset_base_price r.base_price) (pos 15_000_000);
  asset_name = or_text (or_text r.asset_name r.own_asset_name) "VIDHI";
  max_ticks = or_number options.max_ticks 100_000;
}
