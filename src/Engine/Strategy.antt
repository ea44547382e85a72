-- ===== src/Engine/Strategy.antt =====
-- engines/nautilus/strategies/ops_smoke_demo.py: the demo strategy, which counts what the engine
-- delivers to it.
use tradingchassis_ops_lab.Base.{
  ℕ, ◌+◌, String, Bool, true, false, List, [], ◌∷◌, eqb, if◌then◌else◌,
}

pub record StrategyConfig : Type 0 where
  pub instrument_id : String
  pub bar_type : String
  pub scenario_version : String
  pub action_bar_index : ℕ

pub record Counters : Type 0 where
  pub bars_seen : ℕ
  pub orders_submitted : ℕ
  pub fills_count : ℕ
  pub deterministic_action_triggered : Bool

-- The attributes of `OpsSmokeDemoStrategy`.
pub record Strategy : Type 0 where
  pub config : StrategyConfig
  pub bars_seen : ℕ
  pub orders_submitted : ℕ
  pub fills_count : ℕ
  pub deterministic_action_triggered : Bool

unfoldable pub new_strategy : StrategyConfig → Strategy
new_strategy config = record {
  config = config;
  bars_seen = 0;
  orders_submitted = 0;
  fills_count = 0;
  deterministic_action_triggered = false;
}

unfoldable pub on_bar : Strategy → Strategy
on_bar s =
    let t = record s { bars_seen = s.bars_seen + 1 } in
    if eqb t.bars_seen t.config.action_bar_index
    then record t { deterministic_action_triggered = true }
    else t

unfoldable pub on_order_submitted : Strategy → Strategy
on_order_submitted s = record s { orders_submitted = s.orders_submitted + 1 }

unfoldable pub on_order_filled : Strategy → Strategy
on_order_filled s = record s { fills_count = s.fills_count + 1 }

-- What the engine delivers.
pub data Delivery : Type 0 where
  bar order_submitted order_filled : Delivery

unfoldable pub deliver : Delivery → Strategy → Strategy
unfolding on_bar on_order_submitted on_order_filled
deliver bar s = on_bar s
deliver order_submitted s = on_order_submitted s
deliver order_filled s = on_order_filled s

-- The engine's calls of the handlers, in their order.
unfoldable pub deliver_all : List Delivery → Strategy → Strategy
unfolding deliver
deliver_all [] s = s
deliver_all (d ∷ ds) s = deliver_all ds (deliver d s)

unfoldable pub counters : Strategy → Counters
counters s = record {
  bars_seen = s.bars_seen;
  orders_submitted = s.orders_submitted;
  fills_count = s.fills_count;
  deterministic_action_triggered = s.deterministic_action_triggered;
}

unfoldable pub create_ops_smoke_demo_strategy : String → String → String → Strategy
unfolding new_strategy
create_ops_smoke_demo_strategy instrument_id bar_type scenario_version = new_strategy (record {
  instrument_id = instrument_id;
  bar_type = bar_type;
  scenario_version = scenario_version;
  action_bar_index = 5;
})
