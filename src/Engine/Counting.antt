-- ===== src/Engine/Counting.antt =====
-- What the demo strategy has counted after any sequence of deliveries.
use tradingchassis_ops_lab.Base.{◌+◌, ◌<◌, Bool, true, false, List, [], ◌∷◌, ◌≡◌, ◌∙◌, leb, arith}
use tradingchassis_ops_lab.Base.Sorting.{count}
use tradingchassis_ops_lab.Engine.Strategy.{
  StrategyConfig, Counters, Strategy, new_strategy, Delivery, bar, order_submitted, order_filled,
  deliver, deliver_all, counters,
}

abbrev is_bar : Delivery → Bool
is_bar bar = true
is_bar _ = false

abbrev is_submission : Delivery → Bool
is_submission order_submitted = true
is_submission _ = false

abbrev is_fill : Delivery → Bool
is_fill order_filled = true
is_fill _ = false

-- The counters as the description of a run has them: its events by kind, and whether it had as many
-- bars as the action waits for.
abbrev pub tally : StrategyConfig → List Delivery → Counters
tally config ds = record {
  bars_seen = count is_bar ds;
  orders_submitted = count is_submission ds;
  fills_count = count is_fill ds;
  deterministic_action_triggered = leb config.action_bar_index (count is_bar ds);
}

-- The counters of `deliver_all` from any state whose flag is right.
abbrev IsFlagged : Strategy → Type 0
IsFlagged s = s.deterministic_action_triggered ≡ leb s.config.action_bar_index s.bars_seen

abbrev after : Strategy → List Delivery → Strategy
after s ds = record s {
  bars_seen = s.bars_seen + count is_bar ds;
  orders_submitted = s.orders_submitted + count is_submission ds;
  fills_count = s.fills_count + count is_fill ds;
  deterministic_action_triggered = leb s.config.action_bar_index (s.bars_seen + count is_bar ds);
}

deliver-IsFlagged : (d : Delivery) (s : Strategy) → IsFlagged s → IsFlagged (deliver d s)
unfolding deliver
deliver-IsFlagged bar s h = ground arith
deliver-IsFlagged order_submitted s h = h
deliver-IsFlagged order_filled s h = h

after-deliver :
    (d : Delivery) (s : Strategy) (ds : List Delivery)
    → counters (after (deliver d s) ds) ≡ counters (after s (d ∷ ds))
unfolding counters deliver
after-deliver bar s ds = ground arith
after-deliver order_submitted s ds = ground arith
after-deliver order_filled s ds = ground arith

counters-after :
    (ds : List Delivery) (s : Strategy)
    → IsFlagged s
    → counters (deliver_all ds s) ≡ counters (after s ds)
unfolding deliver_all counters
counters-after [] s h = ground arith
counters-after (d ∷ ds) s h =
    counters-after ds (deliver d s) (deliver-IsFlagged d s h) ∙ after-deliver d s ds

-- The action is set for a bar that is not before the first. Whatever the engine delivers to a new
-- strategy, the counters are then the numbers of the bars, submissions and fills among the
-- deliveries, in any order, and the action has been triggered exactly if there were at least as many
-- bars as its index says.
pub deliver_all-tally :
    (config : StrategyConfig) (ds : List Delivery)
    → 0 < config.action_bar_index
    → counters (deliver_all ds (new_strategy config)) ≡ tally config ds
unfolding new_strategy counters
deliver_all-tally config ds h =
    counters-after ds (new_strategy config) (ground arith) ∙ ground arith
