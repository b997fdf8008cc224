-- ===== src/Settlement/Consumer.antt =====
-- services/settlement/consumer.py: `SettlementConsumer`, which turns the outcome of a delivery into
-- an answer to the broker. The connection is left out.
pub mod Connection
use mesh_settle.Prelude.{if◌then◌else◌}
use mesh_settle.Settlement.Effects.{Result, ok, err}
use mesh_settle.Settlement.Outcome.{SettlementOutcome}
use mesh_settle.Settlement.Metrics.{SettlementMetrics, record_outcome}

-- The answer to a delivery: `message.ack()`, or `message.nack(requeue=True)`.
pub data Disposition : Type 0 where
  ack requeue : Disposition

-- `_handle_message`, by how the processor ended: the answer.
unfoldable pub disposition : Result SettlementOutcome → Disposition
disposition (err e) = requeue
disposition (ok outcome) = if outcome.retryable then requeue else ack

-- `process`: the counters are kept for an outcome, not for an exception.
unfoldable pub record_result : Result SettlementOutcome → SettlementMetrics → SettlementMetrics
record_result (ok outcome) m = record_outcome outcome m
record_result (err e) m = m
