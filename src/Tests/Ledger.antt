-- ===== src/Tests/Ledger.antt =====
-- services/settlement, as a ledger, at concrete inputs.
use mesh_settle.Prelude.{◌≡◌, refl, some, [], ◌∷◌}
use mesh_settle.Models.Moment.{micros}
use mesh_settle.Models.Packet.{create, idempotency_key}
use mesh_settle.Settlement.Ledger.{Grows, empty_ledger}
use mesh_settle.Settlement.Ledger.Payable.{payable}
use mesh_settle.Settlement.Ledger.Refinement.{view, system_refines_ledger, payments_stay}
use mesh_settle.Settlement.Outcome.{freshness, fresh}
use mesh_settle.Settlement.Processor.Gate.{fresh_at}
use mesh_settle.Settlement.Processor.{settlement_values}
use mesh_settle.Settlement.Processor.Authority.{Authorised}
use mesh_settle.Settlement.System.{System, Reach, here, onward, started, publish}
use mesh_settle.Tests.Sample.{
  toy_primitives, toy_wire, toy_processor, noon, lunch, lunch_packet, lunch_body, lunch_opens,
}
use mesh_settle.Tests.Settlement.{
  genuine, lunch-fits, free_key, no_row, no_keys, after_lunch, lunch_path,
}

system_refines_ledger_example :
    Grows
      (Authorised toy_primitives toy_wire toy_processor)
      empty_ledger
      (view toy_primitives toy_wire toy_processor after_lunch)
system_refines_ledger_example =
    system_refines_ledger toy_primitives toy_wire toy_processor 1000 no_keys after_lunch lunch_path

noon-fresh : fresh_at toy_primitives toy_wire toy_processor noon lunch_packet ≡ fresh
unfolding freshness create micros
noon-fresh = refl

payable_example :
    (t : System) × Reach toy_primitives toy_wire toy_processor
      (record (started 1000 no_keys) { ready = lunch_body ∷ [] })
      t
    × ((view toy_primitives toy_wire toy_processor t).paid
          (idempotency_key toy_primitives lunch_packet)
        ≡ some (settlement_values toy_primitives toy_wire toy_processor lunch_packet lunch))
payable_example =
    payable toy_primitives toy_wire toy_processor lunch_packet lunch (started 1000 no_keys) []
      lunch_body [] noon (genuine 0) noon-fresh lunch_opens lunch-fits free_key no_row

-- The lunch is published, then paid, and stays paid when it is published once more.
abbrev published : System
published = record (started 1000 no_keys) { published = lunch_body ∷ [] }

paid :
    (t : System) × Reach toy_primitives toy_wire toy_processor
      (record published { ready = lunch_body ∷ [] })
      t
    × ((view toy_primitives toy_wire toy_processor t).paid
          (idempotency_key toy_primitives lunch_packet)
        ≡ some (settlement_values toy_primitives toy_wire toy_processor lunch_packet lunch))
paid =
    payable toy_primitives toy_wire toy_processor lunch_packet lunch published [] lunch_body [] noon
      (genuine 0) noon-fresh lunch_opens lunch-fits free_key no_row

after_publish :
    (t : System)
    → Reach toy_primitives toy_wire toy_processor (record published { ready = lunch_body ∷ [] }) t
    → Reach toy_primitives toy_wire toy_processor (started 1000 no_keys) t
after_publish _ here = onward _ _ here (publish lunch_body (started 1000 no_keys))
after_publish _ (onward s t r step) = onward s t (after_publish s r) step

abbrev published_again : System
published_again = record (paid.0) {
  ready = lunch_body ∷ paid.0.ready;
  published = lunch_body ∷ paid.0.published;
}

payments_stay_example :
    (view toy_primitives toy_wire toy_processor published_again).paid
      (idempotency_key toy_primitives lunch_packet)
    ≡ some (settlement_values toy_primitives toy_wire toy_processor lunch_packet lunch)
payments_stay_example =
    payments_stay toy_primitives toy_wire toy_processor 1000 no_keys paid.0 published_again
      (idempotency_key toy_primitives lunch_packet)
      (settlement_values toy_primitives toy_wire toy_processor lunch_packet lunch)
      (after_publish paid.0 paid.1) (onward _ _ here (publish lunch_body paid.0)) paid.2
