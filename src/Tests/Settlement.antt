-- ===== src/Tests/Settlement.antt =====
-- services/settlement at concrete inputs.
use mesh_settle.Prelude.{
  ℕ, ◌+◌, ◌≤◌, ◌<◌, ◌^◌, ◌≡◌, refl, arith, true, false, some, none, [], ◌∷◌, Text, codes, All,
  text_eq_refl, ◌==◌, if◌then◌else◌,
}
use mesh_settle.Models.Codes.{duplicate_packet}
use mesh_settle.Models.Instruction.{validate_instruction}
use mesh_settle.Models.Instruction.Checked.{validate_instruction-Checked}
use mesh_settle.Models.Moment.{micros}
use mesh_settle.Models.Packet.{create, hop_count, idempotency_key}
use mesh_settle.Models.Packet.Document.{model_validate_json-dump}
use mesh_settle.Mesh.Sender.Sealed.{aad-create}
use mesh_settle.Settlement.Consumer.{ack, disposition}
use mesh_settle.Settlement.Db.{
  Settlement, count_settlements, fits, keeps_constraints, has_key, has_packet,
}
use mesh_settle.Settlement.Dedupe.{claimed_marker}
use mesh_settle.Settlement.Effects.{ok, World, Event, run, reply_lost}
use mesh_settle.Settlement.Metrics.{
  no_metrics, rejected, counted, record_all, record_all-rejected, sum_values,
}
use mesh_settle.Settlement.Outcome.{SettlementOutcome, is_settled, freshness}
use mesh_settle.Settlement.Processor.{process_packet, settlement_values, settled_outcome, reject}
use mesh_settle.Settlement.Views.{Latest, list_settlements}
use mesh_settle.Settlement.Views.Listing.{list_settlements-Latest}
use mesh_settle.Prelude.{pos, length}
use mesh_settle.Settlement.Processor.Calls.{row}
use mesh_settle.Settlement.Processor.Calm.{Calm, Genuine, run-settles, run-refused, run-Duplicate}
use mesh_settle.Settlement.Processor.Fits.{settlement_values-fits}
use mesh_settle.Settlement.Redis.{Keys, Entry, get, live}
use mesh_settle.Settlement.System.Runs.{after_run, Reach-run}
use mesh_settle.Settlement.System.{answer, Reach, here, onward, started, publish, deliver, System}
use mesh_settle.Settlement.System.Delivery.{acked-Final, Final, copies, copies_held}
use mesh_settle.Settlement.System.ExactlyOnce.{settled_once, acked_settled}
use mesh_settle.Settlement.System.Attested.{Attested}
use mesh_settle.Settlement.System.Kept.{copies_decided, nothing_lost}
use mesh_settle.Settlement.System.Provenance.{settlements-Attested}
use mesh_settle.Settlement.System.Readings.{readings}
use mesh_settle.Tests.Sample.{
  toy_primitives, toy_laws, toy_wire, toy_wire_laws, toy_processor, noon, lunch, raw_lunch,
  lunch_packet, lunch_packet-WellFormed, lunch_body, lunch_opens, lunch_verifies, device,
  sender_key, settlement_key, randomness, at_noon, empty_world,
}

-- The reply to the third call is lost.
abbrev faulty : ℕ → Event
faulty n = if n == 2 then record { elapsed = 5; wall = noon; fate = reply_lost } else at_noon

pub genuine :
    (most : ℕ) → Genuine toy_primitives toy_wire toy_processor lunch_packet most lunch_body
genuine most = record {
  read = model_validate_json-dump toy_wire lunch_packet toy_wire_laws lunch_packet-WellFormed;
  signed = lunch_verifies;
  bound = aad-create toy_primitives toy_laws randomness lunch device sender_key noon settlement_key;
}

calm : (most : ℕ) → Calm toy_primitives toy_wire toy_processor lunch_packet most at_noon
unfolding freshness create micros
calm most = record { answered = refl; in_window = refl; soon = omega arith }

few_hops : hop_count lunch_packet < 2 ^ 31
unfolding hop_count create
few_hops = omega arith

pub lunch-fits :
    fits (settlement_values toy_primitives toy_wire toy_processor lunch_packet lunch) ≡ true
lunch-fits =
    settlement_values-fits toy_primitives toy_wire toy_processor lunch_packet lunch
      lunch_packet-WellFormed
      (unfold validate_instruction in validate_instruction-Checked raw_lunch lunch refl)
      (omega arith) few_hops

pub free_key :
    get empty_world.clock (idempotency_key toy_primitives lunch_packet) empty_world.keys ≡ none
unfolding get live
free_key = refl

pub no_row :
    keeps_constraints
      (settlement_values toy_primitives toy_wire toy_processor lunch_packet lunch)
      []
    ≡ true
unfolding keeps_constraints settlement_values has_key has_packet
no_row = refl

run-settles_example :
    (id : ℕ) × (at : ℕ) × ((run
        (λ j. at_noon)
        0
        (process_packet toy_primitives toy_wire toy_processor lunch_body)
        empty_world).0
      ≡ ok (settled_outcome toy_primitives toy_wire toy_processor lunch_packet id))
    × ((run
          (λ j. at_noon)
          0
          (process_packet toy_primitives toy_wire toy_processor lunch_body)
          empty_world).1.tables.settlements
        ≡ row id at (settlement_values toy_primitives toy_wire toy_processor lunch_packet lunch)
          ∷ [])
run-settles_example =
    run-settles toy_primitives toy_wire toy_processor lunch_packet 0 lunch lunch_opens lunch-fits
      lunch_body empty_world (λ j. at_noon) 0 (genuine 0) free_key (λ j. calm 0) no_row

abbrev lunch_row : Settlement
lunch_row = row 1 900 (settlement_values toy_primitives toy_wire toy_processor lunch_packet lunch)

-- The lunch was settled, and its marker has expired.
abbrev settled_world : World
settled_world = record {
  clock = 90000000;
  keys = λ k. none;
  tables = record { settlements = lunch_row ∷ []; next_id = 2; rejected_packets = [] };
}

settled_row :
    keeps_constraints
      (settlement_values toy_primitives toy_wire toy_processor lunch_packet lunch)
      (lunch_row ∷ [])
    ≡ false
unfolding keeps_constraints has_key settlement_values
settled_row = rw (text_eq_refl (idempotency_key toy_primitives lunch_packet)) refl

settled_free :
    get settled_world.clock (idempotency_key toy_primitives lunch_packet) settled_world.keys ≡ none
unfolding get live
settled_free = refl

run-refused_example :
    ((detail : Text) × ((run
          (λ j. at_noon)
          0
          (process_packet toy_primitives toy_wire toy_processor lunch_body)
          settled_world).0
        ≡ ok (reject toy_primitives toy_wire toy_processor lunch_packet duplicate_packet detail)))
    × ((run
          (λ j. at_noon)
          0
          (process_packet toy_primitives toy_wire toy_processor lunch_body)
          settled_world).1.tables.settlements
        ≡ lunch_row ∷ [])
run-refused_example =
    run-refused toy_primitives toy_wire toy_processor lunch_packet 0 lunch lunch_opens lunch-fits
      lunch_body settled_world (λ j. at_noon) 0 (genuine 0) settled_free (λ j. calm 0) settled_row

-- A consumer has claimed the key and died; nothing is settled.
abbrev orphaned : Entry
orphaned = record { value = claimed_marker; expires = 61000 }

abbrev orphaned_world : World
orphaned_world = record {
  clock = 1000;
  keys = λ k. some orphaned;
  tables = record { settlements = []; next_id = 1; rejected_packets = [] };
}

run-Duplicate_example :
    ((detail : Text) × ((run
          (λ j. at_noon)
          0
          (process_packet toy_primitives toy_wire toy_processor lunch_body)
          orphaned_world).0
        ≡ ok (reject toy_primitives toy_wire toy_processor lunch_packet duplicate_packet detail)))
    × (disposition
          (run
            (λ j. at_noon)
            0
            (process_packet toy_primitives toy_wire toy_processor lunch_body)
            orphaned_world).0
        ≡ ack)
    × ((run
          (λ j. at_noon)
          0
          (process_packet toy_primitives toy_wire toy_processor lunch_body)
          orphaned_world).1.tables.settlements
        ≡ [])
run-Duplicate_example =
    run-Duplicate toy_primitives toy_wire toy_processor lunch_packet 0 lunch_body orphaned_world
      orphaned (λ j. at_noon) 0 (genuine 0) refl (omega arith) (λ j. calm 0)

settlement_values-fits_example :
    fits (settlement_values toy_primitives toy_wire toy_processor lunch_packet lunch) ≡ true
settlement_values-fits_example =
    settlement_values-fits toy_primitives toy_wire toy_processor lunch_packet lunch
      lunch_packet-WellFormed
      (unfold validate_instruction in validate_instruction-Checked raw_lunch lunch refl)
      (omega arith) few_hops

abbrev lunch_settled : SettlementOutcome
lunch_settled = settled_outcome toy_primitives toy_wire toy_processor lunch_packet 1

abbrev lunch_again : SettlementOutcome
lunch_again =
    reject toy_primitives toy_wire toy_processor lunch_packet duplicate_packet (codes "again")

record_all-rejected_example :
    rejected (record_all (lunch_settled ∷ lunch_again ∷ []) no_metrics)
    ≡ counted (record_all (lunch_settled ∷ lunch_again ∷ []) no_metrics)
record_all-rejected_example =
    record_all-rejected (lunch_settled ∷ lunch_again ∷ []) no_metrics (unfold sum_values in refl)

abbrev pub no_keys : Keys
no_keys = λ k. none

-- The lunch is published and given to a consumer, which settles and acknowledges it.
abbrev pub taken : System
taken = record (started 1000 no_keys) { published = lunch_body ∷ [] }

abbrev pub after_lunch : System
after_lunch =
    after_run toy_primitives toy_wire toy_processor (started 1000 no_keys) (λ j. at_noon) lunch_body
      (run (λ j. at_noon) 0 (process_packet toy_primitives toy_wire toy_processor lunch_body)
        empty_world).0
      (run (λ j. at_noon) 0 (process_packet toy_primitives toy_wire toy_processor lunch_body)
        empty_world).1
      [] taken

pub lunch_path : Reach toy_primitives toy_wire toy_processor (started 1000 no_keys) after_lunch
lunch_path =
    Reach-run toy_primitives toy_wire toy_processor (started 1000 no_keys) (λ j. at_noon)
      (process_packet toy_primitives toy_wire toy_processor lunch_body) 0 lunch_body [] empty_world
      taken
      (onward _ _ (onward _ _ here (publish lunch_body (started 1000 no_keys)))
        (deliver [] lunch_body [] taken))

settled_once_example :
    count_settlements
      (some (idempotency_key toy_primitives lunch_packet))
      after_lunch.world.tables.settlements
    ≤ 1
settled_once_example =
    settled_once toy_primitives toy_wire toy_processor 1000 no_keys after_lunch lunch_path
      (idempotency_key toy_primitives lunch_packet)

settlements-Attested_example :
    All
      (λ (r : Settlement).
        Attested toy_primitives toy_wire toy_processor after_lunch.published
          (readings toy_primitives toy_wire toy_processor lunch_path)
          r.values)
      after_lunch.world.tables.settlements
settlements-Attested_example =
    settlements-Attested toy_primitives toy_wire toy_processor 1000 no_keys after_lunch lunch_path

lunch_run :
    (id : ℕ) × ((run
        (λ j. at_noon)
        0
        (process_packet toy_primitives toy_wire toy_processor lunch_body)
        empty_world).0
      ≡ ok (settled_outcome toy_primitives toy_wire toy_processor lunch_packet id))
lunch_run =
    let (id, at, outcome, rows) =
      run-settles toy_primitives toy_wire toy_processor lunch_packet 0 lunch lunch_opens lunch-fits
        lunch_body empty_world (λ j. at_noon) 0 (genuine 0) free_key (λ j. calm 0) no_row in
    (id, outcome)

acked_lunch :
    after_lunch.acked
    ≡ record {
      body = lunch_body;
      result = ok (settled_outcome toy_primitives toy_wire toy_processor lunch_packet lunch_run.0);
    }
      ∷ []
unfolding answer disposition settled_outcome
acked_lunch = rw lunch_run.1 refl

is_settled_lunch :
    is_settled (settled_outcome toy_primitives toy_wire toy_processor lunch_packet lunch_run.0)
    ≡ true
unfolding is_settled settled_outcome
is_settled_lunch = refl

acked_settled_example :
    (k : Text) × ((settled_outcome toy_primitives toy_wire toy_processor lunch_packet
        lunch_run.0).idempotency_key
      ≡ some k)
    × (count_settlements (some k) after_lunch.world.tables.settlements ≡ 1)
acked_settled_example =
    acked_settled toy_primitives toy_wire toy_processor 1000 no_keys after_lunch lunch_path []
      lunch_body (settled_outcome toy_primitives toy_wire toy_processor lunch_packet lunch_run.0) []
      acked_lunch is_settled_lunch

nothing_lost_example :
    copies lunch_body after_lunch.published
    ≡ copies lunch_body after_lunch.ready
      + copies_held lunch_body after_lunch.flights
      + copies_decided lunch_body after_lunch.world.tables.settlements after_lunch.acked
nothing_lost_example =
    nothing_lost toy_primitives toy_wire toy_processor 1000 no_keys after_lunch lunch_path
      lunch_body

acked-Final_example : All Final after_lunch.acked
acked-Final_example =
    acked-Final toy_primitives toy_wire toy_processor 1000 no_keys after_lunch lunch_path

list_settlements-Latest_example :
    Latest (list_settlements (pos 500) (lunch_row ∷ []))
    × (length (list_settlements (pos 500) (lunch_row ∷ [])) ≤ 100)
list_settlements-Latest_example = list_settlements-Latest (pos 500) (lunch_row ∷ [])
