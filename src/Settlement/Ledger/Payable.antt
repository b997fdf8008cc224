-- ===== src/Settlement/Ledger/Payable.antt =====
-- services/settlement: a message in the queue that can be paid can still be paid, whatever has
-- happened before.
use mesh_settle.Prelude.{ℕ, ◌≡◌, refl, ◌∙◌, true, none, some, List, ◌∷◌, ◌++◌, text_eq_refl, arith}
use mesh_settle.Crypto.Primitives.{Primitives}
use mesh_settle.Models.Instruction.{PaymentInstruction}
use mesh_settle.Models.Moment.{Moment}
use mesh_settle.Models.Packet.{PaymentPacket, idempotency_key, open_instruction, opened}
use mesh_settle.Models.Wire.{Wire}
use mesh_settle.Settlement.Db.{Settlement, fits, keeps_constraints, get_settlement}
use mesh_settle.Settlement.Effects.{delivered, Schedule, run}
use mesh_settle.Settlement.Ledger.View.{values_of}
use mesh_settle.Settlement.Ledger.Refinement.{view, answer-rows}
use mesh_settle.Settlement.Outcome.{fresh}
use mesh_settle.Settlement.Processor.{Processor, settlement_values, process_packet}
use mesh_settle.Settlement.Processor.Calls.{row}
use mesh_settle.Settlement.Processor.Calm.{Calm, Genuine, run-settles}
use mesh_settle.Settlement.Processor.Gate.{fresh_at}
use mesh_settle.Settlement.Redis.{get}
use mesh_settle.Settlement.System.{System, Reach, here, onward, deliver}
use mesh_settle.Settlement.System.Runs.{after_run, Reach-run}

-- Every call is answered at once, at one time of the consumer's clock.
abbrev pub at_once : Moment → Schedule
at_once wall j = record { elapsed = 0; wall = wall; fate = delivered }

module _ (c : Primitives) (wire : Wire) (p : Processor) (packet : PaymentPacket)
    (i : PaymentInstruction) where
  paid_row :
      (id at : ℕ) (rows rows' : List Settlement)
      → rows' ≡ row id at (settlement_values c wire p packet i) ∷ rows
      → values_of (get_settlement (idempotency_key c packet) rows')
        ≡ some (settlement_values c wire p packet i)
  unfolding get_settlement settlement_values
  paid_row id at rows rows' e = rw (e, text_eq_refl (idempotency_key c packet)) refl

  at_once-Calm :
      (wall : Moment)
      → fresh_at c wire p wall packet ≡ fresh
      → (j : ℕ) → Calm c wire p packet 0 (at_once wall j)
  at_once-Calm wall h j = record { answered = refl; in_window = h; soon = omega arith }

  -- From any state with the message of a genuine packet in its queue, if the packet opens and is
  -- fresh at a time of the clock, its values fit the columns, its key is free in Redis and its row
  -- breaks no constraint, the consumers have a path to a state whose ledger has the payment with
  -- the values of the packet and of the instruction under the key of the packet.
  pub payable :
      (s : System) (before : List (List ℕ)) (body : List ℕ) (after : List (List ℕ)) (wall : Moment)
      → Genuine c wire p packet 0 body
      → fresh_at c wire p wall packet ≡ fresh
      → open_instruction c wire.read_instruction packet p.settlement_private_key ≡ opened i
      → fits (settlement_values c wire p packet i) ≡ true
      → get s.world.clock (idempotency_key c packet) s.world.keys ≡ none
      → keeps_constraints (settlement_values c wire p packet i) s.world.tables.settlements ≡ true
      → (t : System) × Reach c wire p (record s { ready = before ++ body ∷ after }) t
        × ((view c wire p t).paid (idempotency_key c packet)
            ≡ some (settlement_values c wire p packet i))
  payable s before body after wall g h held fit free kept =
      let schedule = at_once wall in
      let (id, at, outcome, rows) =
        run-settles c wire p packet 0 i held fit body s.world schedule 0 g free
          (at_once-Calm wall h) kept in
      let queued : System = record s { ready = before ++ body ∷ after } in
      let rest : System = record s { ready = before ++ after } in
      let result = run schedule 0 (process_packet c wire p body) s.world in
      (
        after_run c wire p queued schedule body result.0 result.1 s.flights rest,
        Reach-run c wire p queued schedule (process_packet c wire p body) 0 body s.flights s.world
            rest (onward _ _ here (deliver before body after s)),
        paid_row id at _ _ (answer-rows c wire p _ _ _ ∙ rows),
      )
