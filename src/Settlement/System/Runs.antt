-- ===== src/Settlement/System/Runs.antt =====
-- services/settlement: a run from start to end is a path of the system, on which one consumer takes
-- all its steps.
use mesh_settle.Prelude.{ℕ, suc, List, [], ◌∷◌}
use mesh_settle.Crypto.Primitives.{Primitives}
use mesh_settle.Models.Wire.{Wire}
use mesh_settle.Settlement.Consumer.{disposition}
use mesh_settle.Settlement.Effects.{Result, Prog, ret, raise, call, World, Schedule, run, take_call}
use mesh_settle.Settlement.Outcome.{SettlementOutcome}
use mesh_settle.Settlement.Processor.{Processor}
use mesh_settle.Settlement.System.{
  Flight, System, answer, Reach, onward, step_call, finish_flight, fail_flight,
}

module _ (c : Primitives) (wire : Wire) (p : Processor) (start : System) (schedule : Schedule) where
  -- The state after the consumer has answered.
  abbrev pub after_run : List ℕ → Result SettlementOutcome → World → List Flight → System → System
  after_run body r w others s =
      answer (record { body = body; result = r }) (disposition r)
        (record s { world = w; flights = others })

  -- Where a state with a consumer's program is reached, so is the state after the run of the program
  -- and its answer.
  pub Reach-run :
      (m : Prog SettlementOutcome) (n : ℕ) (body : List ℕ) (others : List Flight) (w : World)
      (s : System)
      → Reach c wire p start
          (record s { world = w; flights = record { body = body; left = m } ∷ others })
      → Reach c wire p start (after_run body (run schedule n m w).0 (run schedule n m w).1 others s)
  unfolding run
  Reach-run (ret o) n body others w s r =
      onward _ _ r (finish_flight [] body o others (record s { world = w }))
  Reach-run (raise e) n body others w s r =
      onward _ _ r (fail_flight [] body others (record s { world = w }) e)
  Reach-run (call k next) n body others w s r =
      Reach-run (next (take_call (schedule n) k w).0) (suc n) body others
        (take_call (schedule n) k w).1 s
        (onward _ _ r (step_call [] body k next others (schedule n) (record s { world = w })))
