-- ===== src/Settlement/System/Readings.antt =====
-- services/settlement: the times that the consumers' clocks returned along a sequence of steps, each
-- with the message that the consumer held.
use mesh_settle.Prelude.{ℕ, List, [], ◌∷◌}
use mesh_settle.Crypto.Primitives.{Primitives}
use mesh_settle.Models.Moment.{Moment}
use mesh_settle.Models.Wire.{Wire}
use mesh_settle.Settlement.Effects.{Result, ok, Call, now, Reply, take_call}
use mesh_settle.Settlement.Processor.{Processor}
use mesh_settle.Settlement.System.{System, Step, step_call, Reach, here, onward}

abbrev pub Reading : Type 0
Reading = List ℕ × Moment

-- What a call adds: the reply to `now`, if there is one.
abbrev pub noted : List ℕ → (k : Call) → Result (Reply k) → List Reading → List Reading
noted body now (ok time) rs = (body, time) ∷ rs
noted body _ r rs = rs

module _ (c : Primitives) (wire : Wire) (p : Processor) where
  abbrev pub step_readings : {s t : System} → Step c wire p s t → List Reading → List Reading
  step_readings (step_call before body k next after ev s) rs =
      noted body k (take_call ev k s.world).0 rs
  step_readings _ rs = rs

  abbrev pub readings : {s t : System} → Reach c wire p s t → List Reading
  readings here = []
  readings (onward s t r step) = step_readings step (readings r)
