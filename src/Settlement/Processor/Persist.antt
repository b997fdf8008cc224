-- ===== src/Settlement/Processor/Persist.antt =====
-- services/settlement/processor.py: what recording a rejection does to the stores. It never fails,
-- and it touches neither the keys in Redis nor the settlements.
use mesh_settle.Prelude.{ℕ, ◌≡◌, refl, ◌∙◌, Option, Text, arith}
use mesh_settle.Models.Codes.{ErrorCode}
use mesh_settle.Models.Packet.{PaymentPacket}
use mesh_settle.Crypto.Primitives.{Primitives}
use mesh_settle.Settlement.Db.{RejectedPacket, insert_rejection}
use mesh_settle.Settlement.Effects.{Result, ok, add_rejection, World, Event, pass, serve, take_call}
use mesh_settle.Settlement.Effects.Post.{
  Post, Post-bind, Post-try, Post-perform, Post-now, Post-ignore,
}
use mesh_settle.Settlement.Outcome.{SettlementOutcome}
use mesh_settle.Models.Wire.{Wire}
use mesh_settle.Settlement.Processor.{
  Processor, record_rejection, persist_rejection, reject, reject_before_claim,
}

-- The keys and the settlements are as they were.
pub record Kept (w v : World) : Type 0 where
  pub keys : v.keys ≡ w.keys
  pub settlements : v.tables.settlements ≡ w.tables.settlements

pub pass-Kept : (elapsed : ℕ) (w : World) → Kept w (pass elapsed w)
pass-Kept elapsed w = record { keys = refl; settlements = refl }

pub Kept-trans : {u v w : World} → Kept u v → Kept v w → Kept u w
Kept-trans a b = record { keys = b.keys ∙ a.keys; settlements = b.settlements ∙ a.settlements }

add_rejection-Kept :
    (r : RejectedPacket) (ev : Event) (w : World) → Kept w (take_call ev (add_rejection r) w).1
unfolding take_call serve insert_rejection
add_rejection-Kept r ev w = record { keys = ground arith; settlements = ground arith }

module _ (E : Event → Type 0) where
  -- Recorded or not, the call returns.
  pub persist_rejection-Post :
      (code : ErrorCode) (detail : Text) (key : Option Text) (packet_id : Option ℕ) (w : World)
      (Q : Result (Unit {0}) → World → Type 0)
      → ((v : World) → Kept w v → Q (ok tt) v)
      → Post E (persist_rejection code detail key packet_id) w Q
  unfolding persist_rejection record_rejection
  persist_rejection-Post code detail key packet_id w Q h = Post-try E _ _ w Q (
      Post-now E _ w _ λ ev b. Post-perform E (add_rejection _) (pass ev.elapsed w) _ λ ev' b'.
        Post-ignore E _ _ Q
          (h _ (Kept-trans (pass-Kept ev.elapsed w) (add_rejection-Kept _ ev' _))))

module _ (E : Event → Type 0) (c : Primitives) (wire : Wire) (p : Processor) where
  pub reject_before_claim-Post :
      (packet : PaymentPacket) (code : ErrorCode) (detail : Text) (w : World)
      (Q : Result SettlementOutcome → World → Type 0)
      → ((v : World) → Kept w v → Q (ok (reject c wire p packet code detail)) v)
      → Post E (reject_before_claim c wire p packet code detail) w Q
  unfolding reject_before_claim
  reject_before_claim-Post packet code detail w Q h =
      Post-bind E _ _ w Q (persist_rejection-Post E code detail _ _ w _ h)
