-- ===== src/Models/Packet/Alike.antt =====
-- shared/models.py: two packets that differ in their hops at most. The hops are not signed, so
-- whatever is derived from the signed part is the same.
use mesh_settle.Prelude.{
  ℕ, suc, ◌≡◌, refl, ◌∙◌, List, [], ◌∷◌, arith, length-append, true, All-append,
}
use mesh_settle.Crypto.Primitives.{Key, Primitives}
use mesh_settle.Models.Fields.{is_identifier}
use mesh_settle.Models.Instruction.{ReadInstruction}
use mesh_settle.Models.Packet.{
  PaymentPacket, HopRecord, append_hop, hop_count, idempotency_key, verify, open_instruction,
  expected_aad, signing_bytes,
}
use mesh_settle.Models.Packet.Document.{WellFormed}

pub record Alike (p q : PaymentPacket) : Type 0 where
  pub packet_id : q.packet_id ≡ p.packet_id
  pub sender_id : q.sender_id ≡ p.sender_id
  pub created_at : q.created_at ≡ p.created_at
  pub envelope : q.envelope ≡ p.envelope
  pub signature : q.signature ≡ p.signature

pub Alike-refl : (p : PaymentPacket) → Alike p p
Alike-refl p = record {
  packet_id = refl;
  sender_id = refl;
  created_at = refl;
  envelope = refl;
  signature = refl;
}

pub Alike-trans : {p q r : PaymentPacket} → Alike p q → Alike q r → Alike p r
Alike-trans a b = record {
  packet_id = b.packet_id ∙ a.packet_id;
  sender_id = b.sender_id ∙ a.sender_id;
  created_at = b.created_at ∙ a.created_at;
  envelope = b.envelope ∙ a.envelope;
  signature = b.signature ∙ a.signature;
}

pub append_hop-Alike : (p : PaymentPacket) (h : HopRecord) → Alike p (append_hop p h)
unfolding append_hop
append_hop-Alike p h = record {
  packet_id = refl;
  sender_id = refl;
  created_at = refl;
  envelope = refl;
  signature = refl;
}

pub hop_count-append_hop :
    (p : PaymentPacket) (h : HopRecord) → hop_count (append_hop p h) ≡ suc (hop_count p)
unfolding hop_count append_hop
hop_count-append_hop p h = omega (arith, length-append p.hops (h ∷ []))

pub append_hop-WellFormed :
    (p : PaymentPacket) (h : HopRecord)
    → is_identifier h.node_id ≡ true
    → WellFormed p
    → WellFormed (append_hop p h)
unfolding append_hop
append_hop-WellFormed p h named wf = record {
  sender_id = wf.sender_id;
  encrypted_key = wf.encrypted_key;
  nonce = wf.nonce;
  ciphertext = wf.ciphertext;
  aad = wf.aad;
  signature = wf.signature;
  hops =
      All-append (λ (x : HopRecord). is_identifier x.node_id ≡ true) p.hops (h ∷ []) wf.hops
        (named, tt);
}

pub signing_bytes-Alike : (p q : PaymentPacket) → Alike p q → signing_bytes q ≡ signing_bytes p
unfolding signing_bytes
signing_bytes-Alike p q a = rw (a.packet_id, a.sender_id, a.created_at, a.envelope) refl

-- What the program derives from the signed part.
pub record SameDerived (c : Primitives) (p q : PaymentPacket) : Type 0 where
  pub idempotency_key : idempotency_key c q ≡ idempotency_key c p
  pub verify : (k : Key) → verify c q k ≡ verify c p k
  pub expected_aad : expected_aad q ≡ expected_aad p
  pub open_instruction :
      (read : List ℕ → ReadInstruction) (k : Key)
      → open_instruction c read q k ≡ open_instruction c read p k

-- Two packets that differ in their hops at most have the same idempotency key, verify under the
-- same keys, imply the same associated data and open to the same instruction.
pub Alike-SameDerived : (c : Primitives) (p q : PaymentPacket) → Alike p q → SameDerived c p q
unfolding idempotency_key verify expected_aad open_instruction
Alike-SameDerived c p q a = record {
  idempotency_key = rw (signing_bytes-Alike p q a) refl;
  verify = λ k. rw (signing_bytes-Alike p q a, a.signature) refl;
  expected_aad = rw (a.packet_id, a.sender_id) refl;
  open_instruction = λ read k. rw (a.packet_id, a.envelope) refl;
}
