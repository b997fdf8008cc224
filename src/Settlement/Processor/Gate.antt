-- ===== src/Settlement/Processor/Gate.antt =====
-- services/settlement/processor.py: steps 1 to 2b, which decide before the claim. A packet that they
-- refuse leaves the keys and the settlements alone.
use mesh_settle.Prelude.{ℕ, ◌≡◌, refl, inl, inr, true, false, some, List, Text, text_eq, Bool-cases}
use mesh_settle.Crypto.Primitives.{Primitives}
use mesh_settle.Crypto.Signing.{Verified, verified, signature_error}
use mesh_settle.Models.Codes.{
  ErrorCode, malformed_payload, invalid_signature, packet_expired, packet_not_yet_valid,
}
use mesh_settle.Models.Fields.{Validated, valid, invalid}
use mesh_settle.Models.Moment.{Moment, micros}
use mesh_settle.Models.Packet.{PaymentPacket, verify, expected_aad}
use mesh_settle.Models.Wire.{Wire, model_validate_json}
use mesh_settle.Settlement.Effects.{Result, ok, World, Event, pass}
use mesh_settle.Settlement.Effects.Post.{Post, Post-bind, Post-now}
use mesh_settle.Settlement.Outcome.{
  SettlementOutcome, Freshness, fresh, expired, not_yet_valid, freshness, is_settled,
}
use mesh_settle.Settlement.Processor.{
  Processor, reject_before_claim, claim_and_settle, check_aad, after_freshness, check_freshness,
  after_verify, after_parse, process_packet, reject,
}
use mesh_settle.Settlement.Processor.Persist.{
  Kept, Kept-trans, pass-Kept, persist_rejection-Post, reject_before_claim-Post,
}

-- The codes with which the steps before the claim refuse a packet.
abbrev pub IsEarly : ErrorCode → Type 0
IsEarly malformed_payload = Unit
IsEarly invalid_signature = Unit
IsEarly packet_expired = Unit
IsEarly packet_not_yet_valid = Unit
IsEarly _ = ⊥

-- A final rejection with one of those codes.
pub record RefusedEarly (o : SettlementOutcome) : Type 0 where
  pub coded : (e : ErrorCode) × (o.code ≡ some e) × IsEarly e
  pub unsettled : is_settled o ≡ false
  pub final : o.retryable ≡ false

module _ (c : Primitives) (wire : Wire) (p : Processor) where
  abbrev pub fresh_at : Moment → PaymentPacket → Freshness
  fresh_at t packet =
      freshness p.freshness_window_seconds p.clock_skew_tolerance_seconds (micros t)
        (micros packet.created_at)

  -- What a packet has passed when it comes to the claim, at the time that was read.
  pub record Admitted (packet : PaymentPacket) (t : Moment) : Type 0 where
    pub signed : verify c packet p.sender_public_key ≡ verified
    pub in_window : fresh_at t packet ≡ fresh
    pub bound : text_eq packet.envelope.aad (expected_aad packet) ≡ true

module _ (c : Primitives) (wire : Wire) (p : Processor) where
  reject-RefusedEarly :
      (packet : PaymentPacket) (e : ErrorCode) (detail : Text)
      → IsEarly e
      → RefusedEarly (reject c wire p packet e detail)
  unfolding reject is_settled
  reject-RefusedEarly packet e detail h = record {
    coded = (e, refl, h);
    unsettled = refl;
    final = refl;
  }

  -- To prove a postcondition of the pipeline: prove it of every refusal before the claim, and of
  -- the claim of an admitted packet.
  module _ (E : Event → Type 0) (w : World) (Q : Result SettlementOutcome → World → Type 0)
      (refused : (o : SettlementOutcome) (v : World) → RefusedEarly o → Kept w v → Q (ok o) v) where
    refuse :
        (packet : PaymentPacket) (e : ErrorCode) (detail : Text) (u : World)
        → IsEarly e
        → Kept w u
        → Post E (reject_before_claim c wire p packet e detail) u Q
    refuse packet e detail u h k =
        reject_before_claim-Post E c wire p packet e detail u Q
          λ v k'. refused _ v (reject-RefusedEarly packet e detail h) (Kept-trans k k')

    check_aad-Post :
        (packet : PaymentPacket) (u : World)
        → Kept w u
        → (text_eq packet.envelope.aad (expected_aad packet) ≡ true
            → Post E (claim_and_settle c wire p packet) u Q)
        → Post E (check_aad c wire p packet) u Q
    unfolding check_aad
    check_aad-Post packet u k h =
        elim (Bool-cases (text_eq packet.envelope.aad (expected_aad packet))) [
          | inl yes_bound ↦ rw yes_bound (h yes_bound)
          | inr not_bound ↦ rw not_bound (refuse packet malformed_payload _ u tt k)
        ]

    after_freshness-Post :
        (packet : PaymentPacket) (f : Freshness) (u : World)
        → Kept w u
        → (f ≡ fresh
            → text_eq packet.envelope.aad (expected_aad packet) ≡ true
            → Post E (claim_and_settle c wire p packet) u Q)
        → Post E (after_freshness c wire p packet f) u Q
    unfolding after_freshness
    after_freshness-Post packet fresh u k h = check_aad-Post packet u k (h refl)
    after_freshness-Post packet (expired detail) u k h = refuse packet packet_expired detail u tt k
    after_freshness-Post packet (not_yet_valid detail) u k h =
        refuse packet packet_not_yet_valid detail u tt k

    after_verify-Post :
        (packet : PaymentPacket) (r : Verified)
        → verify c packet p.sender_public_key ≡ r
        → ((ev : Event)
            → E ev
            → Admitted c wire p packet ev.wall
            → Post E (claim_and_settle c wire p packet) (pass ev.elapsed w) Q)
        → Post E (after_verify c wire p packet r) w Q
    unfolding after_verify check_freshness
    after_verify-Post packet verified e h = Post-now E _ w Q λ ev b.
        after_freshness-Post packet (fresh_at c wire p ev.wall packet) (pass ev.elapsed w)
          (pass-Kept ev.elapsed w) (λ f a. h ev b (record { signed = e; in_window = f; bound = a }))
    after_verify-Post packet (signature_error m) e h =
        refuse packet invalid_signature _ w tt (record { keys = refl; settlements = refl })

    after_parse-Post :
        (r : Validated PaymentPacket)
        → ((packet : PaymentPacket)
            → r ≡ valid packet
            → (ev : Event) → E ev
            → Admitted c wire p packet ev.wall
            → Post E (claim_and_settle c wire p packet) (pass ev.elapsed w) Q)
        → Post E (after_parse c wire p r) w Q
    unfolding after_parse is_settled
    after_parse-Post (valid packet) h = after_verify-Post packet _ refl (h packet refl)
    after_parse-Post (invalid es) h = Post-bind E _ _ w Q (
        persist_rejection-Post E _ _ _ _ w _ λ v k.
          refused _ v
            (record { coded = (malformed_payload, refl, tt); unsettled = refl; final = refl }) k)

    pub process_packet-Post :
        (body : List ℕ)
        → ((packet : PaymentPacket)
            → model_validate_json wire body ≡ valid packet
            → (ev : Event) → E ev
            → Admitted c wire p packet ev.wall
            → Post E (claim_and_settle c wire p packet) (pass ev.elapsed w) Q)
        → Post E (process_packet c wire p body) w Q
    unfolding process_packet
    process_packet-Post body h = after_parse-Post (model_validate_json wire body) h
