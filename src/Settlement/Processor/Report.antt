-- ===== src/Settlement/Processor/Report.antt =====
-- services/settlement/processor.py: what the outcome of a packet says of the stores, whatever
-- happens to the calls.
use mesh_settle.Prelude.{
  ℕ, ◌+◌, ◌*◌, ◌≡◌, refl, inl, inr, ◌⊎◌, ◌∙◌, ap, true, false, some, none, List, ◌∷◌, Text,
}
use mesh_settle.Crypto.Primitives.{Primitives}
use mesh_settle.Models.Codes.{
  ErrorCode, duplicate_packet, internal_error, malformed_payload, decryption_failed,
}
use mesh_settle.Models.Fields.{valid}
use mesh_settle.Models.Moment.{Moment}
use mesh_settle.Models.Instruction.{PaymentInstruction}
use mesh_settle.Models.Packet.{
  PaymentPacket, idempotency_key, open_instruction, OpenedInstruction, opened,
}
use mesh_settle.Models.Wire.{Wire, model_validate_json}
use mesh_settle.Settlement.Db.{Settlement, Tables}
use mesh_settle.Settlement.Dedupe.{
  ClaimOutcome, claimed, in_flight, already_settled, settled_marker,
}
use mesh_settle.Settlement.Effects.{integrity, other, Result, ok, err, World, Event}
use mesh_settle.Settlement.Effects.Post.{
  Post, TryPost, Post-mono, Post-bind, Post-try, Post-attempt, Post-perform,
}
use mesh_settle.Settlement.Outcome.{SettlementOutcome, is_settled}
use mesh_settle.Settlement.Processor.{
  Processor, settlement_values, reject, settled_outcome, reject_after_claim, finish_write,
  write_settlement, settle_opened, retry_outcome, release_and_retry, settle_claimed, after_claim,
  claim_and_settle,
}
use mesh_settle.Settlement.Processor.Calls.{row, Added, add_settlement-Added}
use mesh_settle.Settlement.Processor.Claims.{
  SameTables, claim-Post, mark_settled-Post, release_claim-Post,
}
use mesh_settle.Settlement.Processor.Gate.{Admitted, RefusedEarly}
use mesh_settle.Settlement.Processor.Persist.{Kept, persist_rejection-Post}
use mesh_settle.Settlement.Redis.Laws.{set_self, delete_self}

module _ (c : Primitives) (wire : Wire) (p : Processor) where
  -- The rows are one more, made from the packet and the instruction that it holds.
  pub record Paid (packet : PaymentPacket) (id : ℕ) (w u : World) : Type 0 where
    pub instruction : PaymentInstruction
    pub at : ℕ
    pub held :
        open_instruction c wire.read_instruction packet p.settlement_private_key
        ≡ opened instruction
    pub added :
        u.tables.settlements
        ≡ row id at (settlement_values c wire p packet instruction) ∷ w.tables.settlements

  abbrev pub SameRows : World → World → Type 0
  SameRows w u = u.tables.settlements ≡ w.tables.settlements

  -- What a returned outcome says: a settlement has its row, and a marker under its key; a final
  -- rejection has added none; an outcome to be retried has given the key up.
  pub data Reported (packet : PaymentPacket) (w : World) (o : SettlementOutcome) (u : World)
      : Type 0 where
    settled_paid :
        (id : ℕ)
        → Paid packet id w u
        → o ≡ settled_outcome c wire p packet id
        → u.keys (idempotency_key c packet)
          ≡ some
              (record { value = settled_marker; expires = u.clock + p.dedupe.settled_ttl * 1000 })
        → Reported packet w o u
    final_unpaid : is_settled o ≡ false → o.retryable ≡ false → SameRows w u → Reported packet w o u
    retry_released :
        is_settled o ≡ false
        → o.retryable ≡ true
        → o.code ≡ some internal_error
        → u.keys (idempotency_key c packet) ≡ none
        → (SameRows w u ⊎ ((id : ℕ) × Paid packet id w u))
        → Reported packet w o u

  abbrev pub Report : PaymentPacket → World → Result SettlementOutcome → World → Type 0
  Report packet w (ok o) u = Reported packet w o u
  Report packet w (err e) u = SameRows w u ⊎ ((id : ℕ) × Paid packet id w u)

  module _ (E : Event → Type 0) (packet : PaymentPacket) (w : World) where
    -- A rejection that is final, when no row was added.
    rejected_report :
        (e : ErrorCode) (detail : Text) (u : World)
        → SameRows w u
        → Reported packet w (reject c wire p packet e detail) u
    unfolding reject is_settled
    rejected_report e detail u h = final_unpaid refl refl h

    retry_report :
        (u : World)
        → u.keys (idempotency_key c packet) ≡ none
        → Report packet w (err other) u
        → Reported packet w (retry_outcome c wire p packet) u
    unfolding retry_outcome is_settled
    retry_report u e h = retry_released refl refl refl e h

    settled_report :
        (id : ℕ) (u : World)
        → Paid packet id w u
        → u.keys (idempotency_key c packet)
          ≡ some
              (record { value = settled_marker; expires = u.clock + p.dedupe.settled_ttl * 1000 })
        → Reported packet w (settled_outcome c wire p packet id) u
    unfolding settled_outcome is_settled
    settled_report id u paid k = settled_paid id paid refl k

    -- A failure with the rows as they were or with the packet's row, seen after a call on Redis.
    carry :
        (v u : World)
        → Report packet w (err other) v
        → SameTables v u
        → Report packet w (err other) u
    carry v u (inl h) t = inl (ap (λ (x : Tables). x.settlements) t ∙ h)
    carry v u (inr (id, h)) t = inr (
      id,
      record {
        instruction = h.instruction;
        at = h.at;
        held = h.held;
        added = ap (λ (x : Tables). x.settlements) t ∙ h.added;
      },
    )

    release_and_retry-Post :
        (v : World)
        → Report packet w (err other) v
        → Post E (release_and_retry c wire p packet) v (Report packet w)
    unfolding release_and_retry
    release_and_retry-Post v h = Post-bind E _ _ v _ (
        release_claim-Post E _ v _
          (λ u k t. retry_report u (rw k (delete_self _ _)) (carry v u h t))
          (λ f u t. carry v u h t))

    handled :
        (r : Result SettlementOutcome) (v : World)
        → Report packet w r v
        → TryPost E (λ e. release_and_retry c wire p packet) (Report packet w) r v
    handled (ok o) v h = h
    handled (err e) v h = release_and_retry-Post v h

    reject_after_claim-Post :
        (e : ErrorCode) (detail : Text) (v : World)
        → SameRows w v
        → Post E (reject_after_claim c wire p packet e detail) v (Report packet w)
    unfolding reject_after_claim
    reject_after_claim-Post e detail v h = Post-bind E _ _ v _ (
        persist_rejection-Post E e detail _ _ v _ λ u k. Post-bind E _ _ u _ (
          release_claim-Post E _ u _
            (λ x d t.
              rejected_report e detail x (ap (λ (y : Tables). y.settlements) t ∙ k.settlements ∙ h))
            (λ f x t. inl (ap (λ (y : Tables). y.settlements) t ∙ k.settlements ∙ h))))

    module _ (i : PaymentInstruction)
        (held : open_instruction c wire.read_instruction packet p.settlement_private_key
          ≡ opened i) where
      paid :
          (v u x : World) (id at : ℕ)
          → SameRows w v
          → u.tables.settlements
            ≡ row id at (settlement_values c wire p packet i) ∷ v.tables.settlements
          → SameTables u x
          → Paid packet id w x
      paid v u x id at h added t = record {
        instruction = i;
        at = at;
        held = held;
        added =
            ap (λ (y : Tables). y.settlements) t
            ∙ added
            ∙ ap (λ (l : List Settlement). row id at (settlement_values c wire p packet i) ∷ l) h;
      }

      finish_write-Post :
          (v : World) (ev : Event) (r : Result ℕ) (u : World)
          → SameRows w v
          → Added (settlement_values c wire p packet i) v ev r u
          → Post E (finish_write c wire p packet r) u (Report packet w)
      unfolding finish_write
      finish_write-Post v ev (ok id) u h (at, added, k, kept) = Post-bind E _ _ u _ (
          mark_settled-Post E _ _ u _
            (λ x m t. settled_report id x (paid v u x id at h added t) (rw m (set_self _ _ _ _ _)))
            (λ f x t. inr (id, paid v u x id at h added t)))
      finish_write-Post v ev (err integrity) u h (same, k, broken) = Post-bind E _ _ u _ (
          mark_settled-Post E _ _ u _
            (λ x m t.
              rejected_report duplicate_packet _ x
                (ap (λ (y : Tables). y.settlements) t ∙ same ∙ h))
            (λ f x t. inl (ap (λ (y : Tables). y.settlements) t ∙ same ∙ h)))
      finish_write-Post v ev (err other) u h (l, k, inl same) = inl (same ∙ h)
      finish_write-Post v ev (err other) u h (l, k, inr (id, at, added)) =
          inr (id, paid v u u id at h added refl)

      write_settlement-Post :
          (v : World)
          → SameRows w v
          → Post E (write_settlement c wire p packet i) v (Report packet w)
      unfolding write_settlement
      write_settlement-Post v h = Post-bind E _ _ v _ (
          Post-attempt E _ v _ (
            Post-perform E _ v _
              λ ev b. finish_write-Post v ev _ _ h (add_settlement-Added _ ev v)))

    settle_opened-Post :
        (o : OpenedInstruction) (v : World)
        → open_instruction c wire.read_instruction packet p.settlement_private_key ≡ o
        → SameRows w v
        → Post E (settle_opened c wire p packet o) v (Report packet w)
    unfolding settle_opened
    settle_opened-Post (opened i) v e h = write_settlement-Post i e v h
    settle_opened-Post (OpenedInstruction.decryption_failed m) v e h =
        reject_after_claim-Post decryption_failed _ v h
    settle_opened-Post (OpenedInstruction.value_error m) v e h =
        reject_after_claim-Post malformed_payload _ v h
    settle_opened-Post (OpenedInstruction.validation_error m) v e h =
        reject_after_claim-Post malformed_payload _ v h
    settle_opened-Post OpenedInstruction.recursion_error v e h = inl h

    after_claim-Post :
        (o : ClaimOutcome) (v : World)
        → SameRows w v
        → Post E (after_claim c wire p packet o) v (Report packet w)
    unfolding after_claim settle_claimed
    after_claim-Post claimed v h =
        Post-try E _ _ v _
          (Post-mono E _ v (Report packet w) _ handled (settle_opened-Post _ v refl h))
    after_claim-Post in_flight v h = rejected_report duplicate_packet _ v h
    after_claim-Post already_settled v h = rejected_report duplicate_packet _ v h

    pub claim_and_settle-Post :
        (v : World) → SameRows w v → Post E (claim_and_settle c wire p packet) v (Report packet w)
    unfolding claim_and_settle
    claim_and_settle-Post v h = Post-bind E _ _ v _ (
        claim-Post E _ _ v _
          (λ ev u b t. after_claim-Post claimed u (ap (λ (y : Tables). y.settlements) t.tables ∙ h))
          (λ o ev u ne b live t k. after_claim-Post o u (ap (λ (y : Tables). y.settlements) t ∙ h))
          (λ f u t. inl (ap (λ (y : Tables). y.settlements) t ∙ h)))

  -- What a run of the pipeline on a message says: it was refused before the claim and touched
  -- neither keys nor settlements, or it was admitted and the report of its packet holds.
  pub data Processed (body : List ℕ) (w : World) (r : Result SettlementOutcome) (u : World)
      : Type 0 where
    refused_early :
        (o : SettlementOutcome) → r ≡ ok o → RefusedEarly o → Kept w u → Processed body w r u
    admitted :
        (packet : PaymentPacket) (t : Moment)
        → model_validate_json wire body ≡ valid packet
        → Admitted c wire p packet t
        → Report packet w r u
        → Processed body w r u
