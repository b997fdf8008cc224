-- ===== src/Settlement/Processor/Calm.antt =====
-- services/settlement/processor.py: what becomes of an admitted packet while every call is answered,
-- by what the two stores hold for it.
use mesh_settle.Prelude.{
  ℕ, ◌+◌, ◌≤◌, ◌<◌, ◌≡◌, ◌≢◌, refl, ap, ◌∙◌, true, false, Option, some, none, List, ◌∷◌, Text,
  arith, text_eq,
}
use mesh_settle.Crypto.Primitives.{Primitives}
use mesh_settle.Crypto.Signing.{verified}
use mesh_settle.Models.Codes.{duplicate_packet}
use mesh_settle.Models.Fields.{valid}
use mesh_settle.Models.Instruction.{PaymentInstruction}
use mesh_settle.Models.Packet.{
  PaymentPacket, verify, expected_aad, idempotency_key, open_instruction, opened,
}
use mesh_settle.Models.Wire.{Wire, model_validate_json}
use mesh_settle.Settlement.Consumer.{ack, disposition}
use mesh_settle.Settlement.Db.{Tables, fits, keeps_constraints}
use mesh_settle.Settlement.Dedupe.{ClaimOutcome, claimed, in_flight, already_settled}
use mesh_settle.Settlement.Effects.{
  integrity, other, Result, ok, err, World, Event, delivered, pass, run, Schedule,
}
use mesh_settle.Settlement.Effects.Post.{
  Post, TryPost, Post-bind, Post-try, Post-attempt, Post-perform, Post-run, Post-now,
}
use mesh_settle.Settlement.Outcome.{SettlementOutcome, fresh}
use mesh_settle.Settlement.Processor.{
  Processor, settlement_values, reject, settled_outcome, finish_write, write_settlement,
  settle_opened, release_and_retry, settle_claimed, after_claim, claim_and_settle, check_aad,
  after_freshness, check_freshness, after_verify, after_parse, process_packet,
}
use mesh_settle.Settlement.Processor.Calls.{row, Added, add_settlement-Added}
use mesh_settle.Settlement.Processor.Claims.{SameTables, Fault, claim-Post, mark_settled-Post}
use mesh_settle.Settlement.Processor.Gate.{fresh_at}
use mesh_settle.Settlement.Redis.{Entry, Keys, get, live}

-- An entry that has expired stays so.
get_later :
    (clock elapsed : ℕ) (k : Text) (keys : Keys)
    → get clock k keys ≡ none
    → get (clock + elapsed) k keys ≡ none
unfolding get live
get_later clock elapsed k keys h = live_later (keys k) h
  where
    live_later : (e : Option Entry) → live clock e ≡ none → live (clock + elapsed) e ≡ none
    live_later none h = refl
    live_later (some e) h = ground arith

-- An entry is there until it expires.
get_before :
    (clock : ℕ) (k : Text) (keys : Keys) (e : Entry)
    → keys k ≡ some e
    → clock < e.expires
    → get clock k keys ≢ none
unfolding get live
get_before clock k keys e h b = rw h (λ x. ground arith)

module _ (c : Primitives) (wire : Wire) (p : Processor) (packet : PaymentPacket) (most : ℕ) where
  -- The call is answered in time, and the packet is fresh by the consumer's clock.
  pub record Calm (ev : Event) : Type 0 where
    pub answered : ev.fate ≡ delivered
    pub in_window : fresh_at c wire p ev.wall packet ≡ fresh
    pub soon : ev.elapsed ≤ most

  -- What a run on the packet has of the packet itself: it was read from the message, its signature
  -- verifies, and it is bound to its header.
  pub record Genuine (body : List ℕ) : Type 0 where
    pub read : model_validate_json wire body ≡ valid packet
    pub signed : verify c packet p.sender_public_key ≡ verified
    pub bound : text_eq packet.envelope.aad (expected_aad packet) ≡ true

module _ (c : Primitives) (wire : Wire) (p : Processor) (packet : PaymentPacket) (most : ℕ) where
  abbrev In : Event → Type 0
  In = Calm c wire p packet most

  calm-unfaulty : Fault In → ⊥
  calm-unfaulty (ev, b, l) = l.undelivered b.answered

  -- A run on the packet comes to the claim, at a time within the bound.
  comes_to_claim :
      (body : List ℕ) (w : World) (Q : Result SettlementOutcome → World → Type 0)
      → Genuine c wire p packet most body
      → ((elapsed : ℕ)
          → elapsed ≤ most
          → Post In (claim_and_settle c wire p packet) (pass elapsed w) Q)
      → Post In (process_packet c wire p body) w Q
  unfolding process_packet after_parse after_verify check_freshness after_freshness check_aad
  comes_to_claim body w Q g h =
      rw (g.read, g.signed)
        (Post-now In _ w Q λ ev b. rw (b.in_window, g.bound) (h ev.elapsed b.soon))

  abbrev Duplicate : World → Result SettlementOutcome → World → Type 0
  Duplicate w r u =
      ((detail : Text) × (r ≡ ok (reject c wire p packet duplicate_packet detail)))
      × (u.tables.settlements ≡ w.tables.settlements)

  not_claimed :
      (o : ClaimOutcome) (w u : World)
      → o ≢ claimed
      → SameTables w u
      → Post In (after_claim c wire p packet o) u (Duplicate w)
  unfolding after_claim
  not_claimed claimed w u ne t = absurd (ne refl)
  not_claimed in_flight w u ne t = ((_, refl), ap (λ (x : Tables). x.settlements) t)
  not_claimed already_settled w u ne t = ((_, refl), ap (λ (x : Tables). x.settlements) t)

  claimed-Duplicate :
      (w : World) (e : Entry) (elapsed : ℕ)
      → w.keys (idempotency_key c packet) ≡ some e
      → w.clock + most + most < e.expires
      → elapsed ≤ most
      → Post In (claim_and_settle c wire p packet) (pass elapsed w) (Duplicate w)
  unfolding claim_and_settle
  claimed-Duplicate w e elapsed held later b = Post-bind In _ _ (pass elapsed w) (Duplicate w) (
      claim-Post In p.dedupe _ (pass elapsed w) _
        (λ ev u calm t. absurd (
          get_before u.clock _ w.keys e held (omega (arith, t.later, later, b, calm.soon))
            t.absent))
        (λ o ev u ne calm m t k. not_claimed o w u ne t) (λ f u t. absurd (calm-unfaulty f)))

  -- A genuine packet whose key holds an entry in Redis, be it the marker of a settlement or the
  -- claim of a consumer that may have died, is rejected as a duplicate and acknowledged while the
  -- entry lasts, the consumer's calls are answered and the packet is fresh, and the rows stay as
  -- they are, whether or not one of them is the packet's.
  pub run-Duplicate :
      (body : List ℕ) (w : World) (e : Entry) (s : Schedule) (n : ℕ)
      → Genuine c wire p packet most body
      → w.keys (idempotency_key c packet) ≡ some e
      → w.clock + most + most < e.expires
      → ((j : ℕ) → Calm c wire p packet most (s j))
      → ((detail : Text) × ((run s n (process_packet c wire p body) w).0
            ≡ ok (reject c wire p packet duplicate_packet detail)))
        × (disposition (run s n (process_packet c wire p body) w).0 ≡ ack)
        × ((run s n (process_packet c wire p body) w).1.tables.settlements ≡ w.tables.settlements)
  unfolding disposition reject
  run-Duplicate body w e s n g held later calm =
      let ((detail, outcome), same) =
        Post-run In _ w (Duplicate w)
          (comes_to_claim body w (Duplicate w) g
            (λ elapsed b. claimed-Duplicate w e elapsed held later b))
          s calm n in
      ((detail, outcome), rw outcome refl, same)

  module _ (i : PaymentInstruction)
      (held : open_instruction c wire.read_instruction packet p.settlement_private_key ≡ opened i)
      (fit : fits (settlement_values c wire p packet i) ≡ true) where
    abbrev Settled : World → Result SettlementOutcome → World → Type 0
    Settled w r u =
        (id : ℕ) × (at : ℕ) × (r ≡ ok (settled_outcome c wire p packet id))
        × (u.tables.settlements
            ≡ row id at (settlement_values c wire p packet i) ∷ w.tables.settlements)

    -- The end of a run that has won the claim: one more row, or, where a constraint refuses it, a
    -- duplicate.
    pub record Written (w : World) (r : Result SettlementOutcome) (u : World) : Type 0 where
      pub stored :
          keeps_constraints (settlement_values c wire p packet i) w.tables.settlements ≡ true
          → Settled w r u
      pub refused :
          keeps_constraints (settlement_values c wire p packet i) w.tables.settlements ≡ false
          → Duplicate w r u

    abbrev Tried : World → Result SettlementOutcome → World → Type 0
    Tried w = TryPost In (λ e. release_and_retry c wire p packet) (Written w)

    same_test :
        (w v : World)
        → v.tables ≡ w.tables
        → keeps_constraints (settlement_values c wire p packet i) v.tables.settlements
          ≡ keeps_constraints (settlement_values c wire p packet i) w.tables.settlements
    same_test w v t =
        ap (λ (y : Tables). keeps_constraints (settlement_values c wire p packet i) y.settlements) t

    finish_write-Written :
        (w v : World) (ev : Event) (r : Result ℕ) (u : World)
        → Calm c wire p packet most ev
        → v.tables ≡ w.tables
        → Added (settlement_values c wire p packet i) v ev r u
        → Post In (finish_write c wire p packet r) u (Tried w)
    unfolding finish_write
    finish_write-Written w v ev (ok id) u calm t (at, added, k, kept) = Post-bind In _ _ u _ (
        mark_settled-Post In _ _ u _
          (λ x m same. record {
            stored = λ e. (
              id,
              at,
              refl,
              ap (λ (y : Tables). y.settlements) same
                  ∙ added
                  ∙ ap
                      (λ (y : Tables).
                        row id at (settlement_values c wire p packet i) ∷ y.settlements)
                      t,
            );
            refused = λ e. absurd (ground (arith, e, kept, same_test w v t));
          })
          (λ f x same. absurd (calm-unfaulty f)))
    finish_write-Written w v ev (err integrity) u calm t (same, k, broken) = Post-bind In _ _ u _ (
        mark_settled-Post In _ _ u _
          (λ x m stay. record {
            stored = λ e. absurd (ground (arith, e, broken, same_test w v t));
            refused = λ e. (
              (_, refl),
              ap (λ (y : Tables). y.settlements) stay ∙ same ∙ ap (λ (y : Tables). y.settlements) t,
            );
          })
          (λ f x stay. absurd (calm-unfaulty f)))
    finish_write-Written w v ev (err other) u calm t (l, k, grown) =
        absurd ((l fit).undelivered calm.answered)

    write_settlement-Written :
        (w v : World)
        → v.tables ≡ w.tables
        → Post In (write_settlement c wire p packet i) v (Tried w)
    unfolding write_settlement
    write_settlement-Written w v t = Post-bind In _ _ v _ (
        Post-attempt In _ v _ (
          Post-perform In _ v _
            λ ev b. finish_write-Written w v ev _ _ b t (add_settlement-Added _ ev v)))

    settle_claimed-Written :
        (w v : World) → v.tables ≡ w.tables → Post In (settle_claimed c wire p packet) v (Written w)
    unfolding settle_claimed settle_opened
    settle_claimed-Written w v t =
        rw held (Post-try In _ _ v (Written w) (write_settlement-Written w v t))

    free-Written :
        (w : World) (elapsed : ℕ)
        → get w.clock (idempotency_key c packet) w.keys ≡ none
        → Post In (claim_and_settle c wire p packet) (pass elapsed w) (Written w)
    unfolding claim_and_settle after_claim
    free-Written w elapsed free = Post-bind In _ _ (pass elapsed w) (Written w) (
        claim-Post In p.dedupe _ (pass elapsed w) _
          (λ ev u calm t. settle_claimed-Written w u t.tables)
          (λ o ev u ne calm (m, present) t k. absurd (
            ground (
              arith,
              present,
              get_later (w.clock + elapsed) ev.elapsed _ w.keys
                  (get_later w.clock elapsed _ w.keys free),
            )))
          (λ f u t. absurd (calm-unfaulty f)))

    pub run-Written :
        (body : List ℕ) (w : World) (s : Schedule) (n : ℕ)
        → Genuine c wire p packet most body
        → get w.clock (idempotency_key c packet) w.keys ≡ none
        → ((j : ℕ) → Calm c wire p packet most (s j))
        → Written w
            (run s n (process_packet c wire p body) w).0
            (run s n (process_packet c wire p body) w).1
    run-Written body w s n g free calm =
        Post-run In _ w (Written w)
          (comes_to_claim body w (Written w) g (λ elapsed b. free-Written w elapsed free)) s calm n

    -- A genuine packet whose key is free in Redis, whose payload opens to an instruction and whose
    -- values fit and break no constraint is settled while the consumer's calls are answered and
    -- the packet is fresh: the outcome is a settlement and there is one more row, with the values
    -- of the instruction.
    pub run-settles :
        (body : List ℕ) (w : World) (s : Schedule) (n : ℕ)
        → Genuine c wire p packet most body
        → get w.clock (idempotency_key c packet) w.keys ≡ none
        → ((j : ℕ) → Calm c wire p packet most (s j))
        → keeps_constraints (settlement_values c wire p packet i) w.tables.settlements ≡ true
        → (id : ℕ) × (at : ℕ) × ((run s n (process_packet c wire p body) w).0
            ≡ ok (settled_outcome c wire p packet id))
          × ((run s n (process_packet c wire p body) w).1.tables.settlements
              ≡ row id at (settlement_values c wire p packet i) ∷ w.tables.settlements)
    run-settles body w s n g free calm kept = (run-Written body w s n g free calm).stored kept

    -- A genuine packet whose key is free in Redis, whose payload opens and whose values fit, but
    -- whose row breaks a constraint, as when its key already has a row after the marker has
    -- expired, is rejected as a duplicate while the consumer's calls are answered and the packet
    -- is fresh, and the rows stay as they are.
    pub run-refused :
        (body : List ℕ) (w : World) (s : Schedule) (n : ℕ)
        → Genuine c wire p packet most body
        → get w.clock (idempotency_key c packet) w.keys ≡ none
        → ((j : ℕ) → Calm c wire p packet most (s j))
        → keeps_constraints (settlement_values c wire p packet i) w.tables.settlements ≡ false
        → ((detail : Text) × ((run s n (process_packet c wire p body) w).0
              ≡ ok (reject c wire p packet duplicate_packet detail)))
          × ((run s n (process_packet c wire p body) w).1.tables.settlements ≡ w.tables.settlements)
    run-refused body w s n g free calm broken = (run-Written body w s n g free calm).refused broken
