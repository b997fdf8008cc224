-- ===== src/Settlement/System/Delivery.antt =====
-- services/settlement, with its broker: messages are neither lost nor made up by the queue and the
-- consumers, and only final outcomes are acknowledged.
use mesh_settle.Prelude.{
  ℕ, ◌+◌, ◌≡◌, refl, false, List, ◌∷◌, ◌++◌, text_eq, arith, if◌then◌else◌, All, tally,
  tally-insert, Bool-cases, inl, inr,
}
use mesh_settle.Crypto.Primitives.{Primitives}
use mesh_settle.Models.Wire.{Wire}
use mesh_settle.Settlement.Consumer.{Disposition, ack, requeue, disposition}
use mesh_settle.Settlement.Effects.{Result, ok, err, call, take_call}
use mesh_settle.Settlement.Outcome.{SettlementOutcome}
use mesh_settle.Settlement.Processor.{Processor}
use mesh_settle.Settlement.Redis.{Keys}
use mesh_settle.Settlement.System.{
  Flight, Answer, System, answer, Step, publish, deliver, step_call, finish_flight, fail_flight,
  crash, lose_keys, Reach, here, onward, started,
}

-- How often a body is among the messages.
abbrev pub copies : List ℕ → List (List ℕ) → ℕ
copies b = tally (λ body. if text_eq b body then 1 else 0)

abbrev pub copies_held : List ℕ → List Flight → ℕ
copies_held b = tally (λ (f : Flight). if text_eq b f.body then 1 else 0)

abbrev pub copies_acked : List ℕ → List Answer → ℕ
copies_acked b = tally (λ (a : Answer). if text_eq b a.body then 1 else 0)

abbrev pub Balanced : List ℕ → System → Type 0
Balanced b s =
    copies b s.published ≡ copies b s.ready + copies_held b s.flights + copies_acked b s.acked

-- An answer that ends a delivery was given for a final outcome.
abbrev pub Final : Answer → Type 0
Final a = (o : SettlementOutcome) × (a.result ≡ ok o) × (o.retryable ≡ false)

module _ (c : Primitives) (wire : Wire) (p : Processor) where
  answer-Balanced :
      (b : List ℕ) (before : List Flight) (f : Flight) (after : List Flight) (s : System)
      (r : Result SettlementOutcome) (d : Disposition)
      → Balanced b (record s { flights = before ++ f ∷ after })
      → Balanced b
          (answer (record { body = f.body; result = r }) d (record s { flights = before ++ after }))
  unfolding answer tally
  answer-Balanced b before f after s r ack h =
      omega
        (arith, h, tally-insert (λ (x : Flight). if text_eq b x.body then 1 else 0) before f after)
  answer-Balanced b before f after s r requeue h =
      omega
        (arith, h, tally-insert (λ (x : Flight). if text_eq b x.body then 1 else 0) before f after)

  Step-Balanced : (b : List ℕ) (s t : System) → Step c wire p s t → Balanced b s → Balanced b t
  unfolding tally
  Step-Balanced b _ _ (publish body s) h = omega (arith, h)
  Step-Balanced b _ _ (deliver before body after s) h =
      omega (arith, h, tally-insert (λ x. if text_eq b x then 1 else 0) before body after)
  Step-Balanced b _ _ (step_call before body k next after ev s) h =
      let same : Flight → ℕ = λ f. if text_eq b f.body then 1 else 0 in
      omega (
        arith,
        h,
        tally-insert same before (record { body = body; left = call k next }) after,
        tally-insert same before (record { body = body; left = next (take_call ev k s.world).0 })
            after,
      )
  Step-Balanced b _ _ (finish_flight before body o after s) h =
      answer-Balanced b before _ after s (ok o) _ h
  Step-Balanced b _ _ (fail_flight before body after s e) h =
      answer-Balanced b before _ after s (err e) _ h
  Step-Balanced b _ _ (crash before f after s) h =
      omega
        (arith, h, tally-insert (λ (x : Flight). if text_eq b x.body then 1 else 0) before f after)
  Step-Balanced b _ _ (lose_keys keys s) h = h

  -- In every state that the consumers reach, each message that was published is, as often as it
  -- was published, in the queue, in the hands of a consumer, or acknowledged.
  pub published_kept :
      (clock : ℕ) (keys : Keys) (s : System)
      → Reach c wire p (started clock keys) s
      → (b : List ℕ)
      → copies b s.published ≡ copies b s.ready + copies_held b s.flights + copies_acked b s.acked
  published_kept clock keys _ here b = unfold tally in refl
  published_kept clock keys s (onward u _ r step) b =
      Step-Balanced b u s step (published_kept clock keys u r b)

  finish-Final :
      (body : List ℕ) (o : SettlementOutcome) (s : System)
      → All Final s.acked
      → All Final (answer (record { body = body; result = ok o }) (disposition (ok o)) s).acked
  unfolding answer disposition
  finish-Final body o s h = elim (Bool-cases o.retryable) [
    | inl retried ↦ simp retried h
    | inr final ↦ simp final ((o, refl, final), h)
  ]

  Step-Final : (s t : System) → Step c wire p s t → All Final s.acked → All Final t.acked
  unfolding answer disposition
  Step-Final _ _ (publish body s) h = h
  Step-Final _ _ (deliver before body after s) h = h
  Step-Final _ _ (step_call before body k next after ev s) h = h
  Step-Final _ _ (finish_flight before body o after s) h = finish-Final body o _ h
  Step-Final _ _ (fail_flight before body after s e) h = h
  Step-Final _ _ (crash before f after s) h = h
  Step-Final _ _ (lose_keys keys s) h = h

  -- In every state that the consumers reach, each delivery that was acknowledged ended in an
  -- outcome that is not to be retried, and none in an exception.
  pub acked-Final :
      (clock : ℕ) (keys : Keys) (s : System)
      → Reach c wire p (started clock keys) s
      → All Final s.acked
  acked-Final clock keys _ here = tt
  acked-Final clock keys s (onward u _ r step) = Step-Final u s step (acked-Final clock keys u r)
