-- ===== src/Tests/Documents.antt =====
-- Documents of packets that are read back: each text with its length before it.
use mesh_settle.Prelude.{ℕ, suc, zero, ◌≡◌, refl, ap, List, [], ◌∷◌, ◌++◌, length}
use mesh_settle.Models.Moment.{Moment}
use mesh_settle.Models.Packet.{PaymentPacket, HopRecord}

-- The first elements of a list, that many, and the others.
split : ℕ → List ℕ → List ℕ × List ℕ
split zero xs = ([], xs)
split (suc n) [] = ([], [])
split (suc n) (x ∷ xs) = let (a, b) = split n xs in (x ∷ a, b)

split-append : (xs ys : List ℕ) → split (length xs) (xs ++ ys) ≡ (xs, ys)
unfolding split
split-append [] ys = refl
split-append (x ∷ xs) ys = ap (λ (p : List ℕ × List ℕ). (x ∷ p.0, p.1)) (split-append xs ys)

put : List ℕ → List ℕ → List ℕ
put xs rest = length xs ∷ xs ++ rest

got : List ℕ → List ℕ × List ℕ
unfolding split
got [] = ([], [])
got (n ∷ rest) = split n rest

got-put : (xs rest : List ℕ) → got (put xs rest) ≡ (xs, rest)
unfolding got put
got-put xs rest = split-append xs rest

put_moment : Moment → List ℕ → List ℕ
put_moment m rest = m.year ∷ m.month ∷ m.day ∷ m.hour ∷ m.minute ∷ m.second ∷ m.microsecond ∷ rest

abbrev no_moment : Moment
no_moment = record {
  year = 1;
  month = 1;
  day = 1;
  hour = 0;
  minute = 0;
  second = 0;
  microsecond = 0;
}

got_moment : List ℕ → Moment × List ℕ
got_moment (y ∷ mo ∷ d ∷ h ∷ mi ∷ s ∷ us ∷ rest) = (
  record { year = y; month = mo; day = d; hour = h; minute = mi; second = s; microsecond = us },
  rest,
)
got_moment _ = (no_moment, [])

put_hops : List HopRecord → List ℕ → List ℕ
unfolding put put_moment
put_hops [] rest = 0 ∷ rest
put_hops (h ∷ hs) rest = 1 ∷ put h.node_id (put_moment h.received_at (put_hops hs rest))

got_hops : ℕ → List ℕ → List HopRecord
unfolding got got_moment
got_hops zero b = []
got_hops (suc n) (suc m ∷ b) =
    let id = got b in
    let at = got_moment id.1 in record { node_id = id.0; received_at = at.0 } ∷ got_hops n at.1
got_hops (suc n) _ = []

got_hops-put : (hs : List HopRecord) → got_hops (length hs) (put_hops hs []) ≡ hs
unfolding got_hops put_hops got_moment put_moment
got_hops-put [] = refl
got_hops-put (h ∷ hs) = rw (got-put, got_hops-put hs) refl

unfoldable pub written : PaymentPacket → List ℕ
unfolding put put_moment put_hops
written p =
    p.packet_id
    ∷ length p.hops
    ∷ put p.sender_id (
        put_moment p.created_at (
          put p.envelope.encrypted_key (
            put p.envelope.nonce (
              put p.envelope.ciphertext
                (put p.envelope.aad (put p.signature (put_hops p.hops [])))))))

abbrev no_packet : PaymentPacket
no_packet = record {
  packet_id = 0;
  sender_id = [];
  created_at = no_moment;
  envelope = record { encrypted_key = []; nonce = []; ciphertext = []; aad = [] };
  signature = [];
  hops = [];
}

unfoldable pub read_back : List ℕ → PaymentPacket
unfolding got got_moment got_hops
read_back (id ∷ n ∷ b) =
    let sender = got b in
    let at = got_moment sender.1 in
    let key = got at.1 in
    let nonce = got key.1 in
    let ciphertext = got nonce.1 in
    let aad = got ciphertext.1 in
    let signature = got aad.1 in
    record {
      packet_id = id;
      sender_id = sender.0;
      created_at = at.0;
      envelope = record {
        encrypted_key = key.0;
        nonce = nonce.0;
        ciphertext = ciphertext.0;
        aad = aad.0;
      };
      signature = signature.0;
      hops = got_hops n signature.1;
    }
read_back _ = no_packet

pub read_back-written : (p : PaymentPacket) → read_back (written p) ≡ p
unfolding read_back written
read_back-written p = simp (got-put, got_hops-put)
