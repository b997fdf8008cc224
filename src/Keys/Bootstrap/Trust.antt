-- ===== src/Keys/Bootstrap/Trust.antt =====
-- scripts/bootstrap_env.py, services/sender and services/settlement: a packet that the sender makes
-- with the keys of a bootstrapped environment, for those who load theirs from it.
use mesh_settle.Prelude.{ℕ, ◌≡◌, refl, sym, ap, ◌∙◌, List, length}
use mesh_settle.Crypto.Hybrid.{aes_key_bytes}
use mesh_settle.Crypto.Primitives.{Key, Primitives, PrimitiveLaws}
use mesh_settle.Crypto.Signing.{verified}
use mesh_settle.Keys.Accessors.{
  empty_cache, sender_signing_private_key, sender_signing_public_key, settlement_rsa_private_key,
  settlement_rsa_public_key,
}
use mesh_settle.Keys.Bootstrap.{Drawn, build_files}
use mesh_settle.Keys.Bootstrap.Deployed.{KeysFrom, build_files-Deployed}
use mesh_settle.Keys.Bootstrap.Reader.{Reader, ReaderLaws}
use mesh_settle.Keys.Library.{PemLibrary, PemLaws}
use mesh_settle.Keys.Loading.{Loaded, loaded, key_configuration_error}
use mesh_settle.Keys.Settings.{Settings}
use mesh_settle.Mesh.Sender.{Draws, accepted, created_response, create_packet, sender_id_for}
use mesh_settle.Mesh.Sender.Sealed.{verify-create, open_instruction-create}
use mesh_settle.Models.Fields.{valid}
use mesh_settle.Models.Instruction.{
  PaymentInstruction, TransactionRequest, RawRequest, ReadInstruction, fields, validate_request,
  to_instruction, to_canonical_bytes, request_fields,
}
use mesh_settle.Models.Packet.{PaymentPacket, create, verify, open_instruction, opened}

abbrev key_of : Loaded → Key
key_of (loaded key) = key
key_of (key_configuration_error message) = List.[]

-- The keys that processes load from the settings, each from an empty cache.
pub record Loads (lib : PemLibrary) (s : Settings) : Type 0 where
  pub signing_private : Key
  pub signing_public : Key
  pub rsa_private : Key
  pub rsa_public : Key
  pub loads_signing_private :
      (sender_signing_private_key lib s empty_cache).0 ≡ loaded signing_private
  pub loads_signing_public : (sender_signing_public_key lib s empty_cache).0 ≡ loaded signing_public
  pub loads_rsa_private : (settlement_rsa_private_key lib s empty_cache).0 ≡ loaded rsa_private
  pub loads_rsa_public : (settlement_rsa_public_key lib s empty_cache).0 ≡ loaded rsa_public

-- A request that the sender can answer, and the instruction that it makes of it.
pub record Answerable (read : List ℕ → ReadInstruction) (draws : Draws) (body : RawRequest)
    (i : PaymentInstruction) : Type 0 where
  pub request : TransactionRequest
  pub accepts : validate_request body ≡ valid request
  pub long_key : length draws.randomness.content_key ≡ aes_key_bytes
  pub made_of : to_instruction request draws.uuid draws.instruction_time ≡ valid i
  pub read_back :
      read (to_canonical_bytes i)
      ≡ fields (request_fields request draws.uuid draws.instruction_time)

-- The sender answers with a packet that the relays, the bridge and the settlement service verify, and
-- that the settlement service opens to the instruction.
pub record Trusted (c : Primitives) (lib : PemLibrary) (s : Settings) (k : Loads lib s)
    (read : List ℕ → ReadInstruction) (draws : Draws) (body : RawRequest) (i : PaymentInstruction)
    : Type 0 where
  pub packet : PaymentPacket
  pub answered :
      create_packet c k.signing_private k.rsa_public draws body
      ≡ accepted (created_response c k.signing_private k.rsa_public draws packet)
  pub signed : verify c packet k.signing_public ≡ verified
  pub opens : open_instruction c read packet k.rsa_private ≡ opened i

module _ (c : Primitives) (laws : PrimitiveLaws c) (lib : PemLibrary) (pem_laws : PemLaws lib)
    (d : Drawn) (reader : Reader) (reader_laws : ReaderLaws reader) where
  -- With the keys that processes load from settings which hold what a reader of env files finds in
  -- the bootstrapped file, the sender answers a request from which an instruction is made with a
  -- packet that verifies under the public key of the others and that the settlement key opens to
  -- the instruction, if the library of PEM texts reads what it writes, the primitives undo each
  -- other, the content key has 32 bytes and the canonical bytes of the instruction are read back.
  pub create_packet-Trusted :
      (s : Settings) (from : KeysFrom reader (build_files c lib d).0 s) (k : Loads lib s)
      (read : List ℕ → ReadInstruction) (draws : Draws) (body : RawRequest) (i : PaymentInstruction)
      → Answerable read draws body i
      → Trusted c lib s k read draws body i
  unfolding create_packet
  create_packet-Trusted s from k read draws body i can =
      let deployed = build_files-Deployed c lib pem_laws d reader reader_laws s from in
      let signing = ap key_of (sym k.loads_signing_private ∙ deployed.signing_private) in
      let signing_public = ap key_of (sym k.loads_signing_public ∙ deployed.signing_public) in
      let rsa = ap key_of (sym k.loads_rsa_private ∙ deployed.rsa_private) in
      let rsa_public = ap key_of (sym k.loads_rsa_public ∙ deployed.rsa_public) in
      let sender_id = sender_id_for c k.signing_private in
      let public = signing_public ∙ ap c.ed25519_public (sym signing) in
      let recipient = rsa_public ∙ ap c.rsa_public (sym rsa) in
      record {
        packet =
            create c draws.randomness i sender_id k.signing_private k.rsa_public draws.packet_time;
        answered = rw (can.accepts, can.made_of) refl;
        signed = rw public (
            verify-create c laws draws.randomness i sender_id k.signing_private draws.packet_time
              k.rsa_public);
        opens = rw recipient (
            open_instruction-create c laws draws.randomness i sender_id k.signing_private
              draws.packet_time read k.rsa_private can.request draws.uuid draws.instruction_time
              can.long_key can.made_of can.read_back);
      }
