-- ===== src/Crypto/Signing/Injective.antt =====
-- The bytes that are signed, and the associated data, name their fields without ambiguity.
use mesh_settle.Prelude.{
  ℕ, zero, suc, ◌≡◌, refl, ap, sym, ◌∙◌, List, [], ◌∷◌, Text, codes, arith, some,
}
use mesh_settle.Crypto.Base64.{b64u_encode, b64u_decode}
use mesh_settle.Crypto.Base64.RoundTrip.{Bytes, b64u_decode-encode}
use mesh_settle.Crypto.Json.{sort_items}
use mesh_settle.Crypto.Json.Members.{canonical_json_injective}
use mesh_settle.Crypto.Signing.{build_aad, SignedFields}

-- Texts that encode bytes are the same only for the same bytes.
pub b64u_encode_injective :
    (a b : List ℕ) → Bytes a → Bytes b → b64u_encode a ≡ b64u_encode b → a ≡ b
b64u_encode_injective a b ha hb e =
    some_injective a b (sym (b64u_decode-encode a ha) ∙ ap b64u_decode e ∙ b64u_decode-encode b hb)
  where
    some_injective : (x y : List ℕ) → some x ≡ some y → x ≡ y
    some_injective x y p = ground arith

-- The associated data of two headers are the same only if the packet ids and the sender ids are.
pub build_aad_injective : (p s q t : Text) → build_aad p s ≡ build_aad q t → (p ≡ q) × (s ≡ t)
unfolding build_aad
build_aad_injective p s q t e =
    let same =
      canonical_json_injective ((codes "packet_id", p) ∷ (codes "sender_id", s) ∷ [])
        ((codes "packet_id", q) ∷ (codes "sender_id", t) ∷ [])
        ((codes "packet_id", p) ∷ (codes "sender_id", s) ∷ [])
        ((codes "packet_id", q) ∷ (codes "sender_id", t) ∷ []) (unfold sort_items in refl)
        (unfold sort_items in refl) e in
    (ground arith, ground arith)

-- The byte fields hold bytes.
pub record HasBytes (f : SignedFields) : Type 0 where
  pub encrypted_key : Bytes f.encrypted_key
  pub nonce : Bytes f.nonce
  pub ciphertext : Bytes f.ciphertext
  pub aad : Bytes f.aad

-- The members of the signed mapping, in the order of their keys.
abbrev sorted : SignedFields → List (Text × Text)
sorted f =
    (codes "aad", b64u_encode f.aad)
    ∷ (codes "ciphertext", b64u_encode f.ciphertext)
    ∷ (codes "created_at", f.created_at)
    ∷ (codes "encrypted_key", b64u_encode f.encrypted_key)
    ∷ (codes "nonce", b64u_encode f.nonce)
    ∷ (codes "packet_id", f.packet_id)
    ∷ (codes "sender_id", f.sender_id)
    ∷ []

abbrev unsorted : SignedFields → List (Text × Text)
unsorted f =
    (codes "packet_id", f.packet_id)
    ∷ (codes "sender_id", f.sender_id)
    ∷ (codes "created_at", f.created_at)
    ∷ (codes "encrypted_key", b64u_encode f.encrypted_key)
    ∷ (codes "nonce", b64u_encode f.nonce)
    ∷ (codes "ciphertext", b64u_encode f.ciphertext)
    ∷ (codes "aad", b64u_encode f.aad)
    ∷ []

record SameTexts (f g : SignedFields) : Type 0 where
  packet_id : f.packet_id ≡ g.packet_id
  sender_id : f.sender_id ≡ g.sender_id
  created_at : f.created_at ≡ g.created_at
  encrypted_key : b64u_encode f.encrypted_key ≡ b64u_encode g.encrypted_key
  nonce : b64u_encode f.nonce ≡ b64u_encode g.nonce
  ciphertext : b64u_encode f.ciphertext ≡ b64u_encode g.ciphertext
  aad : b64u_encode f.aad ≡ b64u_encode g.aad

nth : ℕ → List (Text × Text) → Text
nth n [] = []
nth zero (m ∷ l) = m.1
nth (suc n) (m ∷ l) = nth n l
