-- ===== src/Crypto/Signing.antt =====
-- Signing and verification fit together.
use bzapi.Base.{◌≡◌, refl, ◌++◌, true, ◌<◌, Option, none, some, arith, length}
use bzapi.Base.Text.{Bytes}
use bzapi.Base.Outcome.{done, >>=-eq-done}
use bzapi.Messages.{Envelope}
use bzapi.Crypto.{
  OpenSsl, pem_prefix, pem_suffix, deterministic_serialize, verify, sign, set_signature,
}
use bzapi.Crypto.Framing.{SameSigned, serialize-SameSigned}

set_signature-eq_true :
    (m n : Envelope) (o : Option Bytes)
    → set_signature m o ≡ (n, true)
    → (s : Bytes) × (o ≡ some s) × (n ≡ record m { signature = s })
set_signature-eq_true m n none h = absurd (ground arith)
set_signature-eq_true m n (some s) h = (s, refl, ground arith)

resign-SameSigned : (m : Envelope) (s : Bytes) → SameSigned m (record m { signature = s })
resign-SameSigned m s = record {
  sender = refl;
  payload_type = refl;
  payload_bytes = refl;
  timestamp = refl;
}

module _ (ssl : OpenSsl) where
  open ssl use {Key, PublicKey, read_public_key, digest_sign, digest_verify}

  -- The key that verifies what `key` signs, and its text in a PEM file.
  pub record IsKeyPair (key : Key) (name : Bytes) : Type 0 where
    pub public : PublicKey
    pub nonempty : 0 < length name
    pub readable : read_public_key (pem_prefix ++ name ++ pem_suffix) ≡ some public
    pub verifies :
        (text signature : Bytes)
        → digest_sign key text ≡ some signature
        → digest_verify public text signature ≡ true

  verify_resigned :
      (key : Key) (m : Envelope) (s text : Bytes)
      → IsKeyPair key m.sender
      → deterministic_serialize m ≡ done text
      → digest_sign key text ≡ some s
      → verify ssl (record m { signature = s }) ≡ done true
  unfolding verify
  verify_resigned key m s text pair serial signs =
      rw (serialize-SameSigned m (record m { signature = s }) (resign-SameSigned m s), serial)
        (ground (arith, pair.verifies text s signs))

  -- A message that is signed with the sender's key verifies.
  pub verify-sign :
      (key : Key) (m n : Envelope)
      → IsKeyPair key m.sender
      → sign ssl (some key) m ≡ done (n, true)
      → verify ssl n ≡ done true
  unfolding sign
  verify-sign key m n pair e =
      let (text, serial, h) = >>=-eq-done (deterministic_serialize m) _ e in
      let (s, signs, same) = set_signature-eq_true m n (digest_sign key text) (cc) in
      rw same (verify_resigned key m s text pair serial signs)

  -- Verification sees nothing but the sender, the payload, the timestamp and the signature: a
  -- message with another swarm id verifies as well.
  pub verify-SameSigned :
      (m n : Envelope) → SameSigned m n → m.signature ≡ n.signature → verify ssl m ≡ verify ssl n
  unfolding verify
  verify-SameSigned m n same e = rw (serialize-SameSigned m n same, e, same.sender)
