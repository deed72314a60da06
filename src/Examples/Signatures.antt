-- ===== src/Examples/Signatures.antt =====
-- Signing and verification, tried on a library whose keys are the senders' names.
use bzapi.Base.{◌≡◌, ◌↔◌, refl, ◌++◌, true, some, arith, ◌==◌, list_eq, eq_refl}
use bzapi.Base.Text.{Bytes, codes}
use bzapi.Base.Decimal.{to_string}
use bzapi.Base.Outcome.{done}
use bzapi.Messages.{Payload, Envelope}
use bzapi.Crypto.{
  OpenSsl, deterministic_serialize, pem_prefix, pem_suffix, sign, verify, extract_payload,
  serialize_tokens, tokens_of, frame,
}
use bzapi.Crypto.Framing.{SameSigned, deterministic_serialize-eq_iff}
use bzapi.Crypto.Signing.{IsKeyPair, verify-sign}
use bzapi.Dispatch.{empty_envelope}

-- The signature of a text is the text; every key is read.
abbrev pub echo_ssl : OpenSsl
echo_ssl = record {
  Key = Bytes;
  PublicKey = Bytes;
  read_private_key = λ pem. some pem;
  read_public_key = λ pem. some pem;
  digest_sign = λ key text. some text;
  digest_verify = λ key text signature. text == signature;
}

abbrev question : Envelope
question = record empty_envelope {
  sender = codes "alice";
  timestamp = 12;
  payload = Payload.database_msg (codes "ask");
}

abbrev elsewhere : Envelope
elsewhere = record question { swarm_id = codes "other" }

abbrev question_text : Bytes
question_text = codes "5|alice2|103|ask2|12"

deterministic_serialize-eq_iff_example :
    (deterministic_serialize elsewhere ≡ done question_text) ↔ SameSigned question elsewhere
unfolding deterministic_serialize extract_payload serialize_tokens tokens_of frame to_string
deterministic_serialize-eq_iff_example = deterministic_serialize-eq_iff question elsewhere refl

alice-IsKeyPair : IsKeyPair echo_ssl (codes "key") (codes "alice")
alice-IsKeyPair = record {
  public = pem_prefix ++ codes "alice" ++ pem_suffix;
  nonempty = omega arith;
  readable = refl;
  verifies = λ text signature e. ground (arith, eq_refl text);
}

verify-sign_example : verify echo_ssl (record question { signature = question_text }) ≡ done true
unfolding sign deterministic_serialize extract_payload serialize_tokens tokens_of frame to_string
verify-sign_example =
    verify-sign echo_ssl (codes "key") question (record question { signature = question_text })
      alice-IsKeyPair refl
