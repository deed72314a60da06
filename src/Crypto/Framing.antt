-- ===== src/Crypto/Framing.antt =====
-- The text that is signed can be taken apart again: no two messages share it.
use bzapi.Base.{
  ℕ, ◌+◌, ◌-◌, ◌*◌, ◌≡◌, refl, ap, sym, ◌∙◌, ◌↔◌, List, [], ◌∷◌, ◌++◌, Option, none, some, arith,
  nat_beq, if◌then◌else◌, length, take, drop, take-append, drop-append, All,
}
use mathlib.Core.List.{append_assoc, append-nil}
use bzapi.Base.Text.{Bytes}
use bzapi.Base.Decimal.{
  IsDigit, to_string, from_digits, from_digits-to_string, to_string-IsDigit, to_string-injective,
}
use bzapi.Base.Outcome.{done, >>=-eq-done}
use bzapi.Messages.{Envelope, payload_case}
use bzapi.Crypto.{frame, serialize_tokens, tokens_of, deterministic_serialize, extract_payload}

-- A reader of one frame: `acc` is the length read so far.
unframe : ℕ → Bytes → Option (Bytes × Bytes)
unframe acc [] = none
unframe acc (c ∷ cs) =
    if nat_beq c b'|' then some (take acc cs, drop acc cs) else unframe (acc * 10 + (c - 48)) cs

unframe-digits :
    (acc : ℕ) (ds rest : Bytes)
    → All IsDigit ds
    → unframe acc (ds ++ (b'|' ∷ rest))
      ≡ some (take (from_digits acc ds) rest, drop (from_digits acc ds) rest)
unfolding unframe from_digits
unframe-digits acc [] rest h = refl
unframe-digits acc (d ∷ ds) rest h =
    ground (arith, unframe-digits (acc * 10 + (d - 48)) ds rest h.1)

unframe-frame : (token rest : Bytes) → unframe 0 (frame token ++ rest) ≡ some (token, rest)
unfolding frame
unframe-frame token rest = rw append_assoc (
    unframe-digits 0 (to_string (length token)) (token ++ rest) (to_string-IsDigit _)
    ∙ rw (from_digits-to_string, take-append, drop-append))

frame-injective : (t u r s : Bytes) → frame t ++ r ≡ frame u ++ s → (t ≡ u) × (r ≡ s)
frame-injective t u r s e =
    ground (arith, sym (unframe-frame t r) ∙ ap (unframe 0) e ∙ unframe-frame u s)

-- The frames of a list of tokens, one after the other.
frames : List Bytes → Bytes
frames [] = []
frames (token ∷ tokens) = frame token ++ frames tokens

serialize_tokens-frames :
    (result : Bytes) (tokens : List Bytes)
    → serialize_tokens result tokens ≡ result ++ frames tokens
unfolding serialize_tokens frames
serialize_tokens-frames result [] = sym (append-nil result)
serialize_tokens-frames result (t ∷ ts) =
    serialize_tokens-frames (result ++ frame t) ts ∙ append_assoc result (frame t) (frames ts)

frames_injective : (ts us : List Bytes) → length ts ≡ length us → frames ts ≡ frames us → ts ≡ us
unfolding frames
frames_injective [] [] l e = refl
frames_injective [] (u ∷ us) l e = absurd (omega arith)
frames_injective (t ∷ ts) [] l e = absurd (omega arith)
frames_injective (t ∷ ts) (u ∷ us) l e =
    let h = frame-injective t u (frames ts) (frames us) e in
    cc (h.0, frames_injective ts us (omega arith) h.1)

-- What a signature covers: the sender, the type and the bytes of the payload, the timestamp.
pub record SameSigned (m n : Envelope) : Type 0 where
  pub sender : m.sender ≡ n.sender
  pub payload_type : payload_case m.payload ≡ payload_case n.payload
  pub payload_bytes : extract_payload m.payload ≡ extract_payload n.payload
  pub timestamp : m.timestamp ≡ n.timestamp

tokens_of-injective :
    (m n : Envelope) (p q : Bytes)
    → tokens_of m p ≡ tokens_of n q
    → (m.sender ≡ n.sender)
      × (payload_case m.payload ≡ payload_case n.payload)
      × (p ≡ q)
      × (m.timestamp ≡ n.timestamp)
unfolding tokens_of
tokens_of-injective m n p q e = ground (
  arith,
  to_string-injective (payload_case m.payload) (payload_case n.payload),
  to_string-injective m.timestamp n.timestamp,
)

serialize_done_injective :
    (m n : Envelope) (p q : Bytes)
    → serialize_tokens [] (tokens_of m p) ≡ serialize_tokens [] (tokens_of n q)
    → tokens_of m p ≡ tokens_of n q
unfolding tokens_of
serialize_done_injective m n p q e =
    frames_injective _ _ refl
      (sym (serialize_tokens-frames [] _) ∙ e ∙ serialize_tokens-frames [] _)

pub serialize-SameSigned :
    (m n : Envelope) → SameSigned m n → deterministic_serialize n ≡ deterministic_serialize m
unfolding deterministic_serialize tokens_of
serialize-SameSigned m n s = rw (s.payload_bytes, s.sender, s.payload_type, s.timestamp)

-- The text that `m` signs, and what it is made of.
serialized :
    (m : Envelope) {text : Bytes}
    → deterministic_serialize m ≡ done text
    → (p : Bytes) × (extract_payload m.payload ≡ done p)
      × (serialize_tokens [] (tokens_of m p) ≡ text)
unfolding deterministic_serialize
serialized m e = let (p, ep, h) = >>=-eq-done (extract_payload m.payload) _ e in (p, ep, cc)

-- Two messages that can be signed have the same text to sign exactly when they agree in the sender,
-- the type and the bytes of the payload, and the timestamp.
pub deterministic_serialize-eq_iff :
    (m n : Envelope) {text : Bytes}
    → deterministic_serialize m ≡ done text
    → (deterministic_serialize n ≡ done text) ↔ SameSigned m n
unfolding deterministic_serialize
deterministic_serialize-eq_iff m n {text} e =
    let (p, ep, hp) = serialized m e in
    (
      λ f.
          let (q, fq, hq) = serialized n f in
          let same = tokens_of-injective m n p q (serialize_done_injective m n p q (hp ∙ sym hq)) in
          record {
            sender = same.0;
            payload_type = same.1;
            payload_bytes = ep ∙ ap done same.2 ∙ sym fq;
            timestamp = same.3;
          },
      λ s. serialize-SameSigned m n s ∙ e,
    )
