-- ===== src/Library/Endpoint.antt =====
-- library/library.cpp: `parse_endpoint` on endpoints that are well formed.
use bzapi.Base.{
  ℕ, ◌≡◌, ◌≢◌, refl, [], ◌∷◌, ◌++◌, some, list_beq, take, drop, All, arith, ◌⊎◌, inl, inr,
  Bool-cases, Option-cases,
}
use bzapi.Base.Text.{Bytes, codes}
use bzapi.Base.Decimal.{to_string, to_string-IsDigit, IsDigit}
use bzapi.Library.{
  Library, returned, raised, Outside, find_colon, c_str, parse_endpoint, do_bad_endpoint, minus_one,
}

find_colon-append :
    (host rest : Bytes)
    → All (λ c. c ≢ b':') host
    → find_colon (host ++ (b':' ∷ rest)) ≡ some (host, rest)
unfolding find_colon
find_colon-append [] rest none_in = refl
find_colon-append (c ∷ host) rest (this, others) =
    rw (find_colon-append host rest others) (ground arith)

c_str-IsDigit : (digits : Bytes) → All IsDigit digits → c_str digits ≡ digits
unfolding c_str
c_str-IsDigit [] all = refl
c_str-IsDigit (c ∷ cs) (this, others) = ground (arith, c_str-IsDigit cs others)

-- What `do_bad_endpoint` leaves.
abbrev pub bad_endpoint : Library → Library
bad_endpoint l = record l { error_str = codes "Bad Endpoint"; error_val = minus_one }

-- An endpoint is parsed, or it is bad.
pub parse_endpoint-ends :
    (o : Outside) (endpoint : Bytes) (l : Library)
    → ((ep : Bytes × ℕ) × (parse_endpoint o endpoint l ≡ returned ep l))
      ⊎ (parse_endpoint o endpoint l ≡ raised (bad_endpoint l))
unfolding parse_endpoint do_bad_endpoint
parse_endpoint-ends o endpoint l = elim (Bool-cases (list_beq (take 5 endpoint) (codes "ws://"))) [
  | inr no_prefix ↦ inr (rw (no_prefix, parse_endpoint) refl)
  | inl prefix ↦ elim (Option-cases (find_colon (drop 5 endpoint))) [
    | inl no_colon ↦ inr (rw (prefix, parse_endpoint, no_colon) refl)
    | inr ((addr, rest), found) ↦ elim (Option-cases (o.lexical_cast (c_str rest))) [
      | inl no_port ↦ inr (rw (prefix, parse_endpoint, found, no_port) refl)
      | inr (port, read) ↦ inl ((addr, port), rw (prefix, parse_endpoint, found, read) refl)
    ]
  ]
]

-- Where the cast reads the decimal digits of a port as the port, the endpoint "ws://host:port" is
-- parsed into the host and the port, for every host without a colon.
pub parse_endpoint-to_string :
    (o : Outside) (host : Bytes) (port : ℕ) (l : Library)
    → o.lexical_cast (to_string port) ≡ some port
    → All (λ c. c ≢ b':') host
    → parse_endpoint o (codes "ws://" ++ (host ++ (b':' ∷ to_string port))) l
      ≡ returned (host, port) l
unfolding parse_endpoint list_beq
parse_endpoint-to_string o host port l reads none_in =
    rw
      (
        find_colon-append host (to_string port) none_in,
        c_str-IsDigit (to_string port) (to_string-IsDigit port),
        reads,
      )
      refl
