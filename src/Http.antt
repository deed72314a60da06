-- ===== src/Http.antt =====
-- utils/http_req.cpp: the URL of a request, and the request that is made of it. The exchange with the
-- server (resolving, TLS, boost beast) is a parameter.
pub mod Urls
use bzapi.Base.{
  ℕ, List, [], ◌∷◌, ◌++◌, Bool, true, false, not, ◌&&◌, ◌||◌, Option, none, some, if◌then◌else◌,
  nat_beq, list_beq,
}
use bzapi.Base.Text.{Bytes, codes, is_empty}
use bzapi.Base.Outcome.{Outcome, done, threw, ◌>>=◌}

-- The groups of `URL_REGEX`, `(http|https)://([^/ :]+):?([^/ ]*)(/.*)?`.
pub record Url : Type 0 where
  pub protocol : Bytes
  pub host : Bytes
  pub port : Bytes
  pub path : Bytes

-- What follows a text at the front.
pub strip_prefix : Bytes → Bytes → Option Bytes
strip_prefix [] s = some s
strip_prefix (p ∷ ps) [] = none
strip_prefix (p ∷ ps) (c ∷ cs) = let rest = strip_prefix ps cs in if nat_beq p c then rest else none

-- The longest run of bytes of a class at the front, and what follows it.
pub span : (ℕ → Bool) → Bytes → Bytes × Bytes
span p [] = ([], [])
span p (c ∷ cs) = let rest = span p cs in if p c then (c ∷ rest.0, rest.1) else ([], c ∷ cs)

-- `[^/ :]` and `[^/ ]`; `.` stands for any byte but the ends of a line.
abbrev pub in_host : ℕ → Bool
in_host c = not (nat_beq c b'/') && not (nat_beq c b' ') && not (nat_beq c b':')

abbrev pub in_port : ℕ → Bool
in_port c = not (nat_beq c b'/') && not (nat_beq c b' ')

abbrev pub in_path : ℕ → Bool
in_path c = not (nat_beq c 10) && not (nat_beq c 13)

-- `:?`
abbrev pub skip_colon : Bytes → Bytes
skip_colon [] = []
skip_colon (c ∷ cs) = if nat_beq c b':' then cs else c ∷ cs

-- `(/.*)?` at the end.
pub match_path : Bytes → Option Bytes
unfolding span
match_path [] = some []
match_path (c ∷ cs) = if nat_beq c b'/' && is_empty (span in_path cs).1 then some (c ∷ cs) else none

-- The groups behind the host, and behind the port.
abbrev pub match_rest : Bytes → Bytes → Bytes × Bytes → Option Url
unfolding match_path
match_rest protocol host (port, after_port) = elim (match_path after_port) [
  | none ↦ none
  | some path ↦ some (record { protocol = protocol; host = host; port = port; path = path })
]

abbrev pub match_port : Bytes → Bytes × Bytes → Option Url
unfolding span match_rest
match_port protocol (host, after_host) =
    if is_empty host then none else match_rest protocol host (span in_port (skip_colon after_host))

pub match_groups : Bytes → Bytes → Option Url
unfolding span match_port
match_groups protocol s = match_port protocol (span in_host s)

-- `regex_match`. The groups are greedy, and no shorter one lets a text match that does not match so.
pub match_url : Bytes → Option Url
unfolding strip_prefix match_groups
match_url url = elim (strip_prefix (codes "http://") url) [
  | some rest ↦ match_groups (codes "http") rest
  | none ↦ elim (strip_prefix (codes "https://") url) [
    | some rest ↦ match_groups (codes "https") rest
    | none ↦ none
  ]
]

pub data Verb : Type 0 where
  get post : Verb

-- What is sent, and where to: `service` is a port, or the name of one.
pub record HttpRequest : Type 0 where
  pub secure : Bool
  pub host : Bytes
  pub service : Bytes
  pub verb : Verb
  pub target : Bytes
  pub body : Bytes

pub make_request : Url → Bytes → HttpRequest
make_request u post_body = record {
  secure = list_beq u.protocol (codes "https");
  host = u.host;
  service = if is_empty u.port then u.protocol else u.port;
  verb = if is_empty post_body then get else post;
  target = if is_empty u.path then codes "/" else u.path;
  body = post_body;
}

abbrev sent : (HttpRequest → Outcome Bytes) → Bytes → Option Url → Outcome Bytes
unfolding make_request
sent exchange post_body none = threw
sent exchange post_body (some u) = exchange (make_request u post_body)

pub sync_req : (HttpRequest → Outcome Bytes) → Bytes → Bytes → Outcome Bytes
unfolding match_url sent
sync_req exchange url post_body = sent exchange post_body (match_url url)
