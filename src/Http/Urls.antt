-- ===== src/Http/Urls.antt =====
-- utils/http_req.cpp: the URLs that are read as they were meant.
use bzapi.Base.{
  ℕ, ◌≡◌, ◌⊎◌, inl, inr, refl, sym, ap, ◌∙◌, subst, if-false, [], ◌∷◌, ◌++◌, Bool, true, false,
  none, some, All,
}
use bzapi.Base.Text.{Bytes, codes, is_empty}
use bzapi.Base.Outcome.{Outcome}
use bzapi.Http.{
  Url, strip_prefix, span, in_host, in_port, in_path, skip_colon, match_path, match_rest,
  match_port, match_groups, match_url, HttpRequest, make_request, sync_req,
}

-- No byte of the class is at the front.
abbrev Stops : (ℕ → Bool) → Bytes → Type 0
Stops p [] = Unit {0}
Stops p (c ∷ cs) = p c ≡ false

span-append :
    (p : ℕ → Bool) (run rest : Bytes)
    → All (λ c. p c ≡ true) run
    → Stops p rest
    → span p (run ++ rest) ≡ (run, rest)
unfolding span
span-append p [] [] a stops = refl
span-append p [] (c ∷ cs) stops_run stops = rw stops refl
span-append p (r ∷ run) rest (first, others) stops =
    rw (span-append p run rest others stops, span) (rw first refl)

-- A path is empty, or a slash and bytes of one line.
pub data IsPath : Bytes → Type 0 where
  no_path : IsPath []
  slash : (cs : Bytes) → All (λ c. in_path c ≡ true) cs → IsPath (b'/' ∷ cs)

-- The parts of a URL: a host that is not empty, a port that may be, and a path.
pub record IsUrl (u : Url) : Type 0 where
  pub protocol_is : (u.protocol ≡ codes "http") ⊎ (u.protocol ≡ codes "https")
  pub some_host : is_empty u.host ≡ false
  pub host_is : All (λ c. in_host c ≡ true) u.host
  pub port_is : All (λ c. in_port c ≡ true) u.port
  pub path_is : IsPath u.path

-- The URL as it is written: a port that is empty has no colon.
abbrev pub port_text : Bytes → Bytes
port_text [] = []
port_text (c ∷ cs) = b':' ∷ c ∷ cs

abbrev pub to_url : Url → Bytes
to_url u = u.protocol ++ (codes "://" ++ (u.host ++ (port_text u.port ++ u.path)))

++-nil : (xs : Bytes) → xs ++ [] ≡ xs
++-nil [] = refl
++-nil (x ∷ xs) = ap (◌∷◌ x) (++-nil xs)

match_path-IsPath : (path : Bytes) → IsPath path → match_path path ≡ some path
unfolding match_path
match_path-IsPath path no_path = refl
match_path-IsPath path (slash cs line) =
    let e : span in_path cs ≡ (cs, []) =
      ap (span in_path) (sym (++-nil cs)) ∙ span-append in_path cs [] line tt in
    rw (e, match_path) refl

path-Stops : (path : Bytes) → IsPath path → Stops in_host path × Stops in_port path
path-Stops path no_path = (tt, tt)
path-Stops path (slash cs line) = (refl, refl)

port-Stops : (port path : Bytes) → IsPath path → Stops in_host (port_text port ++ path)
port-Stops [] path is = (path-Stops path is).0
port-Stops (c ∷ cs) path is = refl

skip_colon-port :
    (port path : Bytes) → IsPath path → skip_colon (port_text port ++ path) ≡ port ++ path
skip_colon-port [] path no_path = refl
skip_colon-port [] path (slash cs line) = refl
skip_colon-port (c ∷ cs) path is = refl

match_groups-parts :
    (u : Url) → IsUrl u → match_groups u.protocol (u.host ++ (port_text u.port ++ u.path)) ≡ some u
unfolding match_groups match_port match_rest
match_groups-parts u is =
    let e : span in_host (u.host ++ (port_text u.port ++ u.path))
        ≡ (u.host, port_text u.port ++ u.path) =
      span-append in_host u.host (port_text u.port ++ u.path) is.host_is
        (port-Stops u.port u.path is.path_is) in
    let f : span in_port (u.port ++ u.path) ≡ (u.port, u.path) =
      span-append in_port u.port u.path is.port_is (path-Stops u.path is.path_is).1 in
    ap (match_port u.protocol) e
    ∙ if-false _ _ (is_empty u.host) is.some_host
    ∙ ap (λ s. match_rest u.protocol u.host (span in_port s))
        (skip_colon-port u.port u.path is.path_is)
    ∙ ap (match_rest u.protocol u.host) f
    ∙ ap
        (λ o. elim o [
          | none ↦ none
          | some path ↦
              some (record { protocol = u.protocol; host = u.host; port = u.port; path = path })
        ])
        (match_path-IsPath u.path is.path_is)

matched :
    (protocol rest : Bytes)
    → (protocol ≡ codes "http") ⊎ (protocol ≡ codes "https")
    → match_url (protocol ++ (codes "://" ++ rest)) ≡ match_groups protocol rest
unfolding match_url strip_prefix
matched protocol rest (inl e) =
    subst (λ p. match_url (p ++ (codes "://" ++ rest)) ≡ match_groups p rest) (sym e) refl
matched protocol rest (inr e) =
    subst (λ p. match_url (p ++ (codes "://" ++ rest)) ≡ match_groups p rest) (sym e) refl

-- A URL that is written from a protocol (http or https), a host that is not empty and has no slash,
-- space or colon, a port without slash or space, which may be empty, and a path that is empty or begins
-- with a slash and stays on one line: it is read as these four parts.
pub match_url-to_url : (u : Url) → IsUrl u → match_url (to_url u) ≡ some u
match_url-to_url u is = matched u.protocol _ is.protocol_is ∙ match_groups-parts u is

-- Then the request goes to that host and port.
pub sync_req-to_url :
    (exchange : HttpRequest → Outcome Bytes) (u : Url) (post_body : Bytes)
    → IsUrl u
    → sync_req exchange (to_url u) post_body ≡ exchange (make_request u post_body)
unfolding sync_req
sync_req-to_url exchange u post_body is = rw (match_url-to_url u is) refl
