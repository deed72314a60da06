-- ===== src/Library/Calls.antt =====
-- library/library.cpp: the synchronous `has_db`, `create_db` and `open_db`, from the response that the
-- asynchronous call returned.
use bzapi.Base.{
  ℕ, ◌≡◌, refl, ap, ◌∙◌, subst, ◌^◌, [], ◌∷◌, Bool, true, false, Option, none, some, if◌then◌else◌,
  ltb, nat_beq, list_eq, list_beq, if-true,
}
use bzapi.Base.Text.{Bytes, codes}
use bzapi.Base.Map.{lookup}
use bzapi.Base.Decimal.{to_string}
use bzapi.Base.Outcome.{Outcome, done, undefined, ◌>>=◌}
use bzapi.Messages.{DbError}
use bzapi.Response.{Response, waits, returns, get_result, get_error, get_db}
use bzapi.Response.Signals.{IsUnsettled}
use bzapi.Database.{Json, Object, Completion, complete, released, error_code, ready}
use bzapi.Database.Replies.{get-complete, get-released}
use bzapi.Library.{Library, code, completed, answered, asked_has_db, asked_create_db, error_text}

-- How objects become texts, and texts objects; a text that is no JSON has none.
pub record JsonText : Type 0 where
  pub styled : Object → Bytes
  pub parse : Bytes → Option Object

-- `asString` and `asInt` of a member, which is null where there is none; they throw on what they
-- cannot convert.
abbrev pub as_string : Option Json → Option Bytes
as_string none = some []
as_string (some Json.null) = some []
as_string (some (Json.text s)) = some s
as_string (some (Json.number n)) = some (to_string n)
as_string (some (Json.boolean true)) = some (codes "true")
as_string (some (Json.boolean false)) = some (codes "false")
as_string (some (Json.array items)) = none

abbrev pub as_int : Option Json → Option ℕ
as_int none = some 0
as_int (some Json.null) = some 0
as_int (some (Json.number n)) = if ltb n (2 ^ 31) then some n else none
as_int (some (Json.boolean true)) = some 1
as_int (some (Json.boolean false)) = some 0
as_int (some other) = none

-- The member "error" becomes the error's text; then the member "result" is returned, and 0 where an
-- exception is caught.
abbrev pub take_members : Option Bytes → Option ℕ → Library → Library × ℕ
take_members none result l = (l, 0)
take_members (some s) none l = (record l { error_str = s }, 0)
take_members (some s) (some n) l = (record l { error_str = s }, n)

abbrev pub to_bool : Option (Library × ℕ) → Option (Library × Bool)
to_bool none = none
to_bool (some (l, n)) = some (l, if nat_beq n 0 then false else true)

-- What `async_has_db` and `async_create_db` complete their responses with.
abbrev presence : ℕ → Bytes → Completion
presence n uuid = ready ((codes "result", Json.number n) ∷ (codes "uuid", Json.text uuid) ∷ [])

abbrev refusal : Bytes → DbError → Completion
refusal uuid err = record {
  result = (codes "error", Json.text (error_text err)) ∷ (codes "uuid", Json.text uuid) ∷ [];
  error = error_code err;
}

completed-injective : {m n : ℕ} {c d : Completion} → completed m c ≡ completed n d → c ≡ d
completed-injective e = cc

abbrev pub is_some : Option ℕ → Bool
is_some none = false
is_some (some n) = true

-- What the text of a completion says, with the error that is read beside it.
abbrev pub reading : Completion → ℕ → Library → Library × ℕ
reading c error l =
    take_members (as_string (lookup (codes "error") c.result))
      (as_int (lookup (codes "result") c.result)) (record l { error_val = code error })

module _ {D : Type 0} (j : JsonText) where
  -- What a text says, from the parsing of it on.
  read_text : Bytes → Response D → Library → Library × ℕ
  unfolding get_error
  read_text text r l = elim (j.parse text) [
    | none ↦ (l, 0)
    | some o ↦
        take_members (as_string (lookup (codes "error") o)) (as_int (lookup (codes "result") o))
          (record l { error_val = code (get_error r) })
  ]

  -- `none` while the response is waited for; a null pointer has no result.
  wait_for : Option (Response D) → Library → Outcome (Option (Library × ℕ))
  unfolding read_text get_result
  wait_for none l = undefined
  wait_for (some r) l = elim (get_result r).1 [
    | waits ↦ done none
    | returns text ↦ done (some (read_text text r l))
  ]

  unfoldable pub has_db : Option (Response D) → Library → Outcome (Option (Library × Bool))
  unfolding wait_for
  has_db resp l =
      let waited = wait_for resp l >>= λ o. done (to_bool o) in
      if l.initialized then waited else done (some (l, false))

  -- The database of the response, where the result is not 0.
  abbrev pub to_database : Option (Response D) → Option (Library × ℕ) → Option (Library × Option D)
  to_database resp none = none
  to_database none (some (l, n)) = some (l, none)
  to_database (some r) (some (l, n)) = some (l, if nat_beq n 0 then none else get_db r)

  unfoldable pub create_db : Option (Response D) → Library → Outcome (Option (Library × Option D))
  unfolding wait_for
  create_db resp l =
      let waited = wait_for resp l >>= λ o. done (to_database resp o) in
      if l.initialized then waited else done (some (l, none))

  unfoldable pub open_db : Option (Response D) → Library → Outcome (Option (Library × Option D))
  unfolding create_db
  open_db = create_db

  wait_for-returns :
      (c : Completion) (r1 : Response D) (error : ℕ) (l : Library)
      → (get_result r1).1 ≡ returns (j.styled c.result)
      → get_error r1 ≡ error
      → j.parse (j.styled c.result) ≡ some c.result
      → wait_for (some r1) l ≡ done (some (reading c error l))
  unfolding wait_for read_text
  wait_for-returns c r1 error l got err reads =
      ap (λ g. elim g [ waits ↦ done none | returns text ↦ done (some (read_text text r1 l)) ]) got
      ∙ ap (λ x. done (some x)) text_read
    where
      text_read : read_text (j.styled c.result) r1 l ≡ reading c error l
      text_read = rw (reads, read_text, err) refl

  -- The response is settled, and a synchronous call that waits for it then returns this.
  abbrev pub Ends :
      {R : Type 0}
      → (Response D → Outcome (Response D))
      → (Option (Response D) → Library → Outcome R)
      → Response D
      → Library
      → R
      → Type 0
  Ends settle call r l result =
      (r1 : Response D) × (settle r ≡ done r1) × (call (some r1) l ≡ done result)

  wait_for-completed :
      (c : Completion) (r : Response D) (l : Library)
      → IsUnsettled r
      → r.future_taken ≡ false
      → j.parse (j.styled c.result) ≡ some c.result
      → Ends (complete j.styled c) wait_for r l (some (reading c c.error l))
  wait_for-completed c r l unsettled fresh reads =
      let (r1, e, got, err) = get-complete j.styled c r unsettled fresh in
      (r1, e, wait_for-returns c r1 c.error l got err reads)

  wait_for-released :
      (c : Completion) (r : Response D) (l : Library)
      → IsUnsettled r
      → r.future_taken ≡ false
      → j.parse (j.styled c.result) ≡ some c.result
      → Ends (released j.styled c) wait_for r l (some (reading c (get_error r) l))
  wait_for-released c r l unsettled fresh reads =
      let (r1, e, got, err) = get-released j.styled c r unsettled fresh in
      (r1, e, wait_for-returns c r1 (get_error r) l got err reads)

  has_db-waits :
      (settle : Response D → Outcome (Response D)) (r : Response D) (l : Library) {l1 : Library}
      {n : ℕ}
      → l.initialized ≡ true
      → Ends settle wait_for r l (some (l1, n))
      → Ends settle has_db r l (some (l1, if nat_beq n 0 then false else true))
  unfolding has_db
  has_db-waits settle r l init (r1, e, waited) =
      (r1, e, if-true _ _ l.initialized init ∙ ap (λ o. o >>= λ o. done (to_bool o)) waited)

  create_db-waits :
      (settle : Response D → Outcome (Response D)) (r : Response D) (l : Library) {l1 : Library}
      → l.initialized ≡ true
      → Ends settle wait_for r l (some (l1, 0))
      → Ends settle create_db r l (some (l1, none))
  unfolding create_db
  create_db-waits settle r l init (r1, e, waited) = (
    r1,
    e,
    if-true _ _ l.initialized init ∙ ap (λ o. o >>= λ o. done (to_database (some r1) o)) waited,
  )

  -- On an initialized library, when the factory has answered and its callback completes the response,
  -- which was neither settled nor read: `has_db` returns whether there is a swarm, with no error. The
  -- JSON library reads back the text that it made.
  pub has_db-answered :
      (number : ℕ) (uuid : Bytes) (err : DbError) (sw : Option ℕ) (c : Completion) (r : Response D)
      (l : Library)
      → l.initialized ≡ true
      → IsUnsettled r
      → r.future_taken ≡ false
      → answered (asked_has_db number uuid) err sw ≡ completed number c
      → j.parse (j.styled c.result) ≡ some c.result
      → Ends
          (complete j.styled c)
          has_db
          r
          l
          (some (record l { error_val = code 0; error_str = [] }, is_some sw))
  unfolding answered has_db lookup list_beq
  has_db-answered number uuid err none c r l init unsettled fresh answer =
      subst
        (λ c.
          j.parse (j.styled c.result) ≡ some c.result
          → Ends (complete j.styled c) has_db r l
              (some (record l { error_val = code 0; error_str = [] }, false)))
        (completed-injective answer)
        (λ reads.
          has_db-waits (complete j.styled (presence 0 uuid)) r l init
            (wait_for-completed (presence 0 uuid) r l unsettled fresh reads))
  has_db-answered number uuid err (some n) c r l init unsettled fresh answer =
      subst
        (λ c.
          j.parse (j.styled c.result) ≡ some c.result
          → Ends (complete j.styled c) has_db r l
              (some (record l { error_val = code 0; error_str = [] }, true)))
        (completed-injective answer)
        (λ reads.
          has_db-waits (complete j.styled (presence 1 uuid)) r l init
            (wait_for-completed (presence 1 uuid) r l unsettled fresh reads))

  -- On an initialized library, when the factory answers `create_db` without a swarm and its callback
  -- completes the response, which was neither settled nor read: the synchronous call returns no
  -- database, and the text of the factory's error is the library's. The factory's error is the
  -- library's too where the caller goes on after `set_error` has ended; where it goes on as soon as
  -- the promise has its value, the library's error is the one that the response had before. The JSON
  -- library reads back the text that it made.
  pub create_db-refused :
      (number : ℕ) (uuid : Bytes) (err : DbError) (c : Completion) (r : Response D) (l : Library)
      → l.initialized ≡ true
      → IsUnsettled r
      → r.future_taken ≡ false
      → answered (asked_create_db number uuid) err none ≡ completed number c
      → j.parse (j.styled c.result) ≡ some c.result
      → Ends
          (complete j.styled c)
          create_db
          r
          l
          (some (record l { error_val = code (error_code err); error_str = error_text err }, none))
        × Ends
            (released j.styled c)
            create_db
            r
            l
            (some (record l { error_val = code (get_error r); error_str = error_text err }, none))
  unfolding answered create_db lookup list_beq
  create_db-refused number uuid err c r l init unsettled fresh answer =
      subst
        (λ c.
          j.parse (j.styled c.result) ≡ some c.result
          → Ends (complete j.styled c) create_db r l (
              some
                (record l { error_val = code (error_code err); error_str = error_text err }, none))
            × Ends (released j.styled c) create_db r l (
                some
                  (record l { error_val = code (get_error r); error_str = error_text err }, none)))
        (completed-injective answer)
        (λ reads. (
          create_db-waits (complete j.styled (refusal uuid err)) r l init
              (wait_for-completed (refusal uuid err) r l unsettled fresh reads),
          create_db-waits (released j.styled (refusal uuid err)) r l init
              (wait_for-released (refusal uuid err) r l unsettled fresh reads),
        ))
