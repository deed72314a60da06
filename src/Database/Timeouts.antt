-- ===== src/Database/Timeouts.antt =====
-- What an operation's caller is told when no answer comes in time.
use bzapi.Base.{ℕ, ◌≡◌, refl, [], ◌∷◌, none, if◌then◌else◌, ap}
use bzapi.Base.Text.{codes}
use bzapi.Messages.{Wire, database_error}
use bzapi.Dispatch.{Dispatch, call, no_error}
use bzapi.Dispatch.Handlers.{handle_client_timeout, timeout_response}
use bzapi.Dispatch.Handlers.Timers.{client_timeout-send}
use bzapi.Database.{AsyncDatabase, Handler, failed, ready, submit}
use bzapi.Database.Operations.{key_value}
use bzapi.Database.Replies.{Operation, quick_read, call_of, is_quick_read}

reply_timeout :
    (op : Operation)
    → (call_of op).reply timeout_response none ≡ (
        if is_quick_read op
        then ready (key_value ([], []))
        else failed (codes "Request timeout") database_error)
unfolding call_of
reply_timeout (quick_read key) = refl
reply_timeout op = refl

-- When the client's timeout of an operation comes, its response is completed once: with the error
-- "Request timeout" for every operation but a quick read, which is told success, with an empty key
-- and an empty value.
pub submit-timeout :
    (w : Wire) (timeout : ℕ) (db : AsyncDatabase) (op : Operation) (resp : ℕ) (s : Dispatch Handler)
    → (let s1 = (submit w timeout db (call_of op) resp s).0 in
        (h : Handler) × ((handle_client_timeout no_error s.next_nonce s1).1
          ≡ call s.next_nonce h timeout_response ∷ [])
        × (h.resp ≡ resp)
        × (h.reply timeout_response none ≡ (
            if is_quick_read op
            then ready (key_value ([], []))
            else failed (codes "Request timeout") database_error)))
unfolding submit
submit-timeout w timeout db op resp s = (
  record { resp = resp; reply = (call_of op).reply },
  ap (λ r. r.1) (client_timeout-send w timeout db.swarm db.uuid _ (call_of op).policy _ s),
  refl,
  reply_timeout op,
)
