-- ===== src/Node/Queueing.antt =====
-- Messages leave the queue in the order in which they were given to the node.
use bzapi.Base.{ℕ, ◌+◌, ◌≡◌, refl, sym, ◌∙◌, ap, List, [], ◌∷◌, ◌++◌, arith, length}
use mathlib.Core.List.{append_assoc, append-nil}
use bzapi.Base.Text.{Bytes}
use bzapi.Base.Outcome.{done, >>=-eq-done}
use bzapi.Node.{
  Node, Effect, success, closed, eof, operation_aborted, other_error, Event, send, backs_off,
  connected_event, handshaken, waited, written, received, closed_event, step, run, on_write,
}
use bzapi.Node.Handlers.{
  finished, send_queued-queue, write_front-queue, on_handshake-queue, on_write-queue, on_read-queue,
  sent-front,
}

-- The message that an event adds to the queue.
abbrev pub submitted : {C : Type 0} → Event C → List (Bytes × C)
submitted (send msg cb) = (msg, cb) ∷ []
submitted _ = []

-- Whether an event ends a write without losing the connection.
abbrev pub ended : {C : Type 0} → Event C → ℕ
ended (written success cb) = 1
ended (written other_error cb) = 1
ended _ = 0

abbrev pub writes_ended : {C : Type 0} → List (Event C) → ℕ
writes_ended [] = 0
writes_ended (e ∷ es) = ended e + writes_ended es

abbrev pub submissions : {C : Type 0} → List (Event C) → List (Bytes × C)
submissions [] = []
submissions (e ∷ es) = submitted e ++ submissions es

length-append : {A : Type 0} (xs ys : List A) → length (xs ++ ys) ≡ length xs + length ys
length-append [] ys = omega arith
length-append (x ∷ xs) ys = omega (arith, length-append xs ys)

module _ {C : Type 0} where
  -- One event: what was queued and what is added is what leaves and what stays, in this order.
  step-queue :
      (n n' : Node C) (e : Event C) (out : List (Effect C))
      → step n e ≡ done (n', out)
      → n.send_queue ++ submitted e ≡ finished e n.send_queue ++ n'.send_queue
  unfolding step
  step-queue n n' (send msg cb) out e = sym (send_queued-queue n.state _ n' out e)
  step-queue n n' (backs_off value) out e = append-nil n.send_queue ∙ ground arith
  step-queue n n' (connected_event success) out e = append-nil n.send_queue ∙ ground arith
  step-queue n n' (connected_event ec) out e = append-nil n.send_queue ∙ ground arith
  step-queue n n' (handshaken ec) out e =
      append-nil n.send_queue ∙ sym (on_handshake-queue ec n n' out e)
  step-queue n n' (waited success) out e =
      append-nil n.send_queue ∙ sym (write_front-queue n.send_queue n n' out e)
  step-queue n n' (waited ec) out e = append-nil n.send_queue ∙ ground arith
  step-queue n n' (written ec cb) out e = append-nil n.send_queue ∙ on_write-queue ec cb n n' out e
  step-queue n n' (received ec is_open handled) out e =
      append-nil n.send_queue ∙ sym (on_read-queue ec is_open handled n n' out e)
  step-queue n n' closed_event out e = append-nil n.send_queue ∙ ground arith

  -- A message leaves exactly when a write ends without losing the connection.
  step-ended :
      (n : Node C) (e : Event C) {r : Node C × List (Effect C)}
      → step n e ≡ done r
      → length (finished e n.send_queue) ≡ ended e
  unfolding step on_write
  step-ended n (send msg cb) e = refl
  step-ended n (backs_off value) e = refl
  step-ended n (connected_event ec) e = refl
  step-ended n (handshaken ec) e = refl
  step-ended n (waited ec) e = refl
  step-ended n (written success cb) e = sent-front success cb n.send_queue n e
  step-ended n (written other_error cb) e = sent-front other_error cb n.send_queue n e
  step-ended n (written closed cb) e = refl
  step-ended n (written eof cb) e = refl
  step-ended n (written operation_aborted cb) e = refl
  step-ended n (received ec is_open handled) e = refl
  step-ended n closed_event e = refl

  run-cons :
      (n : Node C) (e : Event C) (es : List (Event C)) (n' : Node C) (out : List (Effect C))
      → run n (e ∷ es) ≡ done (n', out)
      → (r : Node C × List (Effect C)) × (rest : Node C × List (Effect C)) × (step n e ≡ done r)
        × (run r.0 es ≡ done rest)
        × (n' ≡ rest.0)
  unfolding run
  run-cons n e es n' out h =
      let (r, h1, h2) = >>=-eq-done (step n e) _ h in
      let (rest, h3, h4) = >>=-eq-done (run r.0 es) _ h2 in (r, rest, h1, h3, ground arith)

  -- However long a node runs without undefined behaviour: the messages it held and those that were
  -- then sent to it are, in this order, the messages that have left, followed by what it still holds;
  -- and as many have left as writes have ended with success or with an error other than a lost
  -- connection. A lost connection takes no message off the queue.
  pub run-queue :
      (n : Node C) (es : List (Event C)) (n' : Node C) (out : List (Effect C))
      → run n es ≡ done (n', out)
      → (left : List (Bytes × C)) × (n.send_queue ++ submissions es ≡ left ++ n'.send_queue)
        × (length left ≡ writes_ended es)
  unfolding run
  run-queue n [] n' out h = ([], append-nil n.send_queue ∙ ground arith, refl)
  run-queue n (e ∷ es) n' out h =
      let ((n1, out1), (n2, out2), h1, h2, same_end) = run-cons n e es n' out h in
      let (left, q, count) = run-queue n1 es n2 out2 h2 in
      (
        finished e n.send_queue ++ left,
        sym (append_assoc n.send_queue (submitted e) (submissions es))
            ∙ ap (λ q. q ++ submissions es) (step-queue n n1 e out1 h1)
            ∙ append_assoc (finished e n.send_queue) n1.send_queue (submissions es)
            ∙ ap (λ q. finished e n.send_queue ++ q) q
            ∙ sym (append_assoc (finished e n.send_queue) left n2.send_queue)
            ∙ ap (λ m. (finished e n.send_queue ++ left) ++ m.send_queue) (sym same_end),
        omega (arith, length-append (finished e n.send_queue) left, step-ended n e h1, count),
      )
