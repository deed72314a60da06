-- ===== src/Node/Handlers.antt =====
-- What each handler of a node does to its queue.
use bzapi.Base.{
  ℕ, ◌≡◌, refl, sym, ◌∙◌, ap, Option-cases, List, [], ◌∷◌, ◌++◌, Bool, true, false, arith,
  Bool-cases, inl, inr, length, nat_beq,
}
use bzapi.Base.Text.{Bytes}
use bzapi.Base.Outcome.{Outcome, done, threw, undefined, ◌>>=◌, >>=-eq-done}
use bzapi.Node.{
  Node, Effect, Step, Ec, success, closed, eof, operation_aborted, other_error, Event, written,
  write_front, schedule_send, connect, send_rest, sent, reconnect, close, disconnected, connecting,
  connected, disconnecting, ConnectState, send_queued, also, on_handshake, on_write, on_read,
  on_websocket, async_write, async_read, receive, after,
}

-- The message that an event takes off the queue: the one whose write has ended, unless the
-- connection was lost.
abbrev pub front : {C : Type 0} → List (Bytes × C) → List (Bytes × C)
front [] = []
front (m ∷ rest) = m ∷ []

abbrev pub finished : {C : Type 0} → Event C → List (Bytes × C) → List (Bytes × C)
finished (written success cb) q = front q
finished (written other_error cb) q = front q
finished _ q = []

undefined-not_done : {A : Type 0} {P : Type 0} {r : A} → ◌≡◌ {A = Outcome A} undefined (done r) → P
undefined-not_done e = absurd (cc)

module _ {C : Type 0} where
  on_websocket-queue :
      (action : ℕ → Effect C) (n n' : Node C) (out : List (Effect C))
      → on_websocket action n ≡ done (n', out)
      → n'.send_queue ≡ n.send_queue
  unfolding on_websocket
  on_websocket-queue action n n' out e = elim (Option-cases n.websocket) [
    | inl null ↦ undefined-not_done (rw (null, on_websocket) at e)
    | inr (ws, there) ↦ let e1 = rw (there, on_websocket) at e in sym (ground arith)
  ]

  pub write_front-queue :
      (q : List (Bytes × C)) (n n' : Node C) (out : List (Effect C))
      → write_front q n ≡ done (n', out)
      → n'.send_queue ≡ n.send_queue
  unfolding write_front
  write_front-queue [] n n' out e = cc
  write_front-queue ((msg, cb) ∷ rest) n n' out e =
      on_websocket-queue (λ ws. async_write ws msg cb) n n' out e

  schedule_send-queue :
      (n n' : Node C) (out : List (Effect C))
      → schedule_send n ≡ done (n', out)
      → n'.send_queue ≡ n.send_queue
  unfolding schedule_send
  schedule_send-queue n n' out e = ground (arith, write_front-queue n.send_queue n n' out)

  send_rest-queue :
      (q : List (Bytes × C)) (n n' : Node C) (out : List (Effect C))
      → send_rest q n ≡ done (n', out)
      → n'.send_queue ≡ n.send_queue
  unfolding send_rest
  send_rest-queue [] n n' out e = ground arith
  send_rest-queue (m ∷ rest) n n' out e = schedule_send-queue n n' out e

  connect-queue :
      (n n' : Node C) (out : List (Effect C))
      → connect n ≡ done (n', out)
      → n'.send_queue ≡ n.send_queue
  unfolding connect
  connect-queue n n' out e = ground arith

  close-queue :
      (is_open : Bool) (n n' : Node C) (out : List (Effect C))
      → close is_open n ≡ done (n', out)
      → n'.send_queue ≡ n.send_queue
  unfolding close
  close-queue is_open n n' out e = elim (Option-cases n.websocket) [
    | inl null ↦ let e1 = rw (null, close) at e in ground arith
    | inr (ws, there) ↦ let e1 = rw (there, close) at e in ground arith
  ]

  pub send_queued-queue :
      (c : ConnectState) (n n' : Node C) (out : List (Effect C))
      → send_queued c n ≡ done (n', out)
      → n'.send_queue ≡ n.send_queue
  unfolding send_queued
  send_queued-queue connected n n' out e = elim (Bool-cases (nat_beq (length n.send_queue) 1)) [
    | inl one ↦ schedule_send-queue n n' out (rw one at e)
    | inr more ↦ ground arith
  ]
  send_queued-queue connecting n n' out e = ground arith
  send_queued-queue disconnected n n' out e = connect-queue n n' out e
  send_queued-queue disconnecting n n' out e = connect-queue n n' out e

  also-eq-done :
      (m : Step C) (tail : List (Effect C)) {n' : Node C} {out : List (Effect C)}
      → (m >>= λ r. done (also tail r)) ≡ done (n', out)
      → (out1 : List (Effect C)) × (m ≡ done (n', out1)) × (out ≡ out1 ++ tail)
  also-eq-done (done (n, out1)) tail e = (out1, ground arith, ground arith)
  also-eq-done threw tail e = cc
  also-eq-done undefined tail e = cc

  sent-queue :
      (ec : Ec) (cb : C) (q : List (Bytes × C)) (n n' : Node C) (out : List (Effect C))
      → sent ec cb q n ≡ done (n', out)
      → q ≡ front q ++ n'.send_queue
  unfolding sent
  sent-queue ec cb [] n n' out e = cc
  sent-queue ec cb (m ∷ rest) n n' out e =
      let (out1, h, _) = also-eq-done (send_rest rest (record n { send_queue = rest })) _ e in
      ap (◌∷◌ m) (sym (send_rest-queue rest (record n { send_queue = rest }) n' out1 h))

  reconnect-queue :
      (n n' : Node C) (out : List (Effect C))
      → reconnect n ≡ done (n', out)
      → n.send_queue ≡ n'.send_queue
  unfolding reconnect
  reconnect-queue n n' out e = sym (connect-queue (record n { state = disconnected }) n' out e)

  pub on_write-queue :
      (ec : Ec) (cb : C) (n n' : Node C) (out : List (Effect C))
      → on_write ec cb n ≡ done (n', out)
      → n.send_queue ≡ finished (written ec cb) n.send_queue ++ n'.send_queue
  unfolding on_write
  on_write-queue closed cb n n' out e = reconnect-queue n n' out e
  on_write-queue eof cb n n' out e = reconnect-queue n n' out e
  on_write-queue operation_aborted cb n n' out e = reconnect-queue n n' out e
  on_write-queue success cb n n' out e = sent-queue success cb n.send_queue n n' out e
  on_write-queue other_error cb n n' out e = sent-queue other_error cb n.send_queue n n' out e

  pub on_read-queue :
      (ec : Ec) (is_open : Bool) (handled : Outcome Bool) (n n' : Node C) (out : List (Effect C))
      → on_read ec is_open handled n ≡ done (n', out)
      → n'.send_queue ≡ n.send_queue
  unfolding on_read receive
  on_read-queue success is_open (done true) n n' out e = close-queue is_open n n' out e
  on_read-queue success is_open (done false) n n' out e = on_websocket-queue async_read n n' out e
  on_read-queue success is_open threw n n' out e = ground arith
  on_read-queue success is_open undefined n n' out e = cc
  on_read-queue ec is_open handled n n' out e = close-queue is_open n n' out e

  pub on_handshake-queue :
      (ec : Ec) (n n' : Node C) (out : List (Effect C))
      → on_handshake ec n ≡ done (n', out)
      → n'.send_queue ≡ n.send_queue
  unfolding on_handshake receive
  on_handshake-queue success n n' out e =
      let ((n1, out1), h, k) =
        >>=-eq-done (send_rest n.send_queue (record n { state = connected })) _ e in
      let ((n2, out2), g, k1) = >>=-eq-done (on_websocket async_read n1) _ k in
      on_websocket-queue async_read n1 n' out2 (g ∙ same_node out1 k1)
      ∙ send_rest-queue n.send_queue (record n { state = connected }) n1 out1 h
    where
      same_node :
          {n2 : Node C} {out2 : List (Effect C)} (out1 : List (Effect C))
          → ◌≡◌ {A = Step C} (done (after out1 (n2, out2))) (done (n', out))
          → ◌≡◌ {A = Step C} (done (n2, out2)) (done (n', out2))
      same_node out1 e = cc
  on_handshake-queue ec n n' out e = ground arith

  pub sent-front :
      (ec : Ec) (cb : C) (q : List (Bytes × C)) (n : Node C) {r : Node C × List (Effect C)}
      → sent ec cb q n ≡ done r
      → length (front q) ≡ 1
  unfolding sent
  sent-front ec cb [] n e = undefined-not_done e
  sent-front ec cb (m ∷ rest) n e = refl
