-- ===== src/Database/Operations.antt =====
-- database/async_database_impl.cpp: the operations, one by one. An accessor of a response, such as
-- `response.read()`, gives empty fields where the response is of another type.
use bzapi.Base.{ℕ, List, [], ◌∷◌, Bool, false, none, some, if◌then◌else◌}
use bzapi.Base.Text.{Bytes, codes, is_empty}
use bzapi.Messages.{Request, Answer, normal, fastest, connection_error, database_error}
use bzapi.Database.{
  Json, Object, strings, Reply, Call, failed, ready, result_one, translate_swarm_response,
  send_message_with_basic_response,
}

unfoldable pub create : Bytes → Bytes → ℕ → Call
unfolding send_message_with_basic_response
create key value expiry = send_message_with_basic_response (Request.create key value expiry)

abbrev pub read_fields : Answer → Bytes × Bytes
read_fields (Answer.read k v) = (k, v)
read_fields _ = ([], [])

abbrev pub key_value : Bytes × Bytes → Object
key_value (k, v) = result_one ∷ (codes "key", Json.text k) ∷ (codes "value", Json.text v) ∷ []

unfoldable pub read : Bytes → Call
unfolding translate_swarm_response
read key = record {
  request = Request.read key;
  policy = normal;
  reply = translate_swarm_response (λ answer. key_value (read_fields answer));
}

unfoldable pub update : Bytes → Bytes → Call
unfolding send_message_with_basic_response
update key value = send_message_with_basic_response (Request.update key value 0)

unfoldable pub remove : Bytes → Call
unfolding send_message_with_basic_response
remove key = send_message_with_basic_response (Request.delete_ key)

abbrev pub quick_read_fields : Answer → Bytes × Bytes × Bytes
quick_read_fields (Answer.quick_read k v e) = (k, v, e)
quick_read_fields _ = ([], [], [])

pub quick_read_reply : Reply
quick_read_reply r (some message) = failed message connection_error
quick_read_reply r none =
    let (k, v, e) = quick_read_fields r.answer in
    if is_empty e then ready (key_value (k, v)) else failed e database_error

unfoldable pub quick_read : Bytes → Call
unfolding quick_read_reply
quick_read key = record {
  request = Request.quick_read key;
  policy = fastest;
  reply = quick_read_reply;
}

abbrev pub has_field : Answer → Bool
has_field (Answer.has k b) = b
has_field _ = false

unfoldable pub has : Bytes → Call
unfolding translate_swarm_response
has key = record {
  request = Request.has key;
  policy = normal;
  reply =
      translate_swarm_response (λ answer. (codes "result", Json.boolean (has_field answer)) ∷ []);
}

abbrev pub keys_field : Answer → List Bytes
keys_field (Answer.keys ks) = ks
keys_field _ = []

unfoldable pub keys : Call
unfolding translate_swarm_response
keys = record {
  request = Request.keys;
  policy = normal;
  reply = translate_swarm_response (λ answer. (codes "keys", strings (keys_field answer)) ∷ []);
}

abbrev pub size_fields : Answer → ℕ × ℕ × ℕ × ℕ
size_fields (Answer.size b k r m) = (b, k, r, m)
size_fields _ = (0, 0, 0, 0)

abbrev pub size_object : ℕ × ℕ × ℕ × ℕ → Object
size_object (b, k, r, m) =
    result_one
    ∷ (codes "bytes", Json.number b)
    ∷ (codes "keys", Json.number k)
    ∷ (codes "remaining_bytes", Json.number r)
    ∷ (codes "max_size", Json.number m)
    ∷ []

unfoldable pub size : Call
unfolding translate_swarm_response
size = record {
  request = Request.size;
  policy = normal;
  reply = translate_swarm_response (λ answer. size_object (size_fields answer));
}

unfoldable pub expire : Bytes → ℕ → Call
unfolding send_message_with_basic_response
expire key expiry = send_message_with_basic_response (Request.expire key expiry)

unfoldable pub persist : Bytes → Call
unfolding send_message_with_basic_response
persist key = send_message_with_basic_response (Request.persist key)

abbrev pub ttl_object : Answer → Object
ttl_object (Answer.ttl k t) =
    result_one ∷ (codes "key", Json.text k) ∷ (codes "ttl", Json.number t) ∷ []
ttl_object _ = result_one ∷ (codes "key", Json.text []) ∷ (codes "ttl", Json.number 0) ∷ []

unfoldable pub ttl : Bytes → Call
unfolding translate_swarm_response
ttl key = record {
  request = Request.ttl key;
  policy = normal;
  reply = translate_swarm_response ttl_object;
}

abbrev pub writers_field : Answer → List Bytes
writers_field (Answer.writers o ws) = ws
writers_field _ = []

unfoldable pub writers : Call
unfolding translate_swarm_response
writers = record {
  request = Request.writers;
  policy = normal;
  reply =
      translate_swarm_response
        (λ answer. result_one ∷ (codes "writers", strings (writers_field answer)) ∷ []);
}

unfoldable pub add_writer : Bytes → Call
unfolding send_message_with_basic_response
add_writer writer = send_message_with_basic_response (Request.add_writers (writer ∷ []))

unfoldable pub remove_writer : Bytes → Call
unfolding send_message_with_basic_response
remove_writer writer = send_message_with_basic_response (Request.remove_writers (writer ∷ []))
