-- ===== src/WorkerProtocol.antt =====
-- src/sensorium/runtime/worker_protocol.py: messages between the daemon and its worker processes,
-- framed by a 32-bit length. A socket is the list of the chunks that `recv` will find; an empty chunk,
-- or no more chunk, is the end of the stream. `dumps` and `loads` are the standard library's `json`.
pub mod Framing
mod Tests
use sensorium.Base.{
  ℕ, zero, suc, ◌+◌, ◌-◌, ◌*◌, Bool, List, [], ◌∷◌, ◌++◌, Option, none, some, if◌then◌else◌, ltb,
  leb, ◌==◌, ◌||◌, Bytes, length, take, drop, le, to_le,
}
use sensorium.Base.Result.{Result, ok, raise, eof_error, runtime_error, value_error, ◌>>=◌}

abbrev pub message_limit : ℕ
message_limit = 8 * 1024 * 1024

-- A message, or `none` at the end of the stream; and the chunks that are left.
abbrev pub Received : Type 0 → Type 0
Received A = Result (Option A × List Bytes)

-- `recv` found nothing: the end of the stream, in the middle of a message or between two
pub at_end : Bytes → List Bytes → Received Bytes
at_end [] rest = ok (none, rest)
at_end (_ ∷ _) rest = raise eof_error

-- the loop of `_recv_exact`; `missing` is `length - len(chunks)`
pub recv_more : ℕ → Bytes → List Bytes → Received Bytes
unfolding at_end
recv_more missing got [] = if missing == 0 then ok (some got, []) else at_end got []
recv_more missing got (chunk ∷ chunks) =
    let more = recv_more (missing - length chunk) (got ++ chunk) chunks in
    if missing == 0
    then ok (some got, chunk ∷ chunks)
    else if length chunk == 0
    then at_end got chunks
    else if leb (length chunk) missing
    then more
    else ok (some (got ++ take missing chunk), drop missing chunk ∷ chunks)

pub recv_exact : ℕ → List Bytes → Received Bytes
recv_exact len chunks = recv_more len [] chunks

module _ {J : Type 0} (loads : Bytes → Option J) where
  parsed : Option J → List Bytes → Received J
  parsed none rest = raise value_error
  parsed (some j) rest = ok (some j, rest)

  recv_payload : Option Bytes → List Bytes → Received J
  unfolding parsed
  recv_payload none rest = raise eof_error
  recv_payload (some payload) rest = parsed (loads payload) rest

  recv_body : Option Bytes → List Bytes → Received J
  unfolding recv_payload
  recv_body none rest = ok (none, rest)
  recv_body (some header) rest =
      let len = le 4 header in
      if leb len 0 || ltb message_limit len
      then raise runtime_error
      else (recv_exact len rest >>= λ got. recv_payload got.0 got.1)

  -- `recv_worker_message` with no timeout
  pub recv_worker_message : List Bytes → Received J
  unfolding recv_body
  recv_worker_message chunks = recv_exact 4 chunks >>= λ got. recv_body got.0 got.1

module _ {J : Type 0} (dumps : J → Bytes) where
  -- the bytes that `send_worker_message` sends
  pub send_worker_message : J → Result Bytes
  send_worker_message payload =
      let encoded = dumps payload in
      if ltb message_limit (length encoded)
      then raise runtime_error
      else ok (to_le 4 (length encoded) ++ encoded)
