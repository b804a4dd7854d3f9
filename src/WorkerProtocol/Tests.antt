-- ===== src/WorkerProtocol/Tests.antt =====
-- A message of three bytes, over two chunks and with a byte of the next one behind it.
use sensorium.Base.{◌≡◌, refl, List, [], ◌∷◌, some, arith, Bytes, to_le, le}
use sensorium.Base.Result.{ok, raise, eof_error}
use sensorium.WorkerProtocol.{recv_more, recv_exact, recv_worker_message, send_worker_message}
use sensorium.WorkerProtocol.Framing.{join, IsStream, recv-send}

abbrev message : Bytes
message = 7 ∷ 8 ∷ 9 ∷ []

abbrev chunks : List Bytes
chunks = (3 ∷ 0 ∷ []) ∷ (0 ∷ 0 ∷ 7 ∷ 8 ∷ []) ∷ (9 ∷ 1 ∷ []) ∷ []

chunks_run : recv_worker_message some chunks ≡ ok (some message, (1 ∷ []) ∷ [])
unfolding recv_worker_message recv_exact recv_more le
chunks_run = refl

cut_short : recv_worker_message {J = Bytes} some ((3 ∷ 0 ∷ []) ∷ []) ≡ raise eof_error
unfolding recv_worker_message recv_exact recv_more le
cut_short = refl

recv-send_example :
    (left : List Bytes) × (recv_worker_message some chunks ≡ ok (some message, left))
    × (join left ≡ 1 ∷ [])
    × IsStream left
recv-send_example =
    recv-send (λ (bs : Bytes). bs) some message refl (omega arith) (3 ∷ 0 ∷ 0 ∷ 0 ∷ 7 ∷ 8 ∷ 9 ∷ [])
      (1 ∷ []) chunks (unfold send_worker_message to_le in refl) (omega arith) refl
