-- ===== src/Rpc/Fifo.antt =====
-- src/sensorium/runtime/rpc.py: the order in which one connection's requests are answered.
pub mod Moves
pub mod Dispatch
pub mod Reading
pub mod Chunks
pub mod Shut
pub mod Runs
use sensorium.Base.{
  ℕ, zero, suc, ◌≡◌, Bool, true, false, List, [], ◌∷◌, ◌++◌, Option, none, some, ◌⊎◌, Bytes,
}
use sensorium.Normalize.Values.{Value, null}
use sensorium.Rpc.{
  Response, busy_response, error_response, result_response, event_response, Conn, Limits, Waiter,
  id_of,
}
use sensorium.Rpc.Serve.{frame}

-- an answer to the request
pub data IsAnswer : Value → Response → Type 0 where
  refused : {q : Value} → IsAnswer q busy_response
  failed : {q : Value} → IsAnswer q (error_response (id_of q))
  returned : {q : Value} (v : Value) → IsAnswer q (result_response (id_of q) v)
  polled : {q : Value} (event : Option Value) → IsAnswer q (event_response (id_of q) event)

-- the responses answer the requests, one for one and in their order, with one for each of `n` lines that are
-- not JSON among them
pub data Answers : ℕ → List Response → List Value → Type 0 where
  no_answer : Answers zero [] []
  unreadable :
      {n : ℕ} {rs : List Response} {qs : List Value}
      → Answers n rs qs
      → Answers (suc n) (rs ++ error_response null ∷ []) qs
  answer :
      {n : ℕ} {rs : List Response} {qs : List Value} (q : Value) (r : Response)
      → Answers n rs qs
      → IsAnswer q r
      → Answers n (rs ++ r ∷ []) (qs ++ q ∷ [])

-- the request that is in progress, by `active_request`, `waiting_for_event`, `jobs` and `completions`
pub data Stage : Bool → Option Waiter → List Value → List Response → List Value → Type 0 where
  idle : Stage false none [] [] []
  running : (q : Value) → Stage true none (q ∷ []) [] (q ∷ [])
  done : (q : Value) (r : Response) → IsAnswer q r → Stage true none [] (r ∷ []) (q ∷ [])
  polling : (w : Waiter) → Stage false (some w) [] [] (w.request ∷ [])

-- the lines that were read, in order, with `none` for one that is not JSON
abbrev pub somes : List (Option Value) → List Value
somes [] = []
somes (none ∷ xs) = somes xs
somes (some q ∷ xs) = q ∷ somes xs

abbrev pub nones : List (Option Value) → ℕ
nones [] = 0
nones (none ∷ xs) = suc (nones xs)
nones (some q ∷ xs) = nones xs

module _ (dumps : Response → Bytes) (l : Limits) (loads : Bytes → Option Value) where
  abbrev pub frames : List Response → Bytes
  frames [] = []
  frames (r ∷ rs) = frame l loads dumps r ++ frames rs

  -- an open connection that has read these lines
  pub record Fifo (c : Conn) (seen : List (Option Value)) (received inbuf : Bytes) : Type 0 where
    pub is_open : c.client.closed ≡ false
    pub responses : List Response
    pub answered : List Value
    pub in_progress : List Value
    pub answers : Answers (nones seen) responses answered
    pub written : c.client.sock.sent ++ c.client.outbuf ≡ frames responses
    pub stage :
        Stage c.client.active_request c.client.waiting_for_event c.jobs c.completions in_progress
    pub order : somes seen ≡ answered ++ (in_progress ++ c.client.pending_requests)
    pub socket : c.client.sock.received ≡ received
    pub buffer : c.client.inbuf ≡ inbuf

  abbrev pub Settled : Conn → List (Option Value) → Bytes → Bytes → Type 0
  Settled c seen received inbuf = (c.client.closed ≡ true) ⊎ Fifo c seen received inbuf
