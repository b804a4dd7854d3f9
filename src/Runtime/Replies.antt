-- ===== src/Runtime/Replies.antt =====
-- src/sensorium/runtime/bridge.py: the replies that the bridge workers write.
use sensorium.Base.{
  ℕ, zero, suc, ◌≤◌, ◌≡◌, refl, ap, ◌∙◌, ◌⊎◌, inl, inr, arith, Bool, true, false, not, Bool-cases,
  List-cases, List, [], ◌∷◌, ◌++◌, Bytes, ℤ, replicate,
}
use sensorium.Base.Result.{Error, Result, ok, raise, Result-cases, blocking_io_error, runtime_error}
use sensorium.Bridge.{Entry}
use sensorium.Runtime.{Runtime, desynced}
use sensorium.Runtime.Outside.{write_entry}
use sensorium.Runtime.Dispatch.{Meanwhile}
use sensorium.Runtime.Routes.{
  handle_bridge_request, Task, request_started, request_finished, reply_fits, reply_entry, is_busy,
  is_caught, after_write, write_reply, goes_on, answer_of, after_reply, worker_step,
}

-- what the kernel was given, oldest first
abbrev pub sent : Runtime → List Entry
sent rt = rt.port.sent

sent_or_same :
    (e : Entry) (rt : Runtime)
    → (((write_entry e rt).0 ≡ ok tt) × (sent (write_entry e rt).1 ≡ sent rt ++ e ∷ []))
      ⊎ ((error : Error) × ((write_entry e rt).0 ≡ raise error)
          × (sent (write_entry e rt).1 ≡ sent rt))
unfolding write_entry
sent_or_same e rt = elim (List-cases rt.port.outcomes) [
  | inl h ↦ inl (rw (h, write_entry) (refl, refl))
  | inr (o, rest, h) ↦ elim (Result-cases o) [
    | inl (_, good) ↦ inl (rw (h, good, write_entry) (refl, refl))
    | inr (error, bad) ↦ inr (error, rw (h, bad, write_entry) refl, rw (h, bad, write_entry) refl)
  ]
]

sent_when_ok :
    (e : Entry) (rt : Runtime)
    → (write_entry e rt).0 ≡ ok tt
    → sent (write_entry e rt).1 ≡ sent rt ++ e ∷ []
sent_when_ok e rt h = elim (sent_or_same e rt) [
  | inl (_, s) ↦ s
  | inr (error, bad, s) ↦ absurd (cc)
]

sent_when_raised :
    (e : Entry) (rt : Runtime) (error : Error)
    → (write_entry e rt).0 ≡ raise error
    → sent (write_entry e rt).1 ≡ sent rt
sent_when_raised e rt error h = elim (sent_or_same e rt) [
  | inl (good, s) ↦ absurd (cc)
  | inr (_, _, s) ↦ s
]

after_write_once :
    (retry : Bool) (outcome : Result (Unit {0})) (rt : Runtime)
    (again : Result (Unit {0}) × Runtime) (es : List Entry)
    → (outcome ≡ ok tt → sent rt ≡ es)
    → ((error : Error) → outcome ≡ raise error → again.0 ≡ ok tt → sent again.1 ≡ es)
    → (after_write retry outcome rt again).0 ≡ ok tt
    → sent (after_write retry outcome rt again).1 ≡ es
after_write_once retry (ok _) rt again es good bad done = good refl
after_write_once true (raise error) rt again es good bad done = elim (Bool-cases (is_busy error)) [
  | inl busy ↦ rw busy (bad error refl (rw busy at done))
  | inr other ↦ absurd (cc (rw other at done))
]
after_write_once false (raise error) rt again es good bad done = elim (Bool-cases (is_busy error)) [
  | inl busy ↦ absurd (cc (rw busy at done))
  | inr other ↦ absurd (cc (rw other at done))
]

-- a reply that was written was written once
write_reply_once :
    (stopping : Bool) (retries : ℕ) (e : Entry) (rt : Runtime)
    → (write_reply stopping retries e rt).0 ≡ ok tt
    → sent (write_reply stopping retries e rt).1 ≡ sent rt ++ e ∷ []
unfolding write_reply
write_reply_once stopping zero e rt done =
    after_write_once false (write_entry e rt).0 (write_entry e rt).1
      (raise runtime_error, (write_entry e rt).1) (sent rt ++ e ∷ []) (sent_when_ok e rt)
      (λ error bad h. absurd (cc)) done
write_reply_once stopping (suc n) e rt done =
    after_write_once (not stopping) (write_entry e rt).0 (write_entry e rt).1
      (write_reply stopping n e (write_entry e rt).1) (sent rt ++ e ∷ []) (sent_when_ok e rt)
      (λ error bad h.
        write_reply_once stopping n e (write_entry e rt).1 h
        ∙ ap (λ es. es ++ e ∷ []) (sent_when_raised e rt error bad))
      done

-- the reply to a task: what its handler answered, or EIO where it raised
abbrev pub handled : Meanwhile → Task → Runtime → Result (ℤ × Bytes) × Runtime
handled m t rt = handle_bridge_request m t.msg_type t.message_id t.payload (request_started rt)

abbrev pub reply_of : Meanwhile → Task → Runtime → Entry
reply_of m t rt = let answer = (answer_of (handled m t rt).0).0 in reply_entry t answer.0 answer.1

after_reply_lem :
    (s b : Bool) (r : Result (Unit {0}) × Runtime) (es : List Entry)
    → (r.0 ≡ ok tt → sent r.1 ≡ es)
    → (after_reply s b r).0 ≡ goes_on
    → ((after_reply s b r).1.runtime_state ≡ desynced) ⊎ (sent (after_reply s b r).1 ≡ es)
unfolding request_finished
after_reply_lem s b (ok _, rt) es h on = inr (h refl)
after_reply_lem true b (raise e, rt) es h on = elim (Bool-cases (is_caught e)) [
  | inl caught ↦ absurd (cc (rw caught at on))
  | inr other ↦ absurd (cc (rw other at on))
]
after_reply_lem false b (raise e, rt) es h on = elim (Bool-cases (is_caught e)) [
  | inl caught ↦ inl (rw caught refl)
  | inr other ↦ absurd (cc (rw other at on))
]

after_reply_ok :
    (b : Bool) (r : Result (Unit {0}) × Runtime) (es : List Entry)
    → r.0 ≡ ok tt
    → sent r.1 ≡ es
    → ((after_reply false b r).0 ≡ goes_on) × (sent (after_reply false b r).1 ≡ es)
unfolding request_finished
after_reply_ok b (ok _, rt) es done h = (refl, h)
after_reply_ok b (raise e, rt) es done h = absurd (cc)

-- A worker that goes on to its next task has sent exactly one frame since the handler of this one
-- returned, the reply to this task with its message id and generation; or the daemon is desynced.
pub worker_step_replies :
    (m : Meanwhile) (stopping : Bool) (retries : ℕ) (t : Task) (rt : Runtime)
    → (worker_step m stopping retries t rt).0 ≡ goes_on
    → ((worker_step m stopping retries t rt).1.runtime_state ≡ desynced)
      ⊎ (sent (worker_step m stopping retries t rt).1
          ≡ sent (handled m t rt).1 ++ reply_of m t rt ∷ [])
unfolding worker_step
worker_step_replies m stopping retries t rt on =
    let r = handled m t rt in
    let (answer, bridge_error) = answer_of r.0 in
    let e = reply_entry t answer.0 answer.1 in
    elim (Bool-cases (reply_fits answer.0 answer.1)) [
      | inl fits ↦
          rw (fits, worker_step)
            (after_reply_lem stopping bridge_error (write_reply stopping retries e r.1)
              (sent r.1 ++ e ∷ []) (write_reply_once stopping retries e r.1)
              (rw (fits, worker_step) at on))
      | inr big ↦ absurd (cc (rw (big, worker_step) at on))
    ]

next_write :
    (e : Entry) (rt : Runtime) (o : Result (Unit {0})) (rest : List (Result (Unit {0})))
    → rt.port.outcomes ≡ o ∷ rest
    → ((write_entry e rt).0 ≡ o) × ((write_entry e rt).1.port.outcomes ≡ rest)
unfolding write_entry
next_write e rt o rest h = (rw (h, write_entry) refl, rw (h, write_entry) refl)

abbrev pub full_ring : Result (Unit {0})
full_ring = raise blocking_io_error

after_full :
    (outcome : Result (Unit {0})) (rt : Runtime) (again : Result (Unit {0}) × Runtime)
    → outcome ≡ full_ring
    → after_write true outcome rt again ≡ again
after_full outcome rt again h = rw h refl

-- a ring that is full for `k` attempts, and takes the next
write_reply_waits :
    (k retries : ℕ) (e : Entry) (rt : Runtime) (rest : List (Result (Unit {0})))
    → rt.port.outcomes ≡ replicate k full_ring ++ ok tt ∷ rest
    → k ≤ retries
    → (write_reply false retries e rt).0 ≡ ok tt
unfolding write_reply
write_reply_waits zero zero e rt rest h enough =
    let (took, _) = next_write e rt (ok tt) rest h in rw (took, write_reply) refl
write_reply_waits zero (suc n) e rt rest h enough =
    let (took, _) = next_write e rt (ok tt) rest h in rw (took, write_reply) refl
write_reply_waits (suc k) zero e rt rest h enough = absurd (omega arith)
write_reply_waits (suc k) (suc n) e rt rest h enough =
    let (full, left) = next_write e rt full_ring (replicate k full_ring ++ ok tt ∷ rest) h in
    let r = write_entry e rt in
    ap (λ (a : Result (Unit {0}) × Runtime). a.0)
      (after_full r.0 r.1 (write_reply false n e r.1) full)
    ∙ write_reply_waits k n e r.1 rest left (omega arith)

-- Where the reply of the handler fits its frame and the reply ring is full for at most as many attempts as
-- the deadline allows, the reply is sent and the worker goes on.
pub worker_step_delivers :
    (m : Meanwhile) (retries k : ℕ) (t : Task) (rt : Runtime) (rest : List (Result (Unit {0})))
    → (let answer = (answer_of (handled m t rt).0).0 in reply_fits answer.0 answer.1 ≡ true)
    → (handled m t rt).1.port.outcomes ≡ replicate k full_ring ++ ok tt ∷ rest
    → k ≤ retries
    → ((worker_step m false retries t rt).0 ≡ goes_on)
      × (sent (worker_step m false retries t rt).1
          ≡ sent (handled m t rt).1 ++ reply_of m t rt ∷ [])
unfolding worker_step
worker_step_delivers m retries k t rt rest fits ring enough =
    let r = handled m t rt in
    let (answer, bridge_error) = answer_of r.0 in
    let e = reply_entry t answer.0 answer.1 in
    let done = write_reply_waits k retries e r.1 rest ring enough in
    rw (fits, worker_step)
      (after_reply_ok bridge_error (write_reply false retries e r.1) (sent r.1 ++ e ∷ []) done
        (write_reply_once false retries e r.1 done))
