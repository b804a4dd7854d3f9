-- ===== src/Runtime/Dispatch/Answers.antt =====
-- src/sensorium/runtime/bridge.py: the outcome of a request that waits for an external controller.
use sensorium.Base.{
  ℕ, ◌≡◌, ◌++◌, refl, sym, ap, ◌∙◌, false, inl, inr, List, [], ◌∷◌, none, some, if◌then◌else◌,
  Bytes, Text, lookup, ◌==◌, lookup-insert_self, ℤ, neg,
}
use sensorium.Device.{etimedout}
use sensorium.Runtime.{Runtime, Event, Pending}
use sensorium.Runtime.Backends.{attach_backend, detach_backend, poll_next_event, reply_event}
use sensorium.Runtime.Apply.{reset_runtime, apply_model}
use sensorium.Runtime.Resync.{resync_runtime}
use sensorium.Runtime.Dispatch.{
  Call, poll, reply_to, attach, detach, worker_reply, worker_exit, reset, resync, apply, run_call,
  run_calls, register, enqueue_event, outcome_of, held, await_reply, Meanwhile, dispatch_external,
}
use sensorium.Base.{subst}
use sensorium.Runtime.Dispatch.Emptying.{
  pending-attach, pending-detach, pending-poll, reset-Emptied, resync-Emptied, apply-Emptied,
}
use sensorium.Runtime.Dispatch.Waiting.{
  Waits, IsOut, Waits-same, IsOut-same, Waits-Emptied, IsOut-Emptied, same_id, Waits-reply,
  IsOut-reply,
}

-- the calls of RPC clients
abbrev pub AllClient : List Call → Type 0
AllClient [] = Unit
AllClient (worker_reply _ _ _ ∷ cs) = ⊥
AllClient (worker_exit _ ∷ cs) = ⊥
AllClient (_ ∷ cs) = AllClient cs

-- the last of the replies to a request, or `answer`
abbrev pub last_reply : ℕ → List Call → ℤ × Bytes → ℤ × Bytes
last_reply id [] answer = answer
last_reply id (reply_to i status bytes ∷ cs) answer =
    last_reply id cs (if i == id then (status, bytes) else answer)
last_reply id (_ ∷ cs) answer = last_reply id cs answer

-- the call at which the requests that wait were taken out of the dictionary
abbrev pub IsCut : List Call → Runtime → Type 0
IsCut [] rt = Unit
IsCut (reset ∷ _) rt = (run_call reset rt).pending_controller ≡ []
IsCut (resync ∷ _) rt = (run_call resync rt).pending_controller ≡ []
IsCut (apply model ∷ _) rt = (run_call (apply model) rt).pending_controller ≡ []
IsCut (_ ∷ _) rt = ⊥

-- Of the calls from `rt` on, those of `counted` found the request in the dictionary of pending requests; then the calls end,
-- or a reset, a resync or a new model empties it.
pub record Counted (id : ℕ) (calls : List Call) (rt : Runtime) : Type 0 where
  pub counted : List Call
  pub rest : List Call
  pub whole : counted ++ rest ≡ calls
  pub waits : (p : Pending) × (lookup ◌==◌ id (run_calls counted rt).pending_controller ≡ some p)
  pub cut : IsCut rest (run_calls counted rt)

-- the request has an outcome, in the dictionary or out of it
abbrev HasOutcome : ℕ → ℤ × Bytes → Runtime → Type 0
HasOutcome id answer rt = (p : Pending) × (held id rt ≡ some p) × (outcome_of (some p) ≡ answer)

Waits-HasOutcome :
    (id : ℕ) (answer : ℤ × Bytes) (rt : Runtime) → Waits id answer rt → HasOutcome id answer rt
Waits-HasOutcome id answer rt (p, found, o) = (p, rw (found, held) refl, o)

IsOut-HasOutcome :
    (id : ℕ) (answer : ℤ × Bytes) (rt : Runtime) → IsOut id answer rt → HasOutcome id answer rt
unfolding lookup
IsOut-HasOutcome id answer rt (p, gone, found, o) =
    let missing : lookup ◌==◌ id rt.pending_controller ≡ none = ap (lookup ◌==◌ id) gone in
    (p, rw (missing, held) found, o)

IsOut-calls :
    (id : ℕ) (cs : List Call) (answer : ℤ × Bytes) (rt : Runtime)
    → AllClient cs
    → IsOut id answer rt
    → IsOut id answer (run_calls cs rt)
unfolding run_calls run_call
IsOut-calls id [] answer rt client w = w
IsOut-calls id (poll b ∷ cs) answer rt client w =
    IsOut-calls id cs answer (poll_next_event b rt).1 client
      (IsOut-same id answer rt (poll_next_event b rt).1 (pending-poll b rt) w)
IsOut-calls id (attach b ids ∷ cs) answer rt client w =
    IsOut-calls id cs answer (attach_backend b ids rt).1 client
      (IsOut-same id answer rt (attach_backend b ids rt).1 (pending-attach b ids rt) w)
IsOut-calls id (detach b ids ∷ cs) answer rt client w =
    IsOut-calls id cs answer (detach_backend b ids rt).1 client
      (IsOut-same id answer rt (detach_backend b ids rt).1 (pending-detach b ids rt) w)
IsOut-calls id (reply_to i status bytes ∷ cs) answer rt client w =
    IsOut-calls id cs answer (reply_event i status bytes rt).1 client
      (IsOut-reply id i status bytes answer rt w)
IsOut-calls id (reset ∷ cs) answer rt client w =
    IsOut-calls id cs answer (reset_runtime rt).1 client
      (IsOut-Emptied id answer rt (reset_runtime rt).1 (reset-Emptied rt) w)
IsOut-calls id (resync ∷ cs) answer rt client w =
    IsOut-calls id cs answer (resync_runtime rt).1 client
      (IsOut-Emptied id answer rt (resync_runtime rt).1 (resync-Emptied rt) w)
IsOut-calls id (apply m ∷ cs) answer rt client w =
    IsOut-calls id cs answer (apply_model m rt).1 client
      (IsOut-Emptied id answer rt (apply_model m rt).1 (apply-Emptied m rt) w)
IsOut-calls id (worker_reply _ _ _ ∷ cs) answer rt client w = absurd client
IsOut-calls id (worker_exit _ ∷ cs) answer rt client w = absurd client

-- the calls that count, and the outcome that they give
record Answered (id : ℕ) (cs : List Call) (answer : ℤ × Bytes) (rt : Runtime) : Type 0 where
  calls : Counted id cs rt
  outcome : HasOutcome id (last_reply id calls.counted answer) (run_calls cs rt)

-- the call `c` left the request in the dictionary
after_call :
    (id : ℕ) (c : Call) (cs : List Call) (answer answer' : ℤ × Bytes) (rt : Runtime)
    → ((ds : List Call) → last_reply id (c ∷ ds) answer ≡ last_reply id ds answer')
    → Answered id cs answer' (run_call c rt)
    → Answered id (c ∷ cs) answer rt
unfolding run_calls
after_call id c cs answer answer' rt e g = record {
  calls = record {
    counted = c ∷ g.calls.counted;
    rest = g.calls.rest;
    whole = ap (λ ds. c ∷ ds) g.calls.whole;
    waits = g.calls.waits;
    cut = g.calls.cut;
  };
  outcome =
      subst (λ a. HasOutcome id a (run_calls cs (run_call c rt))) (sym (e g.calls.counted))
        g.outcome;
}

-- the call `c` emptied the dictionary
at_cut :
    (id : ℕ) (c : Call) (cs : List Call) (answer : ℤ × Bytes) (rt : Runtime)
    → AllClient cs
    → Waits id answer rt
    → IsCut (c ∷ cs) rt
    → IsOut id answer (run_call c rt)
    → Answered id (c ∷ cs) answer rt
unfolding run_calls
at_cut id c cs answer rt client w cut out = record {
  calls = record { counted = []; rest = c ∷ cs; whole = refl; waits = (w.0, w.1); cut = cut };
  outcome =
      IsOut-HasOutcome id answer (run_calls cs (run_call c rt))
        (IsOut-calls id cs answer (run_call c rt) client out);
}

Waits-calls :
    (id : ℕ) (cs : List Call) (answer : ℤ × Bytes) (rt : Runtime)
    → AllClient cs
    → Waits id answer rt
    → Answered id cs answer rt
unfolding run_calls run_call
Waits-calls id [] answer rt client w = record {
  calls = record { counted = []; rest = []; whole = refl; waits = (w.0, w.1); cut = tt };
  outcome = Waits-HasOutcome id answer rt w;
}
Waits-calls id (poll b ∷ cs) answer rt client w =
    after_call id (poll b) cs answer answer rt (λ ds. refl)
      (Waits-calls id cs answer (poll_next_event b rt).1 client
        (Waits-same id answer rt (poll_next_event b rt).1 (pending-poll b rt) w))
Waits-calls id (attach b ids ∷ cs) answer rt client w =
    after_call id (attach b ids) cs answer answer rt (λ ds. refl)
      (Waits-calls id cs answer (attach_backend b ids rt).1 client
        (Waits-same id answer rt (attach_backend b ids rt).1 (pending-attach b ids rt) w))
Waits-calls id (detach b ids ∷ cs) answer rt client w =
    after_call id (detach b ids) cs answer answer rt (λ ds. refl)
      (Waits-calls id cs answer (detach_backend b ids rt).1 client
        (Waits-same id answer rt (detach_backend b ids rt).1 (pending-detach b ids rt) w))
Waits-calls id (reply_to i status bytes ∷ cs) answer rt client w =
    let now = if i == id then (status, bytes) else answer in
    after_call id (reply_to i status bytes) cs answer now rt (λ ds. refl)
      (Waits-calls id cs now (reply_event i status bytes rt).1 client
        (Waits-reply id i status bytes answer rt w))
Waits-calls id (reset ∷ cs) answer rt client w =
    elim (Waits-Emptied id answer rt (reset_runtime rt).1 (reset-Emptied rt) w) [
      | inl still ↦
          after_call id reset cs answer answer rt (λ ds. refl)
            (Waits-calls id cs answer (reset_runtime rt).1 client still)
      | inr out ↦ at_cut id reset cs answer rt client w out.1 out
    ]
Waits-calls id (resync ∷ cs) answer rt client w =
    elim (Waits-Emptied id answer rt (resync_runtime rt).1 (resync-Emptied rt) w) [
      | inl still ↦
          after_call id resync cs answer answer rt (λ ds. refl)
            (Waits-calls id cs answer (resync_runtime rt).1 client still)
      | inr out ↦ at_cut id resync cs answer rt client w out.1 out
    ]
Waits-calls id (apply m ∷ cs) answer rt client w =
    elim (Waits-Emptied id answer rt (apply_model m rt).1 (apply-Emptied m rt) w) [
      | inl still ↦
          after_call id (apply m) cs answer answer rt (λ ds. refl)
            (Waits-calls id cs answer (apply_model m rt).1 client still)
      | inr out ↦ at_cut id (apply m) cs answer rt client w out.1 out
    ]
Waits-calls id (worker_reply _ _ _ ∷ cs) answer rt client w = absurd client
Waits-calls id (worker_exit _ ∷ cs) answer rt client w = absurd client

-- the request is in the dictionary, and in the backend's queue
abbrev pub requested : Text → Event → Runtime → Runtime
requested backend_id event rt = enqueue_event backend_id event (register event rt)

-- A request to an attached external controller ends with the last reply to its own request id among the calls that clients
-- made while it was in the dictionary of pending requests, and with ETIMEDOUT where there was none. These are all of the calls
-- made during its wait, or those before a reset, a resync or a new model that empties the dictionary; replies to other
-- requests, polls, and attaching and detaching do not matter.
pub dispatch_external_lem :
    (m : Meanwhile) (c : ℕ) (backend_id : Text) (event : Event) (rt : Runtime)
    → AllClient m.during
    → (calls : Counted event.request_id m.during (requested (c ∷ backend_id) event rt))
      × ((dispatch_external m (some (c ∷ backend_id)) event rt).0
          ≡ last_reply event.request_id calls.counted (neg etimedout, []))
unfolding dispatch_external await_reply enqueue_event register
dispatch_external_lem m c backend_id event rt client =
    let p : Pending = record { event = event; done = false; status = neg etimedout; reply = [] } in
    let there =
      lookup-insert_self ◌==◌ event.request_id p rt.pending_controller (same_id event.request_id) in
    let a =
      Waits-calls event.request_id m.during (neg etimedout, [])
        (requested (c ∷ backend_id) event rt) client (p, there, refl) in
    (a.calls, ap outcome_of a.outcome.1 ∙ a.outcome.2)
