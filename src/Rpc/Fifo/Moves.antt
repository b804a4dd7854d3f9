-- ===== src/Rpc/Fifo/Moves.antt =====
-- src/sensorium/runtime/rpc.py: what each operation does to the order of the answers.
use sensorium.Base.{
  ◌≡◌, refl, sym, ap, subst, ◌∙◌, Bool, true, false, List, [], ◌∷◌, ◌++◌, Option, none, some,
  if◌then◌else◌, Bytes, append_assoc, append-nil,
}
use sensorium.Normalize.Values.{Value}
use sensorium.Rpc.{Response, Conn, Limits, Waiter, with_client, is_waiting}
use sensorium.Rpc.Serve.{frame, queue_response}
use sensorium.Rpc.Fifo.{
  IsAnswer, Answers, answer, Stage, idle, running, done, polling, somes, nones, frames, Fifo,
}

-- the request behind which nothing is in progress
pub start_job :
    {a : Bool} {w : Option Waiter} {js : List Value} {cs : List Response} {ps : List Value}
    → Stage a w js cs ps
    → a ≡ false
    → is_waiting w ≡ false
    → (q : Value) → Stage true w (js ++ q ∷ []) cs (q ∷ [])
start_job idle ha hw q = running q
start_job (running p) ha hw q = cc
start_job (done p r x) ha hw q = cc
start_job (polling w) ha hw q = cc

pub start_wait :
    {a : Bool} {w : Option Waiter} {js : List Value} {cs : List Response} {ps : List Value}
    → Stage a w js cs ps
    → a ≡ false
    → is_waiting w ≡ false
    → (x : Waiter) → Stage a (some x) js cs (x.request ∷ [])
start_wait idle ha hw x = polling x
start_wait (running p) ha hw x = cc
start_wait (done p r y) ha hw x = cc
start_wait (polling w) ha hw x = cc

pub was_idle :
    {a : Bool} {w : Option Waiter} {js : List Value} {cs : List Response} {ps : List Value}
    → Stage a w js cs ps
    → a ≡ false
    → is_waiting w ≡ false
    → Stage a w js cs [] × (ps ≡ [])
was_idle idle ha hw = (idle, refl)
was_idle (running p) ha hw = cc
was_idle (done p r x) ha hw = cc
was_idle (polling w) ha hw = cc

-- a job that ends, and its answer that is taken from the queue
pub end_job :
    {a : Bool} {w : Option Waiter} {js : List Value} {cs : List Response} {ps : List Value}
    → Stage a w js cs ps
    → (q : Value) (rest : List Value) (r : Response) → js ≡ q ∷ rest
    → IsAnswer q r
    → Stage a w rest (cs ++ r ∷ []) ps
end_job idle q rest r h x = cc
end_job (running p) q rest r h x =
    let same : p ≡ q = cc in
    let last : [] ≡ rest = cc in
    subst (λ js'. Stage true none js' (r ∷ []) (p ∷ [])) last
      (done p r (subst (λ y. IsAnswer y r) (sym same) x))
end_job (done p r' y) q rest r h x = cc
end_job (polling w) q rest r h x = cc

pub take_answer :
    {a : Bool} {w : Option Waiter} {js : List Value} {cs : List Response} {ps : List Value}
    → Stage a w js cs ps
    → (r : Response) (rs : List Response) → cs ≡ r ∷ rs
    → (q : Value) × (ps ≡ q ∷ []) × IsAnswer q r × Stage false w js rs []
take_answer idle r rs h = cc
take_answer (running p) r rs h = cc
take_answer (done p r' y) r rs h =
    let same : r' ≡ r = cc in
    let last : [] ≡ rs = cc in
    (p, refl, subst (IsAnswer p) same y, subst (λ cs'. Stage false none [] cs' []) last idle)
take_answer (polling w) r rs h = cc

pub end_wait :
    {a : Bool} {w : Option Waiter} {js : List Value} {cs : List Response} {ps : List Value}
    → Stage a w js cs ps
    → (x : Waiter) → w ≡ some x
    → (ps ≡ x.request ∷ []) × Stage a none js cs []
end_wait idle x h = cc
end_wait (running p) x h = cc
end_wait (done p r y) x h = cc
end_wait (polling w) x h = let same : w ≡ x = cc in (ap (λ z. z.request ∷ []) same, idle)

if_false {ℓ} : {A : Type ℓ} (b : Bool) (x y : A) → b ≡ false → (if b then x else y) ≡ y
if_false true x y h = cc
if_false false x y h = refl

module _ (l : Limits) (loads : Bytes → Option Value) (dumps : Response → Bytes) where
  pub frames-concat :
      (rs : List Response) (r : Response)
      → frames dumps l loads (rs ++ r ∷ []) ≡ frames dumps l loads rs ++ frame l loads dumps r
  frames-concat [] r = append-nil _
  frames-concat (s ∷ rs) r =
      rw (frames-concat rs r)
        (sym (append_assoc (frame l loads dumps s) (frames dumps l loads rs) _))

  pub queued :
      (r : Response) (c : Conn)
      → c.client.closed ≡ false
      → queue_response l loads dumps r c
        ≡ with_client (λ x. record x { outbuf = x.outbuf ++ frame l loads dumps r }) c
  unfolding queue_response
  queued r c h = if_false c.client.closed _ _ h

  -- the answer to the request that is next, with nothing in progress
  module _ (seen : List (Option Value)) (received inbuf : Bytes) where
    pub add_answer :
        (c : Conn) (rs : List Response) (qs : List Value) (q : Value) (r : Response)
        → c.client.closed ≡ false
        → Answers (nones seen) rs qs
        → c.client.sock.sent ++ c.client.outbuf ≡ frames dumps l loads rs
        → IsAnswer q r
        → Stage c.client.active_request c.client.waiting_for_event c.jobs c.completions []
        → somes seen ≡ qs ++ (q ∷ c.client.pending_requests)
        → c.client.sock.received ≡ received
        → c.client.inbuf ≡ inbuf
        → Fifo dumps l loads (queue_response l loads dumps r c) seen received inbuf
    add_answer c rs qs q r h a w x s o hs hb =
        subst (λ d. Fifo dumps l loads d seen received inbuf) (sym (queued r c h))
          (record {
            is_open = h;
            responses = rs ++ r ∷ [];
            answered = qs ++ q ∷ [];
            in_progress = [];
            answers = answer q r a x;
            written =
                sym (append_assoc c.client.sock.sent c.client.outbuf (frame l loads dumps r))
                ∙ ap (λ t. t ++ frame l loads dumps r) w
                ∙ sym (frames-concat rs r);
            stage = s;
            order = o ∙ sym (append_assoc qs (q ∷ []) c.client.pending_requests);
            socket = hs;
            buffer = hb;
          })
