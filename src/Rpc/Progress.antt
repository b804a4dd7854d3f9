-- ===== src/Rpc/Progress.antt =====
-- src/sensorium/runtime/rpc.py: `_dispatch_pending` returns, and what it leaves pending.
use sensorium.Base.{
  ℕ, ◌≡◌, refl, sym, ap, ◌∙◌, true, false, List, [], ◌∷◌, ◌++◌, Option, none, some, codes, Bytes,
  inl, inr, ◌⊎◌, if-both, ◌==◌, AllOf,
}
use sensorium.Base.Result.{Result, ok}
use sensorium.Normalize.Values.{Value, Fields, null, get, or_else}
use sensorium.Rpc.{
  Response, busy_response, Conn, Limits, with_client, request_params, seconds_of, is_next_event,
}
use sensorium.Rpc.Serve.{
  queue_response, submit, may_dispatch, dispatch, dispatch_pending, begin_next_event_wait,
  wait_or_answer,
}

module _ (l : Limits) (loads : Bytes → Option Value) (dumps : Response → Bytes) where
  pub queue_response-pending :
      (r : Response) (c : Conn)
      → (queue_response l loads dumps r c).client.pending_requests ≡ c.client.pending_requests
  unfolding queue_response
  queue_response-pending r c =
      if-both (λ (d : Conn). d.client.pending_requests ≡ c.client.pending_requests) c.client.closed
        _ _ (λ _. refl) (λ _. refl)

  pub submit-pending :
      (q : Value) (c : Conn)
      → (submit l loads dumps q c).client.pending_requests ≡ c.client.pending_requests
  submit-pending q c =
      if-both (λ (d : Conn). d.client.pending_requests ≡ c.client.pending_requests)
        (c.worker_slots == 0) _ _ (λ _. queue_response-pending busy_response _) (λ _. refl)

  module _ (next_event : Value → Result (Option Value)) (timeout : Option Value → Option ℕ)
      (now : ℕ) where
    -- a poll whose parameters can be read, and for which the runtime gives an answer
    pub record IsPoll (q : Value) : Type 0 where
      pub params : Fields
      pub ticks : ℕ
      pub event : Option Value
      pub has_params : request_params q ≡ ok params
      pub has_timeout : seconds_of (timeout (get (codes "timeout") params)) ≡ ok ticks
      pub has_event : next_event (or_else null (get (codes "backend_id") params)) ≡ ok event

    abbrev pub IsReadable : Value → Type 0
    IsReadable q = is_next_event q ≡ true → IsPoll q

    -- why requests may be left: one is in progress, or a poll in front of them was taken
    abbrev pub Held : List Value → Conn → Type 0
    Held qs c =
        (c.client.pending_requests ≡ [])
        ⊎ ((may_dispatch l loads dumps next_event timeout now c.client ≡ false)
            ⊎ ((before : List Value) × (q : Value) × (qs ≡ before ++ q ∷ c.client.pending_requests)
                × (is_next_event q ≡ true)))

    Held-cons : (p : Value) (qs : List Value) (c : Conn) → Held qs c → Held (p ∷ qs) c
    Held-cons p qs c (inl none_left) = inl none_left
    Held-cons p qs c (inr (inl busy)) = inr (inl busy)
    Held-cons p qs c (inr (inr (before, q, e, poll))) =
        inr (inr (p ∷ before, q, ap (λ xs. p ∷ xs) e, poll))

    pub answered-pending :
        (q backend_id : Value) (ticks : ℕ) (event : Option Value) (c : Conn)
        → (wait_or_answer l loads dumps next_event timeout now q backend_id ticks event
            c).client.pending_requests
          ≡ c.client.pending_requests
    answered-pending q backend_id ticks none c = refl
    answered-pending q backend_id ticks (some event) c = queue_response-pending _ c

    poll_returns :
        (q : Value) (qs : List Value) (c : Conn)
        → IsPoll q
        → c.client.pending_requests ≡ qs
        → (c' : Conn) × (begin_next_event_wait l loads dumps next_event timeout now q c ≡ ok c')
          × (c'.client.pending_requests ≡ qs)
    unfolding begin_next_event_wait
    poll_returns q qs c p h =
        let backend_id = or_else null (get (codes "backend_id") p.params) in
        (
          wait_or_answer l loads dumps next_event timeout now q backend_id p.ticks p.event c,
          rw (p.has_params, p.has_timeout, p.has_event) refl,
          answered-pending q backend_id p.ticks p.event c ∙ h,
        )

    Returns : List Value → Conn → Type 0
    Returns qs c =
        (c' : Conn) × (dispatch l loads dumps next_event timeout now qs c ≡ ok c') × Held qs c'

    dispatch-Returns :
        (qs : List Value) (c : Conn)
        → c.client.pending_requests ≡ qs
        → AllOf IsReadable qs
        → Returns qs c
    unfolding dispatch Returns
    dispatch-Returns [] c h polls = (c, refl, inl h)
    dispatch-Returns (q ∷ qs) c h polls =
        let popped = with_client (λ x. record x { pending_requests = qs }) c in
        if-both (λ r. (c' : Conn) × (r ≡ ok c') × Held (q ∷ qs) c')
          (may_dispatch l loads dumps next_event timeout now c.client) _ _
          (λ may.
            if-both (λ r. (c' : Conn) × (r ≡ ok c') × Held (q ∷ qs) c') (is_next_event q) _ _
              (λ poll.
                let (c', e, left) = poll_returns q qs popped (polls.0 poll) refl in
                (c', e, inr (inr ([], q, ap (λ xs. q ∷ xs) (sym left), poll))))
              (λ other.
                let (c', e, held) =
                  dispatch-Returns qs (submit l loads dumps q popped) (submit-pending q popped)
                    polls.1 in
                (c', e, Held-cons q qs c' held)))
          (λ busy. (c, refl, inr (inl busy)))

    -- With every poll among the pending requests readable, dispatching them returns, and leaves requests pending only while
    -- one is in progress, or behind a poll that it has taken.
    pub dispatch_pending_lem :
        (c : Conn)
        → AllOf IsReadable c.client.pending_requests
        → (c' : Conn) × (dispatch_pending l loads dumps next_event timeout now c ≡ ok c')
          × Held c.client.pending_requests c'
    unfolding Returns
    dispatch_pending_lem c polls = dispatch-Returns c.client.pending_requests c refl polls
