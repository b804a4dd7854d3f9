-- ===== src/Rpc/Bounds.antt =====
-- src/sensorium/runtime/rpc.py: the limits of what is kept for one connection.
pub mod Buffer
pub mod Runs
use sensorium.Base.{
  ℕ, ◌+◌, ◌≤◌, max, ◌≡◌, refl, sym, ap, ap₂, subst, ◌∙◌, Bool, true, false, not, ◌&&◌, List, [],
  ◌∷◌, ◌++◌, Option, none, some, Bytes, codes, if◌then◌else◌, length, length-append, Bool-cases,
  Option-cases, inl, inr, if-both, ◌==◌, ltb, leb, arith,
}
use sensorium.Base.Result.{
  Result, ok, raise, ◌>>=◌, Ensures, Ensures-ok, Ensures-bind, Ensures-elim, Ensures-map,
}
use sensorium.Normalize.Values.{Value, null, get, or_else}
use sensorium.Rpc.{
  Response, error_response, busy_response, Conn, Client, Limits, Waiter, with_client, set_inbuf,
  close_client, is_blank, newline, has_newline, request_params, seconds_of, is_next_event,
}
use sensorium.Rpc.Serve.{
  queue_response, send_error_and_close, append_request, serve_line, serve_lines, submit,
  may_dispatch, dispatch, dispatch_pending, begin_next_event_wait, wait_or_answer,
}
use sensorium.Rpc.Progress.{submit-pending, answered-pending}

module _ (l : Limits) (loads : Bytes → Option Value) (dumps : Response → Bytes) where
  abbrev pub IsWithin : Conn → Type 0
  IsWithin c = length c.client.pending_requests ≤ l.max_pending

  pub close_client-Within : (c : Conn) → IsWithin c → IsWithin (close_client c)
  unfolding close_client
  close_client-Within c h = if-both IsWithin c.client.closed _ _ (λ _. h) (λ _. h)

  pub queue_response-Within :
      (r : Response) (c : Conn) → IsWithin c → IsWithin (queue_response l loads dumps r c)
  unfolding queue_response
  queue_response-Within r c h = if-both IsWithin c.client.closed _ _ (λ _. h) (λ _. h)

  pub send-Within :
      (n : ℕ) (c : Conn) → IsWithin c → IsWithin (send_error_and_close l loads dumps n c)
  unfolding send_error_and_close
  send-Within n c h = if-both IsWithin c.client.closed _ _ (λ _. h) (λ _. close_client-Within _ h)

  append-Within :
      (n : ℕ) (q : Value) (c : Conn) → IsWithin c → IsWithin (append_request l loads dumps n q c)
  append-Within n q c h =
      if-both IsWithin (leb l.max_pending (length c.client.pending_requests)) _ _
        (λ _. send-Within n c h)
        (λ room. ground (arith, length-append c.client.pending_requests (q ∷ [])))

  serve_line-Within :
      (n : ℕ) (line : Bytes) (c : Conn) → IsWithin c → IsWithin (serve_line l loads dumps n line c)
  unfolding serve_line
  serve_line-Within n line c h =
      if-both IsWithin (is_blank line) _ _ (λ _. h)
        (λ _.
          if-both IsWithin (ltb l.max_request_bytes (length line)) _ _ (λ _. send-Within n c h)
            (λ _. elim (Option-cases (loads line)) [
              | inl e ↦ rw e (queue_response-Within (error_response null) c h)
              | inr (q, e) ↦ rw e (append-Within n q c h)
            ]))

  pub serve_lines-Within :
      (n : ℕ) (line bs : Bytes) (c : Conn)
      → IsWithin c
      → IsWithin (serve_lines l loads dumps n line bs c)
  unfolding serve_lines
  serve_lines-Within n line [] c h = h
  serve_lines-Within n line (b ∷ bs) c h =
      let c' = if b == newline then serve_line l loads dumps n line c else c in
      let h' : IsWithin c' =
        if-both IsWithin (b == newline) _ _ (λ _. serve_line-Within n line c h) (λ _. h) in
      if-both IsWithin c'.client.closed _ _ (λ _. h')
        (λ _. serve_lines-Within n (if b == newline then [] else line ++ b ∷ []) bs c' h')

  module _ (next_event : Value → Result (Option Value)) (timeout : Option Value → Option ℕ)
      (now : ℕ) where
    shorter :
        (c : Conn) (q : Value) (qs : List Value)
        → c.client.pending_requests ≡ q ∷ qs
        → IsWithin c
        → length qs ≤ l.max_pending
    shorter c q qs e h =
        let h' : length (q ∷ qs) ≤ l.max_pending = subst (λ xs. length xs ≤ l.max_pending) e h in
        omega arith

    poll-Within :
        (q : Value) (c : Conn)
        → IsWithin c
        → Ensures IsWithin (begin_next_event_wait l loads dumps next_event timeout now q c)
    unfolding begin_next_event_wait
    poll-Within q c h = Ensures-bind IsWithin (request_params q) _ (λ params e0.
        Ensures-bind IsWithin (seconds_of (timeout (get (codes "timeout") params))) _ (λ ticks e1.
          Ensures-bind IsWithin (next_event (or_else null (get (codes "backend_id") params))) _
            (λ event e2. Ensures-ok IsWithin (
              subst (λ xs. length xs ≤ l.max_pending)
                (sym (answered-pending l loads dumps next_event timeout now q _ ticks event c))
                h))))

    pub dispatch-Within :
        (qs : List Value) (c : Conn)
        → c.client.pending_requests ≡ qs
        → IsWithin c
        → Ensures IsWithin (dispatch l loads dumps next_event timeout now qs c)
    unfolding dispatch
    dispatch-Within [] c e h = Ensures-ok IsWithin h
    dispatch-Within (q ∷ qs) c e h =
        let popped = with_client (λ x. record x { pending_requests = qs }) c in
        let fewer = shorter c q qs e h in
        if-both (Ensures IsWithin) (may_dispatch l loads dumps next_event timeout now c.client) _ _
          (λ may.
            if-both (Ensures IsWithin) (is_next_event q) _ _ (λ poll. poll-Within q popped fewer)
              (λ other.
                dispatch-Within qs (submit l loads dumps q popped)
                  (submit-pending l loads dumps q popped)
                  (subst (λ xs. length xs ≤ l.max_pending)
                    (sym (submit-pending l loads dumps q popped)) fewer)))
          (λ busy. Ensures-ok IsWithin h)
