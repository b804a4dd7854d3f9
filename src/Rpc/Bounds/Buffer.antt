-- ===== src/Rpc/Bounds/Buffer.antt =====
-- src/sensorium/runtime/rpc.py: the limit of the buffer of one connection.
use sensorium.Base.{
  ℕ, ◌+◌, ◌≤◌, max, ◌≡◌, refl, sym, ap, subst, ◌∙◌, true, false, not, ◌&&◌, List, [], ◌∷◌, ◌++◌,
  Option, none, some, codes, Bytes, length, length-append, Bool-cases, inl, inr, ◌⊎◌, if-both,
  or_false, ◌==◌, ltb, arith,
}
use sensorium.Base.Result.{Result, Ensures, Ensures-ok, Ensures-bind, Ensures-map}
use sensorium.Normalize.Values.{Value, null, get, or_else}
use sensorium.Rpc.{
  Response, busy_response, Conn, Limits, with_client, newline, has_newline, request_params,
  seconds_of, is_next_event,
}
use sensorium.Rpc.Serve.{
  queue_response, serve_line, serve_lines, submit, may_dispatch, dispatch, dispatch_pending,
  begin_next_event_wait, wait_or_answer, service_read,
}
use sensorium.Rpc.Lines.{last_line, last_line-append, last_line_whole, no_line}
use sensorium.Rpc.Fifo.Reading.{send_closed}

-- the connection is as open as before, with the same buffer
abbrev pub Same : Conn → Conn → Type 0
Same c d = (d.client.closed ≡ c.client.closed) × (d.client.inbuf ≡ c.client.inbuf)

module _ (l : Limits) (loads : Bytes → Option Value) (dumps : Response → Bytes) where
  pub queue_response-Same : (r : Response) (c : Conn) → Same c (queue_response l loads dumps r c)
  unfolding queue_response
  queue_response-Same r c =
      if-both (Same c) c.client.closed _ _ (λ _. (refl, refl)) (λ _. (refl, refl))

  submit-Same : (q : Value) (c : Conn) → Same c (submit l loads dumps q c)
  submit-Same q c =
      if-both (Same c) (c.worker_slots == 0) _ _ (λ _. queue_response-Same busy_response _)
        (λ _. (refl, refl))

  module _ (next_event : Value → Result (Option Value)) (timeout : Option Value → Option ℕ)
      (now : ℕ) where
    answer-Same :
        (q backend_id : Value) (ticks : ℕ) (event : Option Value) (c : Conn)
        → Same c (wait_or_answer l loads dumps next_event timeout now q backend_id ticks event c)
    answer-Same q backend_id ticks none c = (refl, refl)
    answer-Same q backend_id ticks (some event) c = queue_response-Same _ c

    poll-Same :
        (q : Value) (c : Conn)
        → Ensures (Same c) (begin_next_event_wait l loads dumps next_event timeout now q c)
    unfolding begin_next_event_wait
    poll-Same q c = Ensures-bind (Same c) (request_params q) _ (λ params e0.
        Ensures-bind (Same c) (seconds_of (timeout (get (codes "timeout") params))) _ (λ ticks e1.
          Ensures-bind (Same c) (next_event (or_else null (get (codes "backend_id") params))) _
            (λ event e2. Ensures-ok (Same c) (answer-Same q _ ticks event c))))

    pub dispatch-Same :
        (qs : List Value) (c : Conn)
        → Ensures (Same c) (dispatch l loads dumps next_event timeout now qs c)
    unfolding dispatch
    dispatch-Same [] c = Ensures-ok (Same c) (refl, refl)
    dispatch-Same (q ∷ qs) c =
        let popped = with_client (λ x. record x { pending_requests = qs }) c in
        let (shut, kept) = submit-Same q popped in
        if-both (Ensures (Same c)) (may_dispatch l loads dumps next_event timeout now c.client) _ _
          (λ may.
            if-both (Ensures (Same c)) (is_next_event q) _ _
              (λ poll. Ensures-map (poll-Same q popped) (λ d s. s))
              (λ other.
                Ensures-map (dispatch-Same qs (submit l loads dumps q popped))
                  (λ d s. (s.0 ∙ shut, s.1 ∙ kept))))
          (λ busy. Ensures-ok (Same c) (refl, refl))

  -- the buffer behind a read, of a connection that it leaves open
  abbrev BufferIs : Bytes → Conn → Type 0
  BufferIs bs c = (c.client.closed ≡ true) ⊎ (c.client.inbuf ≡ bs)

  serve_lines-Buffer :
      (n : ℕ) (line bs : Bytes) (c : Conn)
      → BufferIs (last_line loads line bs) (serve_lines l loads dumps n line bs c)
  unfolding serve_lines
  serve_lines-Buffer n line [] c = inr refl
  serve_lines-Buffer n line (b ∷ bs) c = elim (Bool-cases (b == newline)) [
    | inl e ↦ rw e (
        if-both (BufferIs (last_line loads [] bs)) (serve_line l loads dumps n line c).client.closed
          _ _ (λ shut. inl shut)
          (λ still. serve_lines-Buffer n [] bs (serve_line l loads dumps n line c)))
    | inr e ↦ rw e (
        if-both (BufferIs (last_line loads (line ++ b ∷ []) bs)) c.client.closed _ _
          (λ shut. inl shut) (λ still. serve_lines-Buffer n (line ++ b ∷ []) bs c))
  ]

  last_line_short : (line bs : Bytes) → length (last_line loads line bs) ≤ length line + length bs
  last_line_short line [] = omega arith
  last_line_short line (b ∷ bs) = elim (Bool-cases (b == newline)) [
    | inl e ↦ rw e (omega (arith, last_line_short [] bs))
    | inr e ↦ rw e (omega (arith, last_line_short (line ++ b ∷ []) bs, length-append line (b ∷ [])))
  ]

  last_line_new :
      (line bs : Bytes) → has_newline bs ≡ true → length (last_line loads line bs) ≤ length bs
  last_line_new line [] h = cc
  last_line_new line (b ∷ bs) h = elim (Bool-cases (b == newline)) [
    | inl e ↦ rw e (omega (arith, last_line_short [] bs))
    | inr e ↦
        let h' : has_newline bs ≡ true = rw e at h in
        rw e (omega (arith, last_line_new (line ++ b ∷ []) bs h'))
  ]

  abbrev pub limit : ℕ
  limit = max l.max_request_bytes 65536

  -- the buffer of an open connection is the start of one line
  abbrev pub IsShort : Conn → Type 0
  IsShort c =
      (c.client.closed ≡ true)
      ⊎ ((has_newline c.client.inbuf ≡ false) × (length c.client.inbuf ≤ limit))

  newline_behind :
      (xs ys : Bytes) → has_newline xs ≡ false → has_newline (xs ++ ys) ≡ has_newline ys
  newline_behind [] ys h = refl
  newline_behind (x ∷ xs) ys h =
      let (apart, rest) = or_false (x == newline) (has_newline xs) h in
      rw apart (newline_behind xs ys rest)

  -- a chunk behind the start of a line
  line_behind :
      (inbuf chunk : Bytes)
      → has_newline inbuf ≡ false
      → last_line loads [] (inbuf ++ chunk) ≡ last_line loads inbuf chunk
  line_behind inbuf chunk h =
      last_line-append loads [] inbuf chunk
      ∙ ap (λ x. last_line loads x chunk) (no_line loads [] inbuf h).1

  rest_short :
      (inbuf chunk : Bytes)
      → has_newline inbuf ≡ false
      → length chunk ≤ 65536
      → (not (has_newline (inbuf ++ chunk)) && ltb l.max_request_bytes (length (inbuf ++ chunk)))
        ≡ false
      → length (last_line loads [] (inbuf ++ chunk)) ≤ limit
  rest_short inbuf chunk h few fits = elim (Bool-cases (has_newline (inbuf ++ chunk))) [
    | inl e ↦
        let there : has_newline chunk ≡ true = sym (newline_behind inbuf chunk h) ∙ e in
        let short : length (last_line loads [] (inbuf ++ chunk)) ≤ length chunk =
          rw (line_behind inbuf chunk h) (last_line_new inbuf chunk there) in
        omega (arith, few, short)
    | inr e ↦
        let fits' : ltb l.max_request_bytes (length (inbuf ++ chunk)) ≡ false = rw e at fits in
        rw (no_line loads [] (inbuf ++ chunk) e).1 (ground arith)
  ]

  module _ (next_event : Value → Result (Option Value)) (timeout : Option Value → Option ℕ)
      (now : ℕ) where
    pub dispatch_pending-Short :
        (c : Conn)
        → IsShort c
        → Ensures IsShort (dispatch_pending l loads dumps next_event timeout now c)
    dispatch_pending-Short c h =
        Ensures-map (dispatch-Same next_event timeout now c.client.pending_requests c) (λ d s.
          elim h [
            | inl shut ↦ inl (s.0 ∙ shut)
            | inr (line, few) ↦
                inr (ap has_newline s.1 ∙ line, subst (λ x. length x ≤ limit) (sym s.1) few)
          ])

    pub service_read-Short :
        (n : ℕ) (chunk : Bytes) (c : Conn)
        → length chunk ≤ 65536
        → has_newline c.client.inbuf ≡ false
        → Ensures IsShort (service_read l loads dumps next_event timeout now n chunk c)
    unfolding service_read
    service_read-Short n chunk c few h =
        if-both (Ensures IsShort)
          (not (has_newline (c.client.inbuf ++ chunk))
            && ltb l.max_request_bytes (length (c.client.inbuf ++ chunk)))
          _ _ (λ long. Ensures-ok IsShort (inl (send_closed l loads dumps n _)))
          (λ fits.
            if-both (Ensures IsShort)
              (serve_lines l loads dumps n [] (c.client.inbuf ++ chunk) _).client.closed _ _
              (λ shut. Ensures-ok IsShort (inl shut))
              (λ still.
                dispatch_pending-Short _
                  (elim (serve_lines-Buffer n [] (c.client.inbuf ++ chunk) _) [
                    | inl shut ↦ inl shut
                    | inr e ↦ inr (
                      ap has_newline e ∙ last_line_whole loads [] (c.client.inbuf ++ chunk) refl,
                      subst (λ x. length x ≤ limit) (sym e)
                          (rest_short c.client.inbuf chunk h few fits),
                    )
                  ])))
