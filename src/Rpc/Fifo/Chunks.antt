-- ===== src/Rpc/Fifo/Chunks.antt =====
-- src/sensorium/runtime/rpc.py: what a connection reads, in whatever chunks, and the order of the answers.
use sensorium.Base.{
  ℕ, ◌≡◌, refl, sym, ap, ap₂, subst, ◌∙◌, true, false, not, ◌&&◌, List, [], ◌++◌, Option, Bytes,
  inl, inr, ◌⊎◌, if-both, ltb, length,
}
use sensorium.Base.Result.{Result, Ensures, Ensures-ok, Ensures-map}
use sensorium.Normalize.Values.{Value}
use sensorium.Rpc.{Response, Conn, Limits, with_client, has_newline}
use sensorium.Rpc.Serve.{serve_lines, service_read, dispatch_pending}
use sensorium.Rpc.Lines.{
  lines_from, last_line, lines_from-append, last_line-append, no_line, last_line_whole,
}
use sensorium.Rpc.Fifo.{Fifo}
use sensorium.Rpc.Fifo.Dispatch.{dispatch-Fifo}
use sensorium.Rpc.Fifo.Reading.{send_closed, serve_lines-Settled}

module _ (l : Limits) (loads : Bytes → Option Value) (dumps : Response → Bytes) where
  -- the connection between two reads: the buffer is the line that is not whole yet
  pub record InOrder (c : Conn) : Type 0 where
    pub received : Bytes
    pub fifo :
        Fifo dumps l loads c (lines_from loads [] received) received (last_line loads [] received)

  abbrev pub IsOrdered : Conn → Type 0
  IsOrdered c = (c.client.closed ≡ true) ⊎ InOrder c

  -- the lines of a chunk behind what was read before
  more_lines :
      (received chunk : Bytes)
      → (lines_from loads [] received ++ lines_from loads [] (last_line loads [] received ++ chunk)
          ≡ lines_from loads [] (received ++ chunk))
        × (last_line loads [] (last_line loads [] received ++ chunk)
            ≡ last_line loads [] (received ++ chunk))
  more_lines received chunk =
      let line = last_line loads [] received in
      let (blank, whole) = no_line loads [] line (last_line_whole loads [] received refl) in
      (
        ap (λ ls. lines_from loads [] received ++ ls)
              (lines_from-append loads [] line chunk
                ∙ ap₂ (λ ls x. ls ++ lines_from loads x chunk) blank whole)
            ∙ sym (lines_from-append loads [] received chunk),
        last_line-append loads [] line chunk
            ∙ ap (λ x. last_line loads x chunk) whole
            ∙ sym (last_line-append loads [] received chunk),
      )

  -- what `_service_client` puts into the buffer
  abbrev buffered : Bytes → Conn → Conn
  buffered chunk c =
      with_client
        (λ x. record x {
          sock = record x.sock { received = x.sock.received ++ chunk };
          inbuf = x.inbuf ++ chunk;
        })
        c

  served_lines :
      (n : ℕ) (chunk : Bytes) (c : Conn)
      → InOrder c
      → IsOrdered (serve_lines l loads dumps n [] (c.client.inbuf ++ chunk) (buffered chunk c))
  served_lines n chunk c o =
      let f = o.fifo in
      let (lines, rest) = more_lines o.received chunk in
      let c' : Fifo dumps l loads (buffered chunk c) (lines_from loads [] o.received)
          (o.received ++ chunk) (c.client.inbuf ++ chunk) =
        record {
          is_open = f.is_open;
          responses = f.responses;
          answered = f.answered;
          in_progress = f.in_progress;
          answers = f.answers;
          written = f.written;
          stage = f.stage;
          order = f.order;
          socket = ap (λ t. t ++ chunk) f.socket;
          buffer = refl;
        } in
      elim (serve_lines-Settled l loads dumps n [] (c.client.inbuf ++ chunk) (buffered chunk c)
        (lines_from loads [] o.received) (o.received ++ chunk) (c.client.inbuf ++ chunk) c') [
          | inl shut ↦ inl shut
          | inr f' ↦ inr (record {
            received = o.received ++ chunk;
            fifo =
                subst
                  (λ (p : List (Option Value) × Bytes).
                    Fifo dumps l loads
                      (serve_lines l loads dumps n [] (c.client.inbuf ++ chunk) (buffered chunk c))
                      p.0 (o.received ++ chunk) p.1)
                  (ap₂ (λ x y. (x, y))
                    (ap (λ x. lines_from loads [] o.received ++ lines_from loads [] (x ++ chunk))
                        f.buffer
                      ∙ lines)
                    (ap (λ x. last_line loads [] (x ++ chunk)) f.buffer ∙ rest))
                  f';
          })
        ]

  module _ (next_event : Value → Result (Option Value)) (timeout : Option Value → Option ℕ)
      (now : ℕ) where
    pub dispatch_pending-Ordered :
        (received : Bytes) (c : Conn)
        → Fifo dumps l loads c (lines_from loads [] received) received (last_line loads [] received)
        → Ensures IsOrdered (dispatch_pending l loads dumps next_event timeout now c)
    dispatch_pending-Ordered received c f =
        Ensures-map
          (dispatch-Fifo l loads dumps (lines_from loads [] received) received
            (last_line loads [] received) next_event timeout now c.client.pending_requests c refl f)
          (λ d f'. inr (record { received = received; fifo = f' }))

    pub service_read-Ordered :
        (n : ℕ) (chunk : Bytes) (c : Conn)
        → InOrder c
        → Ensures IsOrdered (service_read l loads dumps next_event timeout now n chunk c)
    unfolding service_read
    service_read-Ordered n chunk c o =
        let served = serve_lines l loads dumps n [] (c.client.inbuf ++ chunk) (buffered chunk c) in
        if-both (Ensures IsOrdered)
          (not (has_newline (c.client.inbuf ++ chunk))
            && ltb l.max_request_bytes (length (c.client.inbuf ++ chunk)))
          _ _ (λ long. Ensures-ok IsOrdered (inl (send_closed l loads dumps n (buffered chunk c))))
          (λ fits.
            if-both (Ensures IsOrdered) served.client.closed _ _
              (λ shut. Ensures-ok IsOrdered (inl shut))
              (λ still. elim (served_lines n chunk c o) [
                | inl shut ↦ (let never : true ≡ false = sym shut ∙ still in cc)
                | inr o' ↦ dispatch_pending-Ordered o'.received served o'.fifo
              ]))
