-- ===== src/Rpc/Fifo/Reading.antt =====
-- src/sensorium/runtime/rpc.py: the lines that are read, and the order of the answers.
use sensorium.Base.{
  ℕ, suc, ◌≡◌, refl, sym, ap, subst, ◌∙◌, true, false, List, [], ◌∷◌, ◌++◌, Option, none, some,
  Bytes, append_assoc, append-nil, Bool-cases, Option-cases, inl, inr, if-both, ◌==◌, ltb, leb,
  length,
}
use sensorium.Normalize.Values.{Value, null}
use sensorium.Rpc.{Response, error_response, Conn, Limits, close_client, is_blank, newline}
use sensorium.Rpc.Serve.{
  frame, queue_response, send_error_and_close, append_request, serve_line, serve_lines,
}
use sensorium.Rpc.Lines.{read_line, lines_from, last_line}
use sensorium.Rpc.Fifo.{unreadable, somes, nones, Fifo, Settled}
use sensorium.Rpc.Fifo.Moves.{queued, frames-concat}

nones-unreadable : (seen : List (Option Value)) → nones (seen ++ none ∷ []) ≡ suc (nones seen)
nones-unreadable [] = refl
nones-unreadable (none ∷ seen) = ap suc (nones-unreadable seen)
nones-unreadable (some q ∷ seen) = nones-unreadable seen

nones-request : (seen : List (Option Value)) (q : Value) → nones (seen ++ some q ∷ []) ≡ nones seen
nones-request [] q = refl
nones-request (none ∷ seen) q = ap suc (nones-request seen q)
nones-request (some p ∷ seen) q = nones-request seen q

somes-unreadable : (seen : List (Option Value)) → somes (seen ++ none ∷ []) ≡ somes seen
somes-unreadable [] = refl
somes-unreadable (none ∷ seen) = somes-unreadable seen
somes-unreadable (some q ∷ seen) = ap (λ qs. q ∷ qs) (somes-unreadable seen)

somes-request :
    (seen : List (Option Value)) (q : Value) → somes (seen ++ some q ∷ []) ≡ somes seen ++ q ∷ []
somes-request [] q = refl
somes-request (none ∷ seen) q = somes-request seen q
somes-request (some p ∷ seen) q = ap (λ qs. p ∷ qs) (somes-request seen q)

pub close_client-closed : (c : Conn) → (close_client c).client.closed ≡ true
unfolding close_client
close_client-closed c = elim (Bool-cases c.client.closed) [ inl e ↦ rw e refl | inr e ↦ rw e refl ]

module _ (l : Limits) (loads : Bytes → Option Value) (dumps : Response → Bytes) where
  pub send_closed :
      (n : ℕ) (c : Conn) → (send_error_and_close l loads dumps n c).client.closed ≡ true
  unfolding send_error_and_close
  send_closed n c = elim (Bool-cases c.client.closed) [
    | inl e ↦ rw e refl
    | inr e ↦ rw e (close_client-closed _)
  ]

  abbrev After : Conn → List (Option Value) → Bytes → Bytes → Type 0
  After c seen received inbuf = Settled dumps l loads c seen received inbuf

  module _ (received inbuf : Bytes) where
    refused_line :
        (c : Conn) (seen : List (Option Value))
        → Fifo dumps l loads c seen received inbuf
        → Fifo dumps l loads
            (queue_response l loads dumps (error_response null) c)
            (seen ++ none ∷ [])
            received
            inbuf
    refused_line c seen f =
        subst (λ d. Fifo dumps l loads d (seen ++ none ∷ []) received inbuf)
          (sym (queued l loads dumps (error_response null) c f.is_open))
          (record {
            is_open = f.is_open;
            responses = f.responses ++ error_response null ∷ [];
            answered = f.answered;
            in_progress = f.in_progress;
            answers = rw (nones-unreadable seen) (unreadable f.answers);
            written =
                sym (
                  append_assoc c.client.sock.sent c.client.outbuf
                    (frame l loads dumps (error_response null)))
                ∙ ap (λ t. t ++ frame l loads dumps (error_response null)) f.written
                ∙ sym (frames-concat l loads dumps f.responses (error_response null));
            stage = f.stage;
            order = somes-unreadable seen ∙ f.order;
            socket = f.socket;
            buffer = f.buffer;
          })

    appended :
        (n : ℕ) (q : Value) (c : Conn) (seen : List (Option Value))
        → Fifo dumps l loads c seen received inbuf
        → After (append_request l loads dumps n q c) (seen ++ some q ∷ []) received inbuf
    appended n q c seen f =
        elim (Bool-cases (leb l.max_pending (length c.client.pending_requests))) [
          | inl e ↦ rw e (inl (send_closed n c))
          | inr e ↦ rw e (
              inr (record {
                is_open = f.is_open;
                responses = f.responses;
                answered = f.answered;
                in_progress = f.in_progress;
                answers = rw (nones-request seen q) f.answers;
                written = f.written;
                stage = f.stage;
                order =
                    somes-request seen q
                    ∙ ap (λ qs. qs ++ q ∷ []) f.order
                    ∙ append_assoc f.answered (f.in_progress ++ c.client.pending_requests) (q ∷ [])
                    ∙ ap (λ qs. f.answered ++ qs)
                        (append_assoc f.in_progress c.client.pending_requests (q ∷ []));
                socket = f.socket;
                buffer = f.buffer;
              }))
        ]

    serve_line-Settled :
        (n : ℕ) (line : Bytes) (c : Conn) (seen : List (Option Value))
        → Fifo dumps l loads c seen received inbuf
        → After (serve_line l loads dumps n line c) (seen ++ read_line loads line) received inbuf
    unfolding serve_line
    serve_line-Settled n line c seen f = elim (Bool-cases (is_blank line)) [
      | inl e ↦ rw (e, append-nil seen) (inr f)
      | inr e ↦ rw e (elim (Bool-cases (ltb l.max_request_bytes (length line))) [
        | inl long ↦ rw long (inl (send_closed n c))
        | inr short ↦ rw short (elim (Option-cases (loads line)) [
          | inl r ↦ rw r (inr (refused_line c seen f))
          | inr (q, r) ↦ rw r (appended n q c seen f)
        ])
      ])
    ]

  pub serve_lines-Settled :
      (n : ℕ) (line bs : Bytes) (c : Conn) (seen : List (Option Value)) (received inbuf : Bytes)
      → Fifo dumps l loads c seen received inbuf
      → After
          (serve_lines l loads dumps n line bs c)
          (seen ++ lines_from loads line bs)
          received
          (last_line loads line bs)
  unfolding serve_lines
  serve_lines-Settled n line [] c seen received inbuf f = rw (append-nil seen) (
      inr (record {
        is_open = f.is_open;
        responses = f.responses;
        answered = f.answered;
        in_progress = f.in_progress;
        answers = f.answers;
        written = f.written;
        stage = f.stage;
        order = f.order;
        socket = f.socket;
        buffer = refl;
      }))
  serve_lines-Settled n line (b ∷ bs) c seen received inbuf f = elim (Bool-cases (b == newline)) [
    | inr e ↦ rw e (
        if-both
          (λ d.
            After d (seen ++ lines_from loads (line ++ b ∷ []) bs) received
              (last_line loads (line ++ b ∷ []) bs))
          c.client.closed _ _ (λ shut. inl shut)
          (λ still. serve_lines-Settled n (line ++ b ∷ []) bs c seen received inbuf f))
    | inl e ↦ rw e (
        if-both
          (λ d.
            After d (seen ++ (read_line loads line ++ lines_from loads [] bs)) received
              (last_line loads [] bs))
          (serve_line l loads dumps n line c).client.closed _ _ (λ shut. inl shut)
          (λ still. elim (serve_line-Settled received inbuf n line c seen f) [
            | inl shut ↦ (let never : true ≡ false = sym shut ∙ still in cc)
            | inr f' ↦ rw⁻¹ (append_assoc seen (read_line loads line) (lines_from loads [] bs)) (
                serve_lines-Settled n [] bs (serve_line l loads dumps n line c)
                  (seen ++ read_line loads line) received inbuf f')
          ]))
  ]
