-- ===== src/WorkerProtocol/Framing.antt =====
-- src/sensorium/runtime/worker_protocol.py: a message behind the chunks of its stream.
use sensorium.Base.{
  ℕ, zero, suc, ◌-◌, ◌≤◌, ◌<◌, ◌^◌, ◌≡◌, refl, ap, ◌∙◌, sym, inl, inr, List, [], ◌∷◌, ◌++◌,
  append-nil, append_assoc, Option, some, arith, ltb, leb, leb→le, true, false, Bool-cases, Bytes,
  length, take, drop, length-append, length-drop, take-append_length, drop-append_length, le, to_le,
  length-to_le, le-to_le_4,
}
use sensorium.Base.Result.{ok}
use sensorium.WorkerProtocol.{
  message_limit, recv_more, recv_exact, recv_body, recv_worker_message, send_worker_message,
}

abbrev pub join : List Bytes → Bytes
join [] = []
join (c ∷ cs) = c ++ join cs

-- no chunk is empty: `recv` returns an empty one at the end of the stream only
abbrev pub IsStream : List Bytes → Type 0
IsStream [] = Unit
IsStream (c ∷ cs) = (0 < length c) × IsStream cs

take-append_le {ℓ} :
    {A : Type ℓ} (n : ℕ) (xs ys : List A) → n ≤ length xs → take n (xs ++ ys) ≡ take n xs
take-append_le zero xs ys h = refl
take-append_le (suc n) [] ys h = absurd (omega arith)
take-append_le (suc n) (x ∷ xs) ys h = ap (λ t. x ∷ t) (take-append_le n xs ys (omega arith))

drop-append_le {ℓ} :
    {A : Type ℓ} (n : ℕ) (xs ys : List A) → n ≤ length xs → drop n (xs ++ ys) ≡ drop n xs ++ ys
drop-append_le zero xs ys h = refl
drop-append_le (suc n) [] ys h = absurd (omega arith)
drop-append_le (suc n) (x ∷ xs) ys h = drop-append_le n xs ys (omega arith)

take-append_ge {ℓ} :
    {A : Type ℓ} (n : ℕ) (xs ys : List A)
    → length xs ≤ n
    → take n (xs ++ ys) ≡ xs ++ take (n - length xs) ys
take-append_ge n [] ys h = let e : n - 0 ≡ n = omega arith in rw e
take-append_ge zero (x ∷ xs) ys h = absurd (omega arith)
take-append_ge (suc n) (x ∷ xs) ys h =
    let e : suc n - suc (length xs) ≡ n - length xs = omega arith in
    rw e (ap (λ t. x ∷ t) (take-append_ge n xs ys (omega arith)))

drop-append_ge {ℓ} :
    {A : Type ℓ} (n : ℕ) (xs ys : List A)
    → length xs ≤ n
    → drop n (xs ++ ys) ≡ drop (n - length xs) ys
drop-append_ge n [] ys h = let e : n - 0 ≡ n = omega arith in rw e
drop-append_ge zero (x ∷ xs) ys h = absurd (omega arith)
drop-append_ge (suc n) (x ∷ xs) ys h =
    let e : suc n - suc (length xs) ≡ n - length xs = omega arith in
    rw e (drop-append_ge n xs ys (omega arith))

-- a chunk that is needed whole, and one that has more than what is missing
recv_whole :
    (n : ℕ) (got c : Bytes) (cs : List Bytes)
    → 0 < length c
    → leb (length c) (suc n) ≡ true
    → recv_more (suc n) got (c ∷ cs) ≡ recv_more (suc n - length c) (got ++ c) cs
unfolding recv_more
recv_whole n got c cs h e = ground arith

recv_part :
    (n : ℕ) (got c : Bytes) (cs : List Bytes)
    → 0 < length c
    → leb (length c) (suc n) ≡ false
    → recv_more (suc n) got (c ∷ cs) ≡ ok (some (got ++ take (suc n) c), drop (suc n) c ∷ cs)
unfolding recv_more
recv_part n got c cs h e = ground arith

-- the loop gets the bytes that are missing, and leaves those behind them
recv_more_lem :
    (missing : ℕ) (got : Bytes) (chunks : List Bytes)
    → IsStream chunks
    → missing ≤ length (join chunks)
    → (rest : List Bytes) × (recv_more missing got chunks
        ≡ ok (some (got ++ take missing (join chunks)), rest))
      × (join rest ≡ drop missing (join chunks))
      × IsStream rest
recv_more_lem zero got [] st h = ([], unfold recv_more in (rw append-nil), refl, tt)
recv_more_lem (suc n) got [] st h = absurd (omega arith)
recv_more_lem zero got (c ∷ cs) st h = (c ∷ cs, unfold recv_more in (rw append-nil), refl, st)
recv_more_lem (suc n) got (c ∷ cs) st h = elim (Bool-cases (leb (length c) (suc n))) [
  | inl e ↦
      let whole = leb→le (length c) (suc n) e in
      let (rest, got_all, left, st') =
        recv_more_lem (suc n - length c) (got ++ c) cs st.1
          (omega (arith, length-append c (join cs))) in
      (
        rest,
        recv_whole n got c cs st.0 e
            ∙ got_all
            ∙ ap (λ (bs : Bytes). ok (some bs, rest))
                (append_assoc got c (take (suc n - length c) (join cs))
                  ∙ ap (λ (t : Bytes). got ++ t) (sym (take-append_ge (suc n) c (join cs) whole))),
        left ∙ sym (drop-append_ge (suc n) c (join cs) whole),
        st',
      )
  | inr e ↦
      let part : suc n ≤ length c = ground arith in
      (
        drop (suc n) c ∷ cs,
        recv_part n got c cs st.0 e
            ∙ ap (λ (t : Bytes). ok (some (got ++ t), drop (suc n) c ∷ cs))
                (sym (take-append_le (suc n) c (join cs) part)),
        sym (drop-append_le (suc n) c (join cs) part),
        (ground (arith, length-drop (suc n) c), st.1),
      )
]

-- as many bytes as `front` has are `front`, where the stream begins with it
recv_exact-append :
    (n : ℕ) (front rest : Bytes) (chunks : List Bytes)
    → n ≡ length front
    → IsStream chunks
    → join chunks ≡ front ++ rest
    → (left : List Bytes) × (recv_exact n chunks ≡ ok (some front, left))
      × (join left ≡ rest)
      × IsStream left
unfolding recv_exact
recv_exact-append n front rest chunks en st e =
    let enough : length front ≤ length (join chunks) =
      rw e (omega (arith, length-append front rest)) in
    let (left, got, after, st') = recv_more_lem (length front) [] chunks st enough in
    (
      left,
      ap (λ k. recv_more k [] chunks) en
          ∙ got
          ∙ ap (λ (bs : Bytes). ok (some bs, left))
              (ap (take (length front)) e ∙ take-append_length front rest),
      after ∙ ap (drop (length front)) e ∙ drop-append_length front rest,
      st',
    )

recv_body_lem :
    {J : Type 0} (loads : Bytes → Option J) (n : ℕ) (mid : List Bytes) (payload : Bytes)
    (left : List Bytes) (message : J)
    → 0 < n
    → n < 2 ^ 32
    → ltb message_limit n ≡ false
    → recv_exact n mid ≡ ok (some payload, left)
    → loads payload ≡ some message
    → recv_body loads (some (to_le 4 n)) mid ≡ ok (some message, left)
unfolding recv_body
recv_body_lem loads n mid payload left message h small fits got parses =
    let len : le 4 (to_le 4 n) ≡ n = rw append-nil at (le-to_le_4 n [] small) in
    let positive : leb n 0 ≡ false = ground arith in rw (len, positive, fits, got, parses)

-- Whatever the sizes of the chunks in which the bytes of a sent message arrive, and whatever
-- follows it on the stream, the message is received and exactly the rest of the stream is left. It is
-- assumed that `loads` reads what `dumps` wrote, and that no message has an empty text.
pub recv-send :
    {J : Type 0} (dumps : J → Bytes) (loads : Bytes → Option J) (message : J)
    → loads (dumps message) ≡ some message
    → 0 < length (dumps message)
    → (frame rest : Bytes) (chunks : List Bytes) → send_worker_message dumps message ≡ ok frame
    → IsStream chunks
    → join chunks ≡ frame ++ rest
    → (left : List Bytes) × (recv_worker_message loads chunks ≡ ok (some message, left))
      × (join left ≡ rest)
      × IsStream left
unfolding recv_worker_message send_worker_message
recv-send dumps loads message parses nonempty frame rest chunks sent st e =
    elim (Bool-cases (ltb message_limit (length (dumps message)))) [
      | inl big ↦ absurd (ground arith)
      | inr fits ↦
          let n = length (dumps message) in
          let small : n < 2 ^ 32 = ground arith in
          let framed : frame ≡ to_le 4 n ++ dumps message = ground arith in
          let (mid, header, after, st') =
            recv_exact-append 4 (to_le 4 n) (dumps message ++ rest) chunks (sym (length-to_le 4 n))
              st
              (e
                ∙ ap (λ (f : Bytes). f ++ rest) framed
                ∙ append_assoc (to_le 4 n) (dumps message) rest) in
          let (left, got, after', st'') =
            recv_exact-append n (dumps message) rest mid refl st' after in
          (
            left,
            rw header (
                recv_body_lem loads n mid (dumps message) left message nonempty small fits got
                  parses),
            after',
            st'',
          )
    ]
