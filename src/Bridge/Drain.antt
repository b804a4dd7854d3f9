-- ===== src/Bridge/Drain.antt =====
-- src/sensorium/runtime/bridge_protocol.py: the requests that `_drain_transport_ring` takes.
use sensorium.Base.{
  ℕ, zero, suc, ◌+◌, ◌%◌, ◌*◌, ◌^◌, ◌≤◌, ◌<◌, ◌≡◌, refl, ap, ◌∙◌, true, false, arith, ◌==◌, List,
  [], ◌∷◌, ◌++◌, append-nil, append_assoc,
}
use sensorium.Base.Result.{Result, ok}
use sensorium.Bridge.Shared.{
  peek, word, set_word, peek-set_word, word-set_word_self, word-set_word_ne,
}
use sensorium.Bridge.Protocol.{desc_size}
use sensorium.Bridge.{
  Desc, unpack_desc, Frame, Bridge, slot_offset, drain_one, drain_transport_ring,
  transport_ring_head_word, transport_ring_tail_word, transport_payload_head_word,
}

-- the descriptor, and the request, that the kernel published at a counter
abbrev pub desc_at : Bridge → ℕ → Desc
desc_at b c =
    unpack_desc
      (peek b.mm (slot_offset b.transport_ring_offset b.transport_ring_entries c) desc_size)

abbrev pub frame_at : Bridge → ℕ → Frame
frame_at b c =
    let d = desc_at b c in
    record {
      opcode = d.opcode;
      request_id = d.request_id;
      generation = d.generation;
      payload =
          peek b.mm (b.transport_payload_offset + d.payload_offset % b.transport_payload_size)
            d.payload_len;
    }

abbrev pub frames : Bridge → ℕ → ℕ → List Frame
frames b c zero = []
frames b c (suc n) = frame_at b c ∷ frames b (c + 1) n

abbrev pub head_of : Bridge → ℕ
head_of b = word b.mm transport_ring_head_word

abbrev pub tail_of : Bridge → ℕ
tail_of b = word b.mm transport_ring_tail_word

pub record IsLaidOut (b : Bridge) : Type 0 where
  pub slots_behind_words : 39 * 4 ≤ b.transport_ring_offset
  pub zone_behind_words : 39 * 4 ≤ b.transport_payload_offset

-- `n` requests from counter `c` on carry the session of the bridge
abbrev pub OfSession : Bridge → ℕ → ℕ → Type 0
OfSession b c zero = Unit
OfSession b c (suc n) = ((desc_at b c).session_id ≡ b.session_id) × OfSession b (c + 1) n

-- the bridge after one round
abbrev moved : Bridge → Bridge
moved b = record b {
  mm =
      set_word (set_word b.mm transport_ring_head_word (head_of b + 1)) transport_payload_head_word
        ((desc_at b (head_of b)).payload_offset + (desc_at b (head_of b)).payload_len);
  pending_transport = b.pending_transport ++ frame_at b (head_of b) ∷ [];
}

drain_one_lem :
    (b : Bridge)
    → (desc_at b (head_of b)).session_id ≡ b.session_id
    → drain_one b ≡ (ok (frame_at b (head_of b)), moved b)
unfolding drain_one
drain_one_lem b h =
    let same : ((desc_at b (head_of b)).session_id == b.session_id) ≡ true = ground arith in rw same

peek-moved : (b : Bridge) (o n : ℕ) → 39 * 4 ≤ o → peek (moved b).mm o n ≡ peek b.mm o n
peek-moved b o n h =
    peek-set_word (set_word b.mm transport_ring_head_word (head_of b + 1))
      transport_payload_head_word _ o n (omega arith)
    ∙ peek-set_word b.mm transport_ring_head_word (head_of b + 1) o n (omega arith)

desc_at-moved : (b : Bridge) (c : ℕ) → IsLaidOut b → desc_at (moved b) c ≡ desc_at b c
desc_at-moved b c l = ap unpack_desc (
    peek-moved b (slot_offset b.transport_ring_offset b.transport_ring_entries c) desc_size
      (omega (arith, l.slots_behind_words)))

frame_at-moved : (b : Bridge) (c : ℕ) → IsLaidOut b → frame_at (moved b) c ≡ frame_at b c
frame_at-moved b c l =
    let payload =
      peek-moved b
        (b.transport_payload_offset + (desc_at b c).payload_offset % b.transport_payload_size)
        (desc_at b c).payload_len (omega (arith, l.zone_behind_words)) in
    rw (desc_at-moved b c l, payload)

frames-moved : (b : Bridge) (c n : ℕ) → IsLaidOut b → frames (moved b) c n ≡ frames b c n
frames-moved b c zero l = refl
frames-moved b c (suc n) l = cc (frame_at-moved b c l, frames-moved b (c + 1) n l)

OfSession-moved : (b : Bridge) (c n : ℕ) → IsLaidOut b → OfSession b c n → OfSession (moved b) c n
OfSession-moved b c zero l h = tt
OfSession-moved b c (suc n) l h =
    (ap (λ (d : Desc). d.session_id) (desc_at-moved b c l) ∙ h.0, OfSession-moved b (c + 1) n l h.1)

head-moved : (b : Bridge) → head_of b + 1 < 2 ^ 32 → head_of (moved b) ≡ head_of b + 1
head-moved b h =
    word-set_word_ne (set_word b.mm transport_ring_head_word (head_of b + 1))
      transport_payload_head_word _ transport_ring_head_word (omega arith)
    ∙ word-set_word_self b.mm transport_ring_head_word (head_of b + 1)
    ∙ omega arith

tail-moved : (b : Bridge) → tail_of (moved b) ≡ tail_of b
tail-moved b =
    word-set_word_ne (set_word b.mm transport_ring_head_word (head_of b + 1))
      transport_payload_head_word _ transport_ring_tail_word (omega arith)
    ∙ word-set_word_ne b.mm transport_ring_head_word (head_of b + 1) transport_ring_tail_word
        (omega arith)

drain_drained :
    (fuel : ℕ) (b : Bridge) → head_of b ≡ tail_of b → drain_transport_ring fuel b ≡ (ok tt, b)
unfolding drain_transport_ring
drain_drained zero b h = refl
drain_drained (suc fuel) b h =
    let test : (head_of b == tail_of b) ≡ true = ground arith in rw (test, drain_transport_ring)

drain_round :
    (fuel : ℕ) (b : Bridge)
    → head_of b < tail_of b
    → (desc_at b (head_of b)).session_id ≡ b.session_id
    → drain_transport_ring (suc fuel) b ≡ drain_transport_ring fuel (moved b)
unfolding drain_transport_ring
drain_round fuel b h same =
    let test : (head_of b == tail_of b) ≡ false = ground arith in
    let step = drain_one_lem b same in
    rw (test, drain_transport_ring, step)
      (ap (λ (r : Result Frame × Bridge). drain_transport_ring fuel r.1) step)

-- With `n` requests between the head and the tail, all of this session, and fuel for as many rounds,
-- the ring is drained: no round raises, the requests are queued in the order in which they were
-- published, and the head has reached the tail.
pub drain_lem :
    (n fuel : ℕ) (b : Bridge)
    → IsLaidOut b
    → head_of b + n ≡ tail_of b
    → tail_of b < 2 ^ 32
    → OfSession b (head_of b) n
    → n ≤ fuel
    → let (out, b') = drain_transport_ring fuel b in
      (out ≡ ok tt)
      × (b'.pending_transport ≡ b.pending_transport ++ frames b (head_of b) n)
      × (head_of b' ≡ tail_of b)
drain_lem zero fuel b l e small same enough =
    let at_tail : head_of b ≡ tail_of b = omega arith in
    rw (drain_drained fuel b at_tail, append-nil) (refl, refl, at_tail)
drain_lem (suc n) zero b l e small same enough = absurd (omega arith)
drain_lem (suc n) (suc fuel) b l e small same enough =
    let l' : IsLaidOut (moved b) = record {
      slots_behind_words = l.slots_behind_words;
      zone_behind_words = l.zone_behind_words;
    } in
    let head = head-moved b (omega arith) in
    let tail = tail-moved b in
    let (out, queued, drained) =
      drain_lem n fuel (moved b) l' (omega arith) (omega arith)
        (rw head (OfSession-moved b (head_of b + 1) n l same.1)) (omega arith) in
    let rest = ap (λ c. frames (moved b) c n) head ∙ frames-moved b (head_of b + 1) n l in
    rw (drain_round fuel b (omega arith) same.0) (
      out,
      queued
          ∙ ap (λ fs. (b.pending_transport ++ frame_at b (head_of b) ∷ []) ++ fs) rest
          ∙ append_assoc b.pending_transport (frame_at b (head_of b) ∷ [])
              (frames b (head_of b + 1) n),
      drained ∙ tail,
    )
