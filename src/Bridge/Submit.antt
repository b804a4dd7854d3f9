-- ===== src/Bridge/Submit.antt =====
-- src/sensorium/runtime/bridge_protocol.py: what the kernel reads of a submission.
use native.Mathlib.Decide.{dec_lt}
use sensorium.Base.{
  ℕ, ◌+◌, ◌-◌, ◌%◌, ◌*◌, ◌^◌, ◌≤◌, ◌<◌, ◌≡◌, ◌≢◌, refl, ap, ◌∙◌, true, ◌⊎◌, inl, inr, arith, leb,
  length, le, to_le, Bool-cases, mod-add-ne, mod-add_cases,
}
use sensorium.Base.Result.{Error, Result, ok, raise, Result-cases}
use sensorium.Bridge.Shared.{
  Memory, peek, poke, word, set_word, peek-poke_ne, peek-poke_empty, peek-poke_self,
  word-set_word_self, word-set_word_ne, word-poke_ne, peek-set_word,
}
use sensorium.Bridge.Protocol.{desc_size, validate_command_payload}
use sensorium.Bridge.{
  Desc, desc_fits, pack_desc, unpack_desc, Ring, Entry, desc_of, slot_offset, reserve_payload,
  publish, publish_reserved, submit_entry, Kind, ring_of, Bridge, submit_ring_entry,
}
use sensorium.Bridge.Reserve.{reserve_payload_lem, reserve_past_u32}

-- A descriptor that fits is read as it was written.
pub unpack-pack_desc : (d : Desc) → desc_fits d ≡ true → unpack_desc (pack_desc d) ≡ d
unfolding unpack_desc pack_desc le to_le
unpack-pack_desc d h = ground arith

length-pack_desc : (d : Desc) → length (pack_desc d) ≡ desc_size
unfolding pack_desc to_le
length-pack_desc d = refl

-- Where the parts of a ring lie: the words in the control page of 39 words, four different ones, then
-- the slots, then the payload zone.
pub record IsLaidOut (r : Ring) : Type 0 where
  pub some_entries : 0 < r.entries
  pub some_payload : 0 < r.payload_size
  pub words : (r.head < 39) × (r.tail < 39) × (r.payload_head < 39) × (r.payload_tail < 39)
  pub head_ne_tail : r.head ≢ r.tail
  pub head_ne_payload_tail : r.head ≢ r.payload_tail
  pub tail_ne_payload_tail : r.tail ≢ r.payload_tail
  pub slots_behind_words : 39 * 4 ≤ r.ring_offset
  pub zone_behind_slots : r.ring_offset + r.entries * desc_size ≤ r.payload_base

slot_in :
    (counter entries : ℕ)
    → 0 < entries
    → counter % entries * desc_size + desc_size ≤ entries * desc_size
slot_in c n h = let below : c % n < n = omega arith in omega (arith, below)

slots_apart :
    (c k entries : ℕ)
    → 0 < k
    → k < entries
    → let i = c % entries * desc_size in
      let j = (c + k) % entries * desc_size in (i + desc_size ≤ j) ⊎ (j + desc_size ≤ i)
slots_apart c k n hk kn = omega (arith, mod-add-ne c k n hk kn)

-- two stretches of a zone, the second of which starts behind the first and ends within a zone of its start
places_apart :
    (a l start n zone : ℕ)
    → a + l ≤ start
    → start + n ≤ a + zone
    → 0 < n
    → (a % zone + l ≤ start % zone) ⊎ (start % zone + n ≤ a % zone)
places_apart a l start n zone before within hn =
    let e : a + (start - a) ≡ start = omega arith in
    omega (arith, ap (λ t. t % zone) e, mod-add_cases a (start - a) zone (omega arith))

abbrev pub slot : Ring → ℕ → ℕ
slot r counter = slot_offset r.ring_offset r.entries counter

abbrev pub place : Ring → ℕ → ℕ
place r absolute = r.payload_base + absolute % r.payload_size

-- `mm'` is `mm` with the entry published at `offset`.
pub record Published (session : ℕ) (r : Ring) (e : Entry) (mm : Memory) (offset : ℕ) (mm' : Memory)
    : Type 0 where
  -- what the reader finds at the tail
  pub descriptor :
      unpack_desc (peek mm' (slot r (word mm r.tail)) desc_size) ≡ desc_of session r e offset
  pub payload : peek mm' (place r offset) (length e.payload) ≡ e.payload
  -- the counters
  pub tail : word mm' r.tail ≡ (word mm r.tail + 1) % 2 ^ 32
  pub payload_tail : word mm' r.payload_tail ≡ (offset + length e.payload) % 2 ^ 32
  pub head : word mm' r.head ≡ word mm r.head
  -- the slots and payloads that are not read yet
  pub unread_slot :
      (c : ℕ)
      → word mm r.head ≤ c
      → c < word mm r.tail
      → peek mm' (slot r c) desc_size ≡ peek mm (slot r c) desc_size
  pub unread_payload :
      (a l : ℕ)
      → word mm r.payload_head ≤ a
      → a + l ≤ word mm r.payload_tail
      → a % r.payload_size + l ≤ r.payload_size
      → peek mm' (place r a) l ≡ peek mm (place r a) l

module _ (session : ℕ) (r : Ring) (e : Entry) (mm : Memory) (offset : ℕ) (l : IsLaidOut r) where
  abbrev d : Desc
  d = desc_of session r e offset

  abbrev at : ℕ
  at = slot r (word mm r.tail)

  abbrev m1 : Memory
  m1 = poke mm (place r offset) e.payload

  abbrev m2 : Memory
  m2 = poke m1 at (pack_desc d)

  abbrev m3 : Memory
  m3 = set_word m2 r.payload_tail (offset + length e.payload)

  abbrev m4 : Memory
  m4 = set_word m3 r.tail (word mm r.tail + 1)

  slot_bounds : (c : ℕ) → (39 * 4 ≤ slot r c) × (slot r c + desc_size ≤ r.payload_base)
  slot_bounds c =
      omega (arith, slot_in c r.entries l.some_entries, l.slots_behind_words, l.zone_behind_slots)

  -- behind the control page the two writes of the tails are not seen
  past_words : (o n : ℕ) → 39 * 4 ≤ o → peek m4 o n ≡ peek m2 o n
  past_words o n h =
      peek-set_word m3 r.tail (word mm r.tail + 1) o n (omega arith)
      ∙ peek-set_word m2 r.payload_tail (offset + length e.payload) o n (omega arith)

  -- a word that is neither of the two tails
  other_word : (i : ℕ) → i < 39 → i ≢ r.tail → i ≢ r.payload_tail → word m4 i ≡ word mm i
  other_word i h nt np =
      let b = slot_bounds (word mm r.tail) in
      word-set_word_ne m3 r.tail (word mm r.tail + 1) i (omega arith)
      ∙ word-set_word_ne m2 r.payload_tail (offset + length e.payload) i (omega arith)
      ∙ word-poke_ne m1 at (pack_desc d) i (omega arith)
      ∙ word-poke_ne mm (place r offset) e.payload i (omega arith)

  read_descriptor : desc_fits d ≡ true → unpack_desc (peek m4 at desc_size) ≡ d
  read_descriptor fits =
      ap unpack_desc (
        past_words at desc_size (slot_bounds (word mm r.tail)).0
        ∙ rw (length-pack_desc d) at (peek-poke_self m1 at (pack_desc d)))
      ∙ unpack-pack_desc d fits

  read_payload : peek m4 (place r offset) (length e.payload) ≡ e.payload
  read_payload =
      let b = slot_bounds (word mm r.tail) in
      let dl = length-pack_desc d in
      past_words (place r offset) (length e.payload) (omega arith)
      ∙ peek-poke_ne m1 at (pack_desc d) (place r offset) (length e.payload) (omega arith)
      ∙ peek-poke_self mm (place r offset) e.payload

  module _ (tail_room : word mm r.tail < word mm r.head + r.entries) where
    keeps_slot :
        (c : ℕ)
        → word mm r.head ≤ c
        → c < word mm r.tail
        → peek m4 (slot r c) desc_size ≡ peek mm (slot r c) desc_size
    keeps_slot c hc ct =
        let b = slot_bounds c in
        let dl = length-pack_desc d in
        let k = word mm r.tail - c in
        let back : c + k ≡ word mm r.tail = omega arith in
        let apart = rw back at (slots_apart c k r.entries (omega arith) (omega arith)) in
        past_words (slot r c) desc_size b.0
        ∙ peek-poke_ne m1 at (pack_desc d) (slot r c) desc_size (omega arith)
        ∙ peek-poke_ne mm (place r offset) e.payload (slot r c) desc_size (omega arith)

  -- what `_reserve_payload` promises, for a payload that is not empty
  abbrev IsReserved : Type 0
  IsReserved =
      0 < length e.payload
      → (word mm r.payload_tail ≤ offset)
        × (offset % r.payload_size + length e.payload ≤ r.payload_size)
        × (offset + length e.payload ≤ word mm r.payload_head + r.payload_size)

  module _ (reserved : IsReserved) where
    beside_payload :
        (a n : ℕ)
        → word mm r.payload_head ≤ a
        → a + n ≤ word mm r.payload_tail
        → a % r.payload_size + n ≤ r.payload_size
        → peek m1 (place r a) n ≡ peek mm (place r a) n
    beside_payload a n ha hn whole = elim (dec_lt 0 (length e.payload)) [
      | no empty ↦ peek-poke_empty mm (place r offset) e.payload (place r a) n (omega arith)
      | yes some ↦
          let room = reserved some in
          let apart =
            places_apart a n offset (length e.payload) r.payload_size (omega arith) (omega arith)
              some in
          peek-poke_ne mm (place r offset) e.payload (place r a) n (omega arith)
    ]

    keeps_payload :
        (a n : ℕ)
        → word mm r.payload_head ≤ a
        → a + n ≤ word mm r.payload_tail
        → a % r.payload_size + n ≤ r.payload_size
        → peek m4 (place r a) n ≡ peek mm (place r a) n
    keeps_payload a n ha hn whole =
        let b = slot_bounds (word mm r.tail) in
        let dl = length-pack_desc d in
        past_words (place r a) n (omega arith)
        ∙ peek-poke_ne m1 at (pack_desc d) (place r a) n (omega arith)
        ∙ beside_payload a n ha hn whole

    published :
        word mm r.tail < word mm r.head + r.entries
        → desc_fits d ≡ true
        → Published session r e mm offset m4
    published room fits = record {
      descriptor = read_descriptor fits;
      payload = read_payload;
      tail = word-set_word_self m3 r.tail (word mm r.tail + 1);
      payload_tail =
          word-set_word_ne m3 r.tail (word mm r.tail + 1) r.payload_tail (omega arith)
          ∙ word-set_word_self m2 r.payload_tail (offset + length e.payload);
      head = other_word r.head l.words.0 l.head_ne_tail l.head_ne_payload_tail;
      unread_slot = keeps_slot room;
      unread_payload = keeps_payload;
    }

publish_ok :
    (session : ℕ) (r : Ring) (e : Entry) (mm : Memory) (offset : ℕ) (l : IsLaidOut r)
    → IsReserved session r e mm offset l
    → word mm r.tail < word mm r.head + r.entries
    → (publish session r e mm offset).0 ≡ ok tt
    → Published session r e mm offset (publish session r e mm offset).1
unfolding publish
publish_ok session r e mm offset l reserved room done =
    elim (Bool-cases (desc_fits (desc_of session r e offset))) [
      | inl fits ↦ rw fits (published session r e mm offset l reserved room fits)
      | inr big ↦ absurd (cc (rw big at done))
    ]

-- the place is reserved, or the submission has failed
publish_reserved_ok :
    (session : ℕ) (r : Ring) (e : Entry) (mm : Memory) (l : IsLaidOut r) (res : Result ℕ)
    → length e.payload ≤ r.payload_size
    → reserve_payload
        (word mm r.payload_head)
        (word mm r.payload_tail)
        r.payload_size
        (length e.payload)
      ≡ res
    → word mm r.tail < word mm r.head + r.entries
    → (publish_reserved session r e mm res).0 ≡ ok tt
    → (offset : ℕ) × Published session r e mm offset (publish_reserved session r e mm res).1
unfolding publish_reserved
publish_reserved_ok session r e mm l (raise error) small found room done = absurd (cc)
publish_reserved_ok session r e mm l (ok offset) small found room done = (
  offset,
  publish_ok session r e mm offset l
      (λ some.
        reserve_payload_lem (word mm r.payload_head) (word mm r.payload_tail) r.payload_size
          (length e.payload) offset l.some_payload some small found)
      room done,
)

-- A submission that succeeds found a free slot, and publishes the entry: the reader finds the
-- descriptor at the tail and the payload at its place, the tails are moved (modulo 2 ^ 32), and every
-- slot and payload that was published and not read yet is left as it was.
pub submit_publishes :
    (session : ℕ) (r : Ring) (e : Entry) (mm : Memory)
    → IsLaidOut r
    → length e.payload ≤ r.payload_size
    → (submit_entry session r e mm).0 ≡ ok tt
    → (word mm r.tail < word mm r.head + r.entries)
      × ((offset : ℕ) × Published session r e mm offset (submit_entry session r e mm).1)
unfolding submit_entry
submit_publishes session r e mm l small done =
    elim (Bool-cases (leb (word mm r.head + r.entries) (word mm r.tail))) [
      | inl full ↦ absurd (cc (rw full at done))
      | inr free ↦
          let room : word mm r.tail < word mm r.head + r.entries = ground arith in
          let reserved =
            reserve_payload (word mm r.payload_head) (word mm r.payload_tail) r.payload_size
              (length e.payload) in
          rw free
            (room, publish_reserved_ok session r e mm l reserved small refl room (rw free at done))
    ]

publish_raised :
    (session : ℕ) (r : Ring) (e : Entry) (mm : Memory) (error : Error) (i offset : ℕ)
    → IsLaidOut r
    → i < 39
    → (publish session r e mm offset).0 ≡ raise error
    → word (publish session r e mm offset).1 i ≡ word mm i
unfolding publish
publish_raised session r e mm error i offset l h failed =
    elim (Bool-cases (desc_fits (desc_of session r e offset))) [
      | inl fits ↦ absurd (cc (rw fits at failed))
      | inr big ↦ rw big (
          word-poke_ne mm (place r offset) e.payload i (
            omega (
              arith,
              slot_in 0 r.entries l.some_entries,
              l.slots_behind_words,
              l.zone_behind_slots,
            )))
    ]

raised :
    (session : ℕ) (r : Ring) (e : Entry) (mm : Memory) (error : Error) (i : ℕ)
    → IsLaidOut r
    → i < 39
    → (res : Result ℕ) → (publish_reserved session r e mm res).0 ≡ raise error
    → word (publish_reserved session r e mm res).1 i ≡ word mm i
unfolding publish_reserved
raised session r e mm error i l h (raise error') failed = refl
raised session r e mm error i l h (ok offset) failed =
    publish_raised session r e mm error i offset l h failed

-- no descriptor holds the place 2 ^ 32
past_u32_raises :
    (session : ℕ) (r : Ring) (e : Entry) (mm : Memory)
    → (publish_reserved session r e mm (ok (2 ^ 32))).0 ≢ ok tt
unfolding publish_reserved publish
past_u32_raises session r e mm done = elim (Bool-cases (desc_fits (desc_of session r e (2 ^ 32)))) [
  | inl fits ↦ absurd (ground arith)
  | inr big ↦ cc (rw big at done)
]

-- the part under the lock: where it raises, the control page is as it was
locked_raised :
    (session : ℕ) (r : Ring) (e : Entry) (mm : Memory) (error : Error) (i : ℕ)
    → IsLaidOut r
    → i < 39
    → (submit_entry session r e mm).0 ≡ raise error
    → word (submit_entry session r e mm).1 i ≡ word mm i
unfolding submit_entry
locked_raised session r e mm error i l h failed =
    elim (Bool-cases (leb (word mm r.head + r.entries) (word mm r.tail))) [
      | inl full ↦ rw full
      | inr free ↦ rw free (
          raised session r e mm error i l h
            (reserve_payload (word mm r.payload_head) (word mm r.payload_tail) r.payload_size
              (length e.payload))
            (rw free at failed))
    ]

-- A submission that raises has published nothing, so that every word of the control page is as it was; or it
-- published its entry, and the error is that of the ioctl behind it.
pub submit_ring_entry_raised :
    (kind : Kind) (e : Entry) (outcome : Result (Unit {0})) (b : Bridge) (error : Error)
    → IsLaidOut (ring_of b kind)
    → (submit_ring_entry kind e outcome b).0 ≡ raise error
    → ((i : ℕ) → i < 39 → word (submit_ring_entry kind e outcome b).1.mm i ≡ word b.mm i)
      ⊎ ((outcome ≡ raise error)
          × ((submit_entry b.session_id (ring_of b kind) e b.mm).0 ≡ ok tt)
          × ((submit_ring_entry kind e outcome b).1.mm
              ≡ (submit_entry b.session_id (ring_of b kind) e b.mm).1))
unfolding submit_ring_entry
submit_ring_entry_raised kind e outcome b error l failed =
    elim (Result-cases (validate_command_payload e.msg_type e.payload)) [
      | inr (err, bad) ↦ rw (bad, submit_ring_entry) (inl (λ i h. refl))
      | inl (_, valid) ↦ elim (Result-cases (submit_entry b.session_id (ring_of b kind) e b.mm).0) [
        | inl (_, sent) ↦
            rw (valid, submit_ring_entry)
              (inr (rw (valid, submit_ring_entry, sent) at failed, sent, refl))
        | inr (err, refused) ↦
            rw (valid, submit_ring_entry)
              (inl (λ i h. locked_raised b.session_id (ring_of b kind) e b.mm err i l h refused))
      ]
    ]

-- Where the payload zone divides 2 ^ 32, a payload that does not fit between the tail and 2 ^ 32 is never
-- accepted, whatever has been read.
pub submit_stuck_at_u32 :
    (session : ℕ) (r : Ring) (e : Entry) (mm : Memory) (k d : ℕ)
    → k * r.payload_size + r.payload_size ≡ 2 ^ 32
    → word mm r.payload_tail ≡ k * r.payload_size + d
    → 0 < d
    → d < r.payload_size
    → length e.payload ≤ r.payload_size
    → r.payload_size < d + length e.payload
    → (submit_entry session r e mm).0 ≢ ok tt
unfolding submit_entry
submit_stuck_at_u32 session r e mm k d whole at_tail hd dz small full done =
    elim (Bool-cases (leb (word mm r.head + r.entries) (word mm r.tail))) [
      | inl no_slot ↦ cc (rw no_slot at done)
      | inr free ↦
          elim (reserve_past_u32 (word mm r.payload_head) k r.payload_size d (length e.payload)
            whole hd dz small full) [
              | inl past ↦ past_u32_raises session r e mm (rw (free, at_tail, past) at done)
              | inr busy ↦ unfold publish_reserved in (cc (rw (free, at_tail, busy) at done))
            ]
    ]
