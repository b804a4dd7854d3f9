-- ===== src/Runtime/Dispatch/Waiting.antt =====
-- src/sensorium/runtime/backends.py and inventory.py: a request that waits for a reply, in the dictionary of pending
-- requests or out of it.
use sensorium.Base.{
  ℕ, ◌≡◌, ◌⊎◌, ◌++◌, refl, sym, ap, ◌∙◌, arith, true, false, Bool-cases, Option-cases, inl, inr,
  List, [], ◌∷◌, none, some, if◌then◌else◌, Bytes, lookup, insert, ◌==◌, lookup-insert_self,
  lookup-insert_ne, ℤ,
}
use sensorium.Runtime.{Runtime, Pending}
use sensorium.Runtime.Backends.{late_reply, complete_pending, reply_event}
use sensorium.Runtime.Dispatch.{outcome_of}
use sensorium.Runtime.Dispatch.Emptying.{pending, Emptied}

-- the request is in the dictionary, with an outcome
abbrev pub Waits : ℕ → ℤ × Bytes → Runtime → Type 0
Waits id answer rt =
    (p : Pending) × (lookup ◌==◌ id rt.pending_controller ≡ some p) × (outcome_of (some p) ≡ answer)

-- the dictionary has been emptied, and the request has an outcome
abbrev pub IsOut : ℕ → ℤ × Bytes → Runtime → Type 0
IsOut id answer rt =
    (p : Pending) × (rt.pending_controller ≡ [])
    × (lookup ◌==◌ id rt.released ≡ some p)
    × (outcome_of (some p) ≡ answer)

pub Waits-same :
    (id : ℕ) (answer : ℤ × Bytes) (rt rt' : Runtime)
    → pending rt' ≡ pending rt
    → Waits id answer rt
    → Waits id answer rt'
Waits-same id answer rt rt' e (p, found, o) = (p, ap (λ v. lookup ◌==◌ id v.0) e ∙ found, o)

pub IsOut-same :
    (id : ℕ) (answer : ℤ × Bytes) (rt rt' : Runtime)
    → pending rt' ≡ pending rt
    → IsOut id answer rt
    → IsOut id answer rt'
IsOut-same id answer rt rt' e (p, gone, found, o) =
    (p, ap (λ v. v.0) e ∙ gone, ap (λ v. lookup ◌==◌ id v.1) e ∙ found, o)

lookup-append :
    (id : ℕ) (p : Pending) (m n : List (ℕ × Pending))
    → lookup ◌==◌ id m ≡ some p
    → lookup ◌==◌ id (m ++ n) ≡ some p
unfolding lookup
lookup-append id p [] n found = absurd (ground arith)
lookup-append id p ((j, q) ∷ m) n found = elim (Bool-cases (j == id)) [
  | inl here ↦ rw (here, lookup) (rw (here, lookup) at found)
  | inr on ↦ rw (on, lookup) (lookup-append id p m n (rw (on, lookup) at found))
]

-- a reset, a new model or a resync empties the dictionary, or leaves it
pub Waits-Emptied :
    (id : ℕ) (answer : ℤ × Bytes) (rt rt' : Runtime)
    → Emptied (pending rt) rt'
    → Waits id answer rt
    → Waits id answer rt' ⊎ IsOut id answer rt'
Waits-Emptied id answer rt rt' (inl e) w = inl (Waits-same id answer rt rt' e w)
Waits-Emptied id answer rt rt' (inr e) (p, found, o) = inr (
  p,
  ap (λ v. v.0) e,
  ap (λ v. lookup ◌==◌ id v.1) e ∙ lookup-append id p rt.pending_controller rt.released found,
  o,
)

pub IsOut-Emptied :
    (id : ℕ) (answer : ℤ × Bytes) (rt rt' : Runtime)
    → Emptied (pending rt) rt'
    → IsOut id answer rt
    → IsOut id answer rt'
IsOut-Emptied id answer rt rt' (inl e) w = IsOut-same id answer rt rt' e w
IsOut-Emptied id answer rt rt' (inr e) (p, gone, found, o) = (
  p,
  ap (λ v. v.0) e,
  ap (λ v. lookup ◌==◌ id v.1) e ∙ ap (λ m. lookup ◌==◌ id (m ++ rt.released)) gone ∙ found,
  o,
)

pub same_id : (n : ℕ) → (n == n) ≡ true
same_id n = ground arith

other_id : (i id : ℕ) → (i == id) ≡ false → (x : ℕ) → (x == i) ≡ true → (x == id) ≡ false
other_id i id h x e = ground arith

pending-reply :
    (i : ℕ) (status : ℤ) (bytes : Bytes) (q : Pending) (rt : Runtime)
    → lookup ◌==◌ i rt.pending_controller ≡ some q
    → (reply_event i status bytes rt).1.pending_controller
      ≡ insert ◌==◌ i
          (record q { status = status; reply = bytes; done = true })
          rt.pending_controller
unfolding reply_event complete_pending
pending-reply i status bytes q rt there =
    rw (there, reply_event) (rw (there, complete_pending) refl)

-- a reply to this request, or to another
pub Waits-reply :
    (id i : ℕ) (status : ℤ) (bytes : Bytes) (answer : ℤ × Bytes) (rt : Runtime)
    → Waits id answer rt
    → Waits id (if i == id then (status, bytes) else answer) (reply_event i status bytes rt).1
unfolding reply_event complete_pending late_reply
Waits-reply id i status bytes answer rt (p, found, o) =
    elim (Option-cases (lookup ◌==◌ i rt.pending_controller)) [
      | inl none_there ↦ elim (Bool-cases (i == id)) [
        | inl same ↦
            let e : i ≡ id = ground arith in
            absurd (cc (none_there, found, ap (λ n. lookup ◌==◌ n rt.pending_controller) e))
        | inr other ↦ rw (none_there, other, reply_event) (p, found, o)
      ]
      | inr (q, there) ↦
          let q' : Pending = record q { status = status; reply = bytes; done = true } in
          let stored = pending-reply i status bytes q rt there in
          elim (Bool-cases (i == id)) [
            | inl same ↦
                let e : i ≡ id = ground arith in
                let now = lookup-insert_self ◌==◌ i q' rt.pending_controller (same_id i) in
                rw same (
                  q',
                  ap (lookup ◌==◌ id) stored
                      ∙ ap (λ n. lookup ◌==◌ n (insert ◌==◌ i q' rt.pending_controller)) (sym e)
                      ∙ now,
                  refl,
                )
            | inr other ↦
                let kept =
                  lookup-insert_ne ◌==◌ i id q' rt.pending_controller other (other_id i id other) in
                rw other (p, ap (lookup ◌==◌ id) stored ∙ kept ∙ found, o)
          ]
    ]

-- where the dictionary is empty, a reply is refused
pub IsOut-reply :
    (id i : ℕ) (status : ℤ) (bytes : Bytes) (answer : ℤ × Bytes) (rt : Runtime)
    → IsOut id answer rt
    → IsOut id answer (reply_event i status bytes rt).1
unfolding reply_event late_reply lookup
IsOut-reply id i status bytes answer rt (p, gone, found, o) =
    let missing : lookup ◌==◌ i rt.pending_controller ≡ none = ap (lookup ◌==◌ i) gone in
    rw (missing, reply_event) (p, gone, found, o)
