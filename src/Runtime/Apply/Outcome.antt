-- ===== src/Runtime/Apply/Outcome.antt =====
-- src/sensorium/runtime/inventory.py: the states that `apply_model` can end in.
use sensorium.Base.{
  ℕ, ◌+◌, ◌≡◌, refl, ◌⊎◌, inl, inr, true, false, Bool-cases, [], Option, none, some, not, ◌&&◌,
  ◌==◌, length, subst, ap, if-both,
}
use sensorium.Base.Result.{Error, Result, ok, raise, Result-cases}
use sensorium.Bridge.Protocol.{cmd_reset}
use sensorium.Runtime.{Runtime, DaemonState, empty, applying, ready, degraded, desynced}
use sensorium.Runtime.Outside.{write_frame, write_snapshot, persist_snapshot}
use sensorium.Runtime.Backends.{assert_mutation_allowed, guarded}
use sensorium.Runtime.Inventory.Ends.{EndsIn, EndsIn-and_then}
use sensorium.Runtime.Inventory.{Model}
use sensorium.Runtime.Apply.{
  clear_state, set_state, has_model, take_snapshot, Snapshot, begin_apply, try_apply, discarded,
  discard_state, validate_attachments, give_up, after_restore, restore_previous, after_discard,
  after_try, apply_model,
}
use sensorium.Runtime.Apply.Placing.{IsApplied, cleared-IsApplied, persist-desynced}

-- no model is there any more
pub record IsGone (rt : Runtime) : Type 0 where
  pub gone : rt.runtime_state ≡ empty
  pub no_buses : rt.buses ≡ []
  pub no_devices : rt.devices ≡ []

-- The previous model is in place again, or there was none and the daemon is empty, or it is desynced.
abbrev pub Undone : Runtime → Runtime → Type 0
Undone rt rt' =
    ((has_model rt ≡ true)
      × IsApplied (take_snapshot rt).model (take_snapshot rt).attachments rt.generation rt')
    ⊎ (((has_model rt ≡ false) × IsGone rt') ⊎ (rt'.runtime_state ≡ desynced))

-- what `apply_model` leaves behind
abbrev pub IsSettled : Model → Runtime → Result (Unit {0}) × Runtime → Type 0
IsSettled m rt (ok _, rt') = IsApplied m [] (rt.generation + 1) rt'
IsSettled m rt (raise _, rt') = Undone rt rt'

try_apply-IsApplied :
    (m : Model) (generation : ℕ) (rt : Runtime)
    → EndsIn (IsApplied m [] generation) (try_apply m generation rt)
unfolding try_apply
try_apply-IsApplied m generation rt =
    EndsIn-and_then (IsApplied m [] generation) (write_frame cmd_reset [] rt) _
      (λ _ rt'. cleared-IsApplied m generation [] rt')

IsGone-persist : (rt : Runtime) → IsGone rt → IsGone (persist_snapshot rt)
unfolding persist_snapshot write_snapshot
IsGone-persist rt h =
    if-both IsGone (not rt.snapshot_path) _ _ (λ _. h)
      (λ _.
        if-both IsGone (length rt.buses == 0 && length rt.devices == 0) _ _
          (λ _. record { gone = h.gone; no_buses = h.no_buses; no_devices = h.no_devices })
          (λ some. absurd (cc (some, ap length h.no_buses, ap length h.no_devices))))

discarded-IsGone : (x : Result (Unit {0}) × Runtime) → EndsIn IsGone (discarded x)
unfolding discarded clear_state
discarded-IsGone (ok _, rt) = record {
  here =
      IsGone-persist (set_state empty (clear_state rt))
        (record { gone = refl; no_buses = refl; no_devices = refl });
}
discarded-IsGone (raise e, rt) = record { here = tt }

give_up-IsSettled : (m : Model) (was rt : Runtime) → IsSettled m was (give_up rt)
give_up-IsSettled m was rt = inr (inr (persist-desynced rt))

-- what `apply_model` keeps of the model before
abbrev IsPrevious : Runtime → Option Snapshot → Type 0
IsPrevious was none = has_model was ≡ false
IsPrevious was (some snap) = (has_model was ≡ true) × (take_snapshot was ≡ snap)

begin_apply-IsPrevious : (rt : Runtime) → IsPrevious rt (begin_apply rt).0
unfolding begin_apply
begin_apply-IsPrevious rt = elim (Bool-cases (has_model rt)) [
  | inl there ↦ rw (there, begin_apply) (there, refl)
  | inr not_there ↦ rw (not_there, begin_apply) not_there
]

abbrev Restores : Snapshot → ℕ → Runtime → Type 0
Restores snap generation = IsApplied snap.model snap.attachments generation

after_restore-IsSettled :
    (m : Model) (was : Runtime) (error : Error) (x : Result (Unit {0}) × Runtime)
    → has_model was ≡ true
    → EndsIn (Restores (take_snapshot was) was.generation) x
    → IsSettled m was (after_restore error x)
after_restore-IsSettled m was error (ok _, rt) there h = inl (there, h.here)
after_restore-IsSettled m was error (raise _, rt) there h = give_up-IsSettled m was rt

restore_previous-IsSettled :
    (m : Model) (was : Runtime) (error : Error) (rt : Runtime)
    → has_model was ≡ true
    → IsSettled m was (restore_previous error was.generation (take_snapshot was) rt)
unfolding restore_previous
restore_previous-IsSettled m was error rt there =
    let snap = take_snapshot was in
    elim (Result-cases (validate_attachments snap.model.devices snap.attachments)) [
      | inl (a, e) ↦
          rw (e, restore_previous)
            (after_restore-IsSettled m was error _ there
              (cleared-IsApplied snap.model was.generation snap.attachments rt))
      | inr (err, e) ↦ rw (e, restore_previous) (give_up-IsSettled m was rt)
    ]

after_discard-IsSettled :
    (m : Model) (was : Runtime) (error : Error) (previous : Option Snapshot)
    (x : Result (Unit {0}) × Runtime)
    → IsPrevious was previous
    → EndsIn IsGone x
    → IsSettled m was (after_discard error was.generation previous x)
after_discard-IsSettled m was error previous (raise _, rt) p h = give_up-IsSettled m was rt
after_discard-IsSettled m was error none (ok _, rt) p h = inr (inl (p, h.here))
after_discard-IsSettled m was error (some snap) (ok _, rt) p h =
    subst (λ s. IsSettled m was (restore_previous error was.generation s rt)) p.1
      (restore_previous-IsSettled m was error rt p.0)

after_try-IsSettled :
    (m : Model) (was : Runtime) (previous : Option Snapshot) (x : Result (Unit {0}) × Runtime)
    → IsPrevious was previous
    → EndsIn (IsApplied m [] (was.generation + 1)) x
    → IsSettled m was (after_try was.generation previous x)
after_try-IsSettled m was previous (ok _, rt) p h = h.here
after_try-IsSettled m was previous (raise error, rt) p h =
    after_discard-IsSettled m was error previous (discard_state rt) p
      (unfold discard_state in discarded-IsGone _)

allowed_or_desynced :
    (rt : Runtime) (s : DaemonState)
    → rt.runtime_state ≡ s
    → (assert_mutation_allowed rt ≡ ok tt) ⊎ (rt.runtime_state ≡ desynced)
unfolding assert_mutation_allowed
allowed_or_desynced rt desynced h = inr h
allowed_or_desynced rt empty h = inl (rw (h, assert_mutation_allowed) refl)
allowed_or_desynced rt applying h = inl (rw (h, assert_mutation_allowed) refl)
allowed_or_desynced rt ready h = inl (rw (h, assert_mutation_allowed) refl)
allowed_or_desynced rt degraded h = inl (rw (h, assert_mutation_allowed) refl)

-- Applying a model settles, whatever fails on the way: without an exception the daemon has exactly the model's buses
-- and devices, attached to nothing, under the next generation; and with one, the model, the generation and the
-- attachments from before, as the daemon exported them, are put back; or there was no model before, and the daemon is empty; or it
-- is desynced. A daemon with a model in place is `ready`, unless the kernel reports a desync.
pub apply_model_settles : (m : Model) (rt : Runtime) → IsSettled m rt (apply_model m rt)
unfolding apply_model
apply_model_settles m rt = elim (allowed_or_desynced rt rt.runtime_state refl) [
  | inl e ↦
      rw (e, apply_model, guarded)
        (after_try-IsSettled m rt (begin_apply rt).0 _ (begin_apply-IsPrevious rt)
          (try_apply-IsApplied m (rt.generation + 1) (begin_apply rt).1))
  | inr h ↦ rw (h, apply_model, guarded) (inr (inr h))
]
