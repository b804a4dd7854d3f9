-- ===== src/Runtime/Inventory/Ends.antt =====
-- What holds when an operation of the daemon has ended without an exception.
use sensorium.Base.{◌≡◌, arith}
use sensorium.Base.Result.{Result, ok, raise}
use sensorium.Runtime.{Runtime, Action}
use sensorium.Runtime.Inventory.{◌and_then◌}

-- what holds of the state when an operation ends without an exception
abbrev pub HoldsAfter : (Runtime → Type 0) → {A : Type 0} → Result A × Runtime → Type 0
HoldsAfter p (ok _, rt) = p rt
HoldsAfter p (raise _, rt) = Unit {0}

pub record EndsIn (p : Runtime → Type 0) {A : Type 0} (x : Result A × Runtime) : Type 0 where
  pub here : HoldsAfter p x

pub EndsIn-and_then :
    {A : Type 0} (p : Runtime → Type 0) (x : Result A × Runtime) (f : A → Action (Unit {0}))
    → ((a : A) (rt : Runtime) → EndsIn p (f a rt))
    → EndsIn p (x and_then f)
EndsIn-and_then p (ok a, rt) f h = h a rt
EndsIn-and_then p (raise e, rt) f h = record { here = tt }

pub EndsIn-ok :
    (p : Runtime → Type 0) (x : Result (Unit {0}) × Runtime) → EndsIn p x → x.0 ≡ ok tt → p x.1
EndsIn-ok p (ok _, rt) h e = h.here
EndsIn-ok p (raise err, rt) h e = absurd (ground arith)

-- the second operation starts where the first one ended
pub EndsIn-behind :
    {A : Type 0} (p : Runtime → Type 0) (x : Result A × Runtime) (f : A → Action (Unit {0}))
    → ((a : A) → EndsIn p (f a x.1))
    → EndsIn p (x and_then f)
EndsIn-behind p (ok a, rt) f h = h a
EndsIn-behind p (raise e, rt) f h = record { here = tt }

pub EndsIn-always :
    {A : Type 0} (p : Runtime → Type 0) (x : Result A × Runtime) → p x.1 → EndsIn p x
EndsIn-always p (ok a, rt) h = record { here = h }
EndsIn-always p (raise e, rt) h = record { here = tt }

-- the second operation may use what holds when the first one has ended
pub EndsIn-then :
    {A : Type 0} (p q : Runtime → Type 0) (x : Result A × Runtime) (f : A → Action (Unit {0}))
    → EndsIn p x
    → ((a : A) (rt : Runtime) → p rt → EndsIn q (f a rt))
    → EndsIn q (x and_then f)
EndsIn-then p q (ok a, rt) f h g = g a rt h.here
EndsIn-then p q (raise e, rt) f h g = record { here = tt }
