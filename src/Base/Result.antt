-- ===== src/Base/Result.antt =====
-- Python's exceptions, as far as the handlers tell them apart.
use mathlib.Core.Path.{◌≡◌, refl, subst}
use mathlib.Core.Logic.{◌⊎◌, inl, inr}

pub data Error : Type 0 where
  runtime_error value_error key_error type_error index_error struct_error attribute_error : Error
  blocking_io_error os_error eof_error timeout_error : Error

pub data Result {ℓ} (A : Type ℓ) : Type ℓ where
  ok : A → Result A
  raise : Error → Result A

infixl 5 ◌>>=◌ ◌>>◌
abbrev pub ◌>>=◌ {ℓ κ} : {A : Type ℓ} {B : Type κ} → Result A → (A → Result B) → Result B
ok a >>= f = f a
raise e >>= f = raise e

abbrev pub ◌>>◌ {ℓ κ} : {A : Type ℓ} {B : Type κ} → Result A → Result B → Result B
m >> k = m >>= λ _. k

pub Result-cases {ℓ} :
    {A : Type ℓ} (r : Result A) → ((a : A) × (r ≡ ok a)) ⊎ ((e : Error) × (r ≡ raise e))
Result-cases (ok a) = inl (a, refl)
Result-cases (raise e) = inr (e, refl)

-- what holds of the result, if there is one
abbrev HoldsOf {ℓ} : {A : Type ℓ} → (A → Type 0) → Result A → Type 0
HoldsOf P (ok a) = P a
HoldsOf P (raise e) = Unit

pub record Ensures {ℓ} {A : Type ℓ} (P : A → Type 0) (r : Result A) : Type 0 where
  holds : HoldsOf P r

module _ {ℓ} {A : Type ℓ} (P : A → Type 0) where
  pub Ensures-ok : {a : A} → P a → Ensures P (ok a)
  Ensures-ok p = record { holds = p }

  pub Ensures-raise : (e : Error) → Ensures P (raise e)
  Ensures-raise e = record { holds = tt }

  -- the first step, whose result is known by its equation
  pub Ensures-bind :
      {B : Type 0} (m : Result B) (f : B → Result A)
      → ((b : B) → m ≡ ok b → Ensures P (f b))
      → Ensures P (m >>= f)
  Ensures-bind (ok b) f h = h b refl
  Ensures-bind (raise e) f h = record { holds = tt }

  pub Ensures-elim : (r : Result A) (a : A) → Ensures P r → r ≡ ok a → P a
  Ensures-elim (ok b) a h e = let e' : b ≡ a = cc in subst P e' h.holds
  Ensures-elim (raise err) a h e = cc

  -- the result is what the equation says
  pub Ensures-of : (r : Result A) → ((a : A) → r ≡ ok a → P a) → Ensures P r
  Ensures-of (ok a) h = record { holds = h a refl }
  Ensures-of (raise err) h = record { holds = tt }

module _ {ℓ} {A : Type ℓ} {P Q : A → Type 0} where
  pub Ensures-map : {r : Result A} → Ensures P r → ((a : A) → P a → Q a) → Ensures Q r
  Ensures-map {r = ok a} h f = record { holds = f a h.holds }
  Ensures-map {r = raise e} h f = record { holds = tt }

module _ {ℓ} {A : Type ℓ} {P Q : A → Type 0} (R : A → Type 0) where
  pub Ensures-both :
      {r : Result A} → Ensures P r → Ensures Q r → ((a : A) → P a → Q a → R a) → Ensures R r
  Ensures-both {r = ok a} p q f = record { holds = f a p.holds q.holds }
  Ensures-both {r = raise e} p q f = record { holds = tt }
