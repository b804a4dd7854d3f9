-- ===== src/Base/Dict.antt =====
-- Python's `dict` as an association list in insertion order: an assignment to a key that is there
-- keeps its place, a new key goes to the end.
use mathlib.Core.Path.{◌≡◌, refl, sym, subst, ap, ◌∙◌}
use mathlib.Core.Logic.{inl, inr}
use mathlib.Core.Bool.{Bool, true, false}
use native.Mathlib.Omega.{arith}
use mathlib.Core.Option.{Option, none, some}
use mathlib.Core.List.{List, [], ◌∷◌}
use sensorium.Base.Num.{if◌then◌else◌, Bool-cases}

module _ {ℓ κ} {K : Type ℓ} {V : Type κ} (eq : K → K → Bool) where
  -- `d.get(k)`
  unfoldable pub lookup : K → List (K × V) → Option V
  lookup k [] = none
  lookup k ((j, v) ∷ m) = if eq j k then some v else lookup k m

  -- `d[k] = v`
  unfoldable pub insert : K → V → List (K × V) → List (K × V)
  insert k v [] = (k, v) ∷ []
  insert k v ((j, w) ∷ m) = if eq j k then (j, v) ∷ m else (j, w) ∷ insert k v m

  -- `d.pop(k, None)`
  unfoldable pub remove : K → List (K × V) → List (K × V)
  remove k [] = []
  remove k ((j, w) ∷ m) = if eq j k then m else (j, w) ∷ remove k m

-- every value satisfies `P`
abbrev pub AllValues {ℓ κ} : {K : Type ℓ} {V : Type κ} → (V → Type 0) → List (K × V) → Type 0
AllValues P [] = Unit
AllValues P ((k, v) ∷ m) = P v × AllValues P m

module _ {ℓ κ} {K : Type ℓ} {V : Type κ} (eq : K → K → Bool) (P : V → Type 0) where
  pub lookup-AllValues :
      (k : K) (m : List (K × V)) (v : V) → AllValues P m → lookup eq k m ≡ some v → P v
  unfolding lookup
  lookup-AllValues k [] v all e = absurd (ground arith)
  lookup-AllValues k ((j, w) ∷ m) v all e = elim (Bool-cases (eq j k)) [
    | inl same ↦ let e' : w ≡ v = ground (arith) in subst P e' all.0
    | inr other ↦ lookup-AllValues k m v all.1 (rw other at e)
  ]

  pub insert-AllValues :
      (k : K) (v : V) (m : List (K × V)) → AllValues P m → P v → AllValues P (insert eq k v m)
  unfolding insert
  insert-AllValues k v [] all p = (p, tt)
  insert-AllValues k v ((j, w) ∷ m) all p = elim (Bool-cases (eq j k)) [
    | inl same ↦ rw same (p, all.1)
    | inr other ↦ rw other (all.0, insert-AllValues k v m all.1 p)
  ]

module _ {ℓ κ} {K : Type ℓ} {V : Type κ} (eq : K → K → Bool) where
  pub lookup-insert_self :
      (k : K) (v : V) (m : List (K × V)) → eq k k ≡ true → lookup eq k (insert eq k v m) ≡ some v
  unfolding lookup insert
  lookup-insert_self k v [] same = rw same refl
  lookup-insert_self k v ((j, w) ∷ m) same = elim (Bool-cases (eq j k)) [
    | inl here ↦
        let first : insert eq k v ((j, w) ∷ m) ≡ (j, v) ∷ m = rw (here, insert) refl in
        ap (lookup eq k) first ∙ rw here refl
    | inr there ↦
        let later : insert eq k v ((j, w) ∷ m) ≡ (j, w) ∷ insert eq k v m =
          rw (there, insert) refl in
        ap (lookup eq k) later ∙ rw there (lookup-insert_self k v m same)
  ]

  -- an assignment to another key, which no key in the dictionary equals together with `k`
  pub lookup-insert_ne :
      (j k : K) (v : V) (m : List (K × V))
      → eq j k ≡ false
      → ((x : K) → eq x j ≡ true → eq x k ≡ false)
      → lookup eq k (insert eq j v m) ≡ lookup eq k m
  unfolding lookup insert
  lookup-insert_ne j k v [] other apart = rw other refl
  lookup-insert_ne j k v ((i, w) ∷ m) other apart = elim (Bool-cases (eq i j)) [
    | inl here ↦ rw (here, apart i here, lookup, insert) refl
    | inr there ↦ elim (Bool-cases (eq i k)) [
      | inl found ↦ rw (there, found, lookup, insert) refl
      | inr on ↦ rw (there, on, lookup, insert) (lookup-insert_ne j k v m other apart)
    ]
  ]

  -- an assignment of what is there
  pub insert-lookup :
      (k : K) (v : V) (m : List (K × V)) → lookup eq k m ≡ some v → insert eq k v m ≡ m
  unfolding lookup insert
  insert-lookup k v [] there = absurd (ground arith)
  insert-lookup k v ((j, w) ∷ m) there = elim (Bool-cases (eq j k)) [
    | inl here ↦
        let same : w ≡ v = ground arith in rw (here, insert) (ap (λ x. (j, x) ∷ m) (sym same))
    | inr on ↦
        rw (on, insert) (ap (λ t. (j, w) ∷ t) (insert-lookup k v m (rw (on, lookup) at there)))
  ]

-- the dictionary with each value `f` of the old one
unfoldable pub map_values {ℓ κ} :
    {K : Type ℓ} {V W : Type κ} → (V → W) → List (K × V) → List (K × W)
map_values f [] = []
map_values f ((k, v) ∷ m) = (k, f v) ∷ map_values f m

module _ {ℓ κ} {K : Type ℓ} {V W : Type κ} (eq : K → K → Bool) (f : V → W) where
  pub insert-map_values :
      (k : K) (v : V) (m : List (K × V))
      → map_values f (insert eq k v m) ≡ insert eq k (f v) (map_values f m)
  unfolding insert map_values
  insert-map_values k v [] = refl
  insert-map_values k v ((j, w) ∷ m) = elim (Bool-cases (eq j k)) [
    | inl here ↦ rw (here, insert) refl
    | inr on ↦ rw (on, insert) (ap (λ t. (j, f w) ∷ t) (insert-map_values k v m))
  ]

  pub lookup-map_values :
      (k : K) (v : V) (m : List (K × V))
      → lookup eq k m ≡ some v
      → lookup eq k (map_values f m) ≡ some (f v)
  unfolding lookup map_values
  lookup-map_values k v [] there = absurd (ground arith)
  lookup-map_values k v ((j, w) ∷ m) there = elim (Bool-cases (eq j k)) [
    | inl here ↦ let same : w ≡ v = ground arith in rw (here, lookup) (ap (λ x. some (f x)) same)
    | inr on ↦ rw (on, lookup) (lookup-map_values k v m (rw (on, lookup) at there))
  ]

  pub lookup-map_values-none :
      (k : K) (m : List (K × V)) → lookup eq k m ≡ none → lookup eq k (map_values f m) ≡ none
  unfolding lookup map_values
  lookup-map_values-none k [] there = refl
  lookup-map_values-none k ((j, w) ∷ m) there = elim (Bool-cases (eq j k)) [
    | inl here ↦ absurd (ground arith)
    | inr on ↦ rw (on, lookup) (lookup-map_values-none k m (rw (on, lookup) at there))
  ]
