-- ===== src/Normalize/Restore/Dicts.antt =====
-- src/sensorium/runtime/model_normalize.py: the loops that fill a dictionary or a sorted list, over their results.
use sensorium.Base.{
  ◌≡◌, refl, ap, sym, subst, ◌∙◌, Bool, false, ◌||◌, Bool-cases, inl, inr, List, [], ◌∷◌, ◌++◌,
  append-nil, append_assoc, insert, or_false, or_false_intro, AllOf,
}
use sensorium.Base.Result.{Result, ok, Ensures, Ensures-ok, Ensures-bind, Ensures-elim}
use sensorium.Normalize.Values.{Value, pairs, of_pairs}
use sensorium.Normalize.Parts.{collect}
use sensorium.Normalize.Export.{Entries, entries}

pub pairs-of_pairs : (kvs : Entries) → pairs (of_pairs kvs) ≡ kvs
pairs-of_pairs [] = refl
pairs-of_pairs ((k, v) ∷ kvs) = ap (λ (r : Entries). (k, v) ∷ r) (pairs-of_pairs kvs)

module _ {K : Type 0} (eq : K → K → Bool) where
  -- whether a key is among those before
  abbrev pub has : K → List K → Bool
  has k [] = false
  has k (j ∷ js) = eq j k || has k js

  has-concat :
      (k j : K) (seen : List K)
      → has k seen ≡ false
      → eq j k ≡ false
      → has k (seen ++ j ∷ []) ≡ false
  has-concat k j [] h e = or_false_intro (eq j k) false e refl
  has-concat k j (i ∷ seen) h e =
      let (here, there) = or_false (eq i k) (has k seen) h in
      or_false_intro (eq i k) (has k (seen ++ j ∷ [])) here (has-concat k j seen there e)

module _ {K V : Type 0} where
  abbrev pub keys : List (K × V) → List K
  keys [] = []
  keys ((k, v) ∷ m) = k ∷ keys m

  keys-concat : (m : List (K × V)) (k : K) (v : V) → keys (m ++ (k, v) ∷ []) ≡ keys m ++ k ∷ []
  keys-concat [] k v = refl
  keys-concat ((j, w) ∷ m) k v = ap (λ (js : List K). j ∷ js) (keys-concat m k v)

module _ {K V : Type 0} (eq : K → K → Bool) where
  -- no key is among those before it
  abbrev pub FreshKeys : List K → List (K × V) → Type 0
  FreshKeys seen [] = Unit
  FreshKeys seen ((k, v) ∷ m) = (has eq k seen ≡ false) × FreshKeys (seen ++ k ∷ []) m

  insert-FreshKeys :
      (seen : List K) (k : K) (v : V) (m : List (K × V))
      → has eq k seen ≡ false
      → FreshKeys seen m
      → FreshKeys seen (insert eq k v m)
  unfolding insert
  insert-FreshKeys seen k v [] h f = (h, tt)
  insert-FreshKeys seen k v ((j, w) ∷ m) h f = elim (Bool-cases (eq j k)) [
    | inl same ↦ rw same f
    | inr other ↦
        rw other (f.0, insert-FreshKeys (seen ++ j ∷ []) k v m (has-concat eq k j seen h other) f.1)
  ]

  insert-fresh :
      (k : K) (v : V) (m : List (K × V))
      → has eq k (keys m) ≡ false
      → insert eq k v m ≡ m ++ (k, v) ∷ []
  unfolding insert
  insert-fresh k v [] h = refl
  insert-fresh k v ((j, w) ∷ m) h =
      let (here, there) = or_false (eq j k) (has eq k (keys m)) h in
      rw here (ap (λ (r : List (K × V)). (j, w) ∷ r) (insert-fresh k v m there))

  -- a property of the keys and values that are read
  abbrev pub EntryOf : (K → Type 0) → (V → Type 0) → K × V → Type 0
  EntryOf P Q (k, v) = P k × Q v

  insert-AllOf :
      (P : K → Type 0) (Q : V → Type 0) (k : K) (v : V) (m : List (K × V))
      → P k
      → Q v
      → AllOf (EntryOf P Q) m
      → AllOf (EntryOf P Q) (insert eq k v m)
  unfolding insert
  insert-AllOf P Q k v [] p q h = ((p, q), tt)
  insert-AllOf P Q k v ((j, w) ∷ m) p q h = elim (Bool-cases (eq j k)) [
    | inl same ↦ rw same ((h.0.0, q), h.1)
    | inr other ↦ rw other (h.0, insert-AllOf P Q k v m p q h.1)
  ]

  module _ (key : Value → Result K) (value : Value → Result V) where
    collect-FreshKeys :
        (acc : List (K × V)) (kvs : Entries)
        → FreshKeys [] acc
        → Ensures (FreshKeys []) (collect eq key value acc kvs)
    unfolding collect
    collect-FreshKeys acc [] h = Ensures-ok (FreshKeys []) h
    collect-FreshKeys acc ((x, y) ∷ kvs) h = Ensures-bind (FreshKeys []) (key x) _ (λ k e.
        Ensures-bind (FreshKeys []) (value y) _
          (λ v e'. collect-FreshKeys (insert eq k v acc) kvs (insert-FreshKeys [] k v acc refl h)))

    collect-AllOf :
        (P : K → Type 0) (Q : V → Type 0) (acc : List (K × V)) (kvs : Entries)
        → ((x : Value) (k : K) → key x ≡ ok k → P k)
        → ((y : Value) (v : V) → value y ≡ ok v → Q v)
        → AllOf (EntryOf P Q) acc
        → Ensures (AllOf (EntryOf P Q)) (collect eq key value acc kvs)
    unfolding collect
    collect-AllOf P Q acc [] p q h = Ensures-ok (AllOf (EntryOf P Q)) h
    collect-AllOf P Q acc ((x, y) ∷ kvs) p q h =
        Ensures-bind (AllOf (EntryOf P Q)) (key x) _ (λ k e.
          Ensures-bind (AllOf (EntryOf P Q)) (value y) _ (λ v e'.
            collect-AllOf P Q (insert eq k v acc) kvs p q
              (insert-AllOf P Q k v acc (p x k e) (q y v e') h)))

    module _ (show_key : K → Value) (show : V → Value) where
      -- the entry is read back
      abbrev pub IsReadBack : K × V → Type 0
      IsReadBack (k, v) = (key (show_key k) ≡ ok k) × (value (show v) ≡ ok v)

      collect-entries :
          (acc m : List (K × V))
          → FreshKeys (keys acc) m
          → AllOf IsReadBack m
          → collect eq key value acc (entries show_key show m) ≡ ok (acc ++ m)
      unfolding collect
      collect-entries acc [] f h = ap ok (sym (append-nil acc))
      collect-entries acc ((k, v) ∷ m) f h =
          rw (h.0.0, h.0.1, insert-fresh k v acc f.0)
            (collect-entries (acc ++ (k, v) ∷ []) m
                (subst (λ js. FreshKeys js m) (sym (keys-concat acc k v)) f.1) h.1
              ∙ ap ok (append_assoc acc ((k, v) ∷ []) m))

      -- the loop over its own result, with nothing read before
      pub collect_again :
          (kvs : Entries) (m : List (K × V))
          → collect eq key value [] kvs ≡ ok m
          → AllOf IsReadBack m
          → collect eq key value [] (pairs (of_pairs (entries show_key show m))) ≡ ok m
      collect_again kvs m e h =
          ap (collect eq key value []) (pairs-of_pairs (entries show_key show m))
          ∙ collect-entries [] m
              (Ensures-elim (FreshKeys []) (collect eq key value [] kvs) m
                (collect-FreshKeys [] kvs tt) e)
              h

      -- the same where keys and values are read back by themselves
      pub collect_all_again :
          (kvs : Entries) (m : List (K × V))
          → collect eq key value [] kvs ≡ ok m
          → ((x : Value) (k : K) → key x ≡ ok k → key (show_key k) ≡ ok k)
          → ((y : Value) (v : V) → value y ≡ ok v → value (show v) ≡ ok v)
          → collect eq key value [] (pairs (of_pairs (entries show_key show m))) ≡ ok m
      collect_all_again kvs m e p q = collect_again kvs m e (
          Ensures-elim (AllOf IsReadBack) (collect eq key value [] kvs) m
            (collect-AllOf (λ k. key (show_key k) ≡ ok k) (λ v. value (show v) ≡ ok v) [] kvs p q
              tt)
            e)
