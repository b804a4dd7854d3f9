-- ===== src/Normalize/Restore/Loops.antt =====
-- src/sensorium/runtime/model.py, the two loops of `normalize_runtime_model_data`: what they refuse, they refuse
-- by the items before.
use sensorium.Base.{
  ◌≡◌, refl, ap, sym, subst, ◌∙◌, Bool, false, List, [], ◌∷◌, ◌++◌, append-nil, append_assoc, Text,
  AllOf, AllOf-concat, map,
}
use sensorium.Base.Result.{ok, Ensures, Ensures-ok, Ensures-bind}
use sensorium.Runtime.Inventory.{BusSpec}
use sensorium.Normalize.Values.{Value}
use sensorium.Normalize.Items.{normalize_bus, DeviceItem, normalize_device}
use sensorium.Normalize.{
  Buses, bus_refused, refuse_if, normalize_buses, device_refused, normalize_devices,
}
use sensorium.Normalize.Unique.{refuse_if_iff}

module _ {A : Type 0} (refused : A → List A → Bool) where
  -- each item is not refused behind those before it
  abbrev pub Accepted : List A → List A → Type 0
  Accepted seen [] = Unit
  Accepted seen (x ∷ xs) = (refused x seen ≡ false) × Accepted (seen ++ x ∷ []) xs

  pub Accepted-concat :
      (seen xs : List A) (y : A)
      → Accepted seen xs
      → refused y (seen ++ xs) ≡ false
      → Accepted seen (xs ++ y ∷ [])
  Accepted-concat seen [] y h p = (subst (λ s. refused y s ≡ false) (append-nil seen) p, tt)
  Accepted-concat seen (x ∷ xs) y h p = (
    h.0,
    Accepted-concat (seen ++ x ∷ []) xs y h.1
        (subst (λ s. refused y s ≡ false) (sym (append_assoc seen (x ∷ []) xs)) p),
  )

abbrev pub bus_entry_refused : Text × BusSpec → Buses → Bool
bus_entry_refused (id, b) bs = bus_refused b bs

-- what the loop over the buses leaves: each bus under its id, read by a check, and accepted
pub record BusesRead (P : BusSpec → Type 0) (bs : Buses) : Type 0 where
  pub entries_read : AllOf (λ (p : Text × BusSpec). (p.0 ≡ p.1.id) × P p.1) bs
  pub accepted : Accepted bus_entry_refused [] bs

pub normalize_buses-Read :
    (P : BusSpec → Type 0) (bs : Buses) (vs : List Value)
    → ((v : Value) (b : BusSpec) → normalize_bus v ≡ ok b → P b)
    → BusesRead P bs
    → Ensures (BusesRead P) (normalize_buses bs vs)
unfolding normalize_buses
normalize_buses-Read P bs [] read h = Ensures-ok (BusesRead P) h
normalize_buses-Read P bs (v ∷ vs) read h = Ensures-bind (BusesRead P) (normalize_bus v) _ (λ b e.
    Ensures-bind (BusesRead P) (refuse_if (bus_refused b bs) b) _ (λ b' e'.
      let (free, same) = refuse_if_iff (bus_refused b bs) b b' e' in
      let more : BusesRead P (bs ++ (b.id, b) ∷ []) = record {
        entries_read =
            AllOf-concat (λ (p : Text × BusSpec). (p.0 ≡ p.1.id) × P p.1) bs (b.id, b)
              h.entries_read (refl, read v b e);
        accepted = Accepted-concat bus_entry_refused [] bs (b.id, b) h.accepted free;
      } in
      normalize_buses-Read P (bs ++ (b'.id, b') ∷ []) vs read
        (subst (λ (c : BusSpec). BusesRead P (bs ++ (c.id, c) ∷ [])) same more)))

-- the loop over the values of such buses gives the buses
pub normalize_buses_again :
    (show : BusSpec → Value) (seen bs : Buses)
    → AllOf (λ (p : Text × BusSpec). (p.0 ≡ p.1.id) × (normalize_bus (show p.1) ≡ ok p.1)) bs
    → Accepted bus_entry_refused seen bs
    → normalize_buses seen (map show (map (λ (p : Text × BusSpec). p.1) bs)) ≡ ok (seen ++ bs)
unfolding normalize_buses
normalize_buses_again show seen [] h a = ap ok (sym (append-nil seen))
normalize_buses_again show seen ((id, b) ∷ bs) h a =
    rw (h.0.1, a.0)
      (ap
          (λ (k : Text).
            normalize_buses (seen ++ (k, b) ∷ []) (map show (map (λ (p : Text × BusSpec). p.1) bs)))
          (sym h.0.0)
        ∙ (normalize_buses_again show (seen ++ (id, b) ∷ []) bs h.1 a.1
            ∙ ap ok (append_assoc seen ((id, b) ∷ []) bs)))

pub record DevicesRead (P : DeviceItem → Type 0) (ds : List DeviceItem) : Type 0 where
  pub items_read : AllOf P ds
  pub accepted : Accepted device_refused [] ds

pub normalize_devices-Read :
    (P : DeviceItem → Type 0) (buses : Buses) (ds : List DeviceItem) (vs : List Value)
    → ((v : Value) (d : DeviceItem) → normalize_device buses v ≡ ok d → P d)
    → DevicesRead P ds
    → Ensures (DevicesRead P) (normalize_devices buses ds vs)
unfolding normalize_devices
normalize_devices-Read P buses ds [] read h = Ensures-ok (DevicesRead P) h
normalize_devices-Read P buses ds (v ∷ vs) read h =
    Ensures-bind (DevicesRead P) (normalize_device buses v) _ (λ d e.
      Ensures-bind (DevicesRead P) (refuse_if (device_refused d ds) d) _ (λ d' e'.
        let (free, same) = refuse_if_iff (device_refused d ds) d d' e' in
        let more : DevicesRead P (ds ++ d ∷ []) = record {
          items_read = AllOf-concat P ds d h.items_read (read v d e);
          accepted = Accepted-concat device_refused [] ds d h.accepted free;
        } in
        normalize_devices-Read P buses (ds ++ d' ∷ []) vs read
          (subst (λ (c : DeviceItem). DevicesRead P (ds ++ c ∷ [])) same more)))

pub normalize_devices_again :
    (show : DeviceItem → Value) (buses : Buses) (seen ds : List DeviceItem)
    → AllOf (λ d. normalize_device buses (show d) ≡ ok d) ds
    → Accepted device_refused seen ds
    → normalize_devices buses seen (map show ds) ≡ ok (seen ++ ds)
unfolding normalize_devices
normalize_devices_again show buses seen [] h a = ap ok (sym (append-nil seen))
normalize_devices_again show buses seen (d ∷ ds) h a =
    rw (h.0, a.0)
      (normalize_devices_again show buses (seen ++ d ∷ []) ds h.1 a.1
        ∙ ap ok (append_assoc seen (d ∷ []) ds))
