-- ===== src/Normalize/Unique.antt =====
-- src/sensorium/runtime/model.py: what a model that is accepted does not have twice.
pub mod Model
use sensorium.Base.{
  ℕ, ◌≡◌, ◌≢◌, refl, ap, ap₂, ◌∙◌, subst, arith, Bool, true, false, ◌&&◌, ◌||◌, Bool-cases,
  Option-cases, inl, inr, List, [], ◌∷◌, ◌++◌, Option, none, some, Text, codes, sym, lookup,
  bytes_eq, bytes_eq_iff, ◌==◌, or_false, AllOf, AllOf-concat, AllOf-map,
}
use sensorium.Base.Result.{
  Result, ok, raise, runtime_error, ◌>>=◌, Ensures, Ensures-ok, Ensures-raise, Ensures-bind,
  Ensures-elim,
}
use sensorium.Device.{Transport, i2c, spi, uart}
use sensorium.Runtime.Inventory.{BusSpec}
use sensorium.Normalize.Values.{
  Value, null, other, bool, int, str, blob, arr, obj, Fields, get, or_else, to_list, expect_mapping,
  expect_list,
}
use sensorium.Normalize.Expect.{checked, found, expect_name, expect_string}
use sensorium.Normalize.Parts.{one_of, normalize_faults}
use sensorium.Normalize.Items.{
  same_transport, normalize_bus, normalize_backend, transports, BackendItem, DeviceItem, Place,
  i2c_place, spi_place, uart_place, normalize_place, normalize_device,
}
use sensorium.Normalize.Export.{transport_of}
use sensorium.Normalize.{
  Buses, name_taken, bus_refused, refuse_if, normalize_buses, same_spot, same_place, device_refused,
  normalize_devices, expect_schema_version, ModelItem, normalize_model,
}

-- the relation holds between each item and those behind it
abbrev pub Pairwise {ℓ} : {A : Type ℓ} → (A → A → Type 0) → List A → Type 0
Pairwise R [] = Unit
Pairwise R (x ∷ xs) = AllOf (R x) xs × Pairwise R xs

module _ {ℓ} {A : Type ℓ} where
  pub Pairwise-concat :
      (R : A → A → Type 0) (xs : List A) (y : A)
      → Pairwise R xs
      → AllOf (λ x. R x y) xs
      → Pairwise R (xs ++ y ∷ [])
  Pairwise-concat R [] y h p = (tt, tt)
  Pairwise-concat R (x ∷ xs) y h p =
      (AllOf-concat (R x) xs y h.0 p.0, Pairwise-concat R xs y h.1 p.1)

-- where a device stands: the bus and the address or chip select, or the port, which no bus has to itself
abbrev pub spot_of : Text → Place → Transport × Text × ℕ
spot_of bus (i2c_place address script) = (i2c, bus, address)
spot_of bus (spi_place chip_select name settings script) = (spi, bus, chip_select)
spot_of bus (uart_place port settings script) = (uart, port, 0)

abbrev pub spot : DeviceItem → Transport × Text × ℕ
spot d = spot_of d.bus d.place

abbrev pub bus_label : BusSpec → Transport × Text
bus_label b = (b.transport, b.name)

abbrev pub BusesDiffer : Text × BusSpec → Text × BusSpec → Type 0
BusesDiffer (j, b) (k, c) = (b.id ≢ c.id) × (bus_label b ≢ bus_label c)

abbrev pub DevicesDiffer : DeviceItem → DeviceItem → Type 0
DevicesDiffer d e = (d.id ≢ e.id) × (spot d ≢ spot e)

-- the device is on a bus of the model, and of its transport
abbrev pub OnBus : Buses → DeviceItem → Type 0
OnBus buses d =
    (b : BusSpec) × (lookup bytes_eq d.bus buses ≡ some b) × (transport_of d.place ≡ b.transport)

pub record IsSound (m : ModelItem) : Type 0 where
  pub buses_differ : Pairwise BusesDiffer m.buses
  pub devices_differ : Pairwise DevicesDiffer m.devices
  pub on_buses : AllOf (OnBus m.buses) m.devices

pub same_transport_iff : (t u : Transport) → same_transport t u ≡ true → t ≡ u
same_transport_iff i2c i2c h = refl
same_transport_iff spi spi h = refl
same_transport_iff uart uart h = refl
same_transport_iff i2c spi h = cc
same_transport_iff i2c uart h = cc
same_transport_iff spi i2c h = cc
same_transport_iff spi uart h = cc
same_transport_iff uart i2c h = cc
same_transport_iff uart spi h = cc

pub same_transport_refl : (t : Transport) → same_transport t t ≡ true
same_transport_refl i2c = refl
same_transport_refl spi = refl
same_transport_refl uart = refl

-- two places that are one give the answer `true`
pub same_spot_iff :
    (b : Text) (p : Place) (b' : Text) (p' : Place)
    → spot_of b p ≡ spot_of b' p'
    → same_spot b p b' p' ≡ true
same_spot_iff b (i2c_place a script) b' (i2c_place a' script') h = ground (arith, bytes_eq_iff b b')
same_spot_iff b (spi_place c n s script) b' (spi_place c' n' s' script') h =
    ground (arith, bytes_eq_iff b b')
same_spot_iff b (uart_place p s script) b' (uart_place p' s' script') h =
    ground (arith, bytes_eq_iff p p')
same_spot_iff b (i2c_place a script) b' (spi_place c' n' s' script') h = cc
same_spot_iff b (i2c_place a script) b' (uart_place p' s' script') h = cc
same_spot_iff b (spi_place c n s script) b' (i2c_place a' script') h = cc
same_spot_iff b (spi_place c n s script) b' (uart_place p' s' script') h = cc
same_spot_iff b (uart_place p s script) b' (i2c_place a' script') h = cc
same_spot_iff b (uart_place p s script) b' (spi_place c' n' s' script') h = cc

label_taken :
    (b c : BusSpec)
    → bus_label c ≡ bus_label b
    → (same_transport b.transport c.transport && bytes_eq c.name b.name) ≡ true
label_taken b c h =
    let t : c.transport ≡ b.transport = ap (λ (p : Transport × Text). p.0) h in
    let n : c.name ≡ b.name = ap (λ (p : Transport × Text). p.1) h in
    ap₂ ◌&&◌ (ap (same_transport b.transport) t ∙ same_transport_refl b.transport)
      ((bytes_eq_iff c.name b.name).1 n)

-- what the tests of a bus against those before it say
abbrev KeyIsId : Text × BusSpec → Type 0
KeyIsId (id, b) = id ≡ b.id

buses_before :
    (b : BusSpec) (bs : Buses)
    → name_taken b.transport b.name bs ≡ false
    → lookup bytes_eq b.id bs ≡ none
    → AllOf KeyIsId bs
    → AllOf (λ p. BusesDiffer p (b.id, b)) bs
unfolding lookup
buses_before b [] h l keys = tt
buses_before b ((id, c) ∷ bs) h l keys =
    let free =
      or_false (same_transport b.transport c.transport && bytes_eq c.name b.name)
        (name_taken b.transport b.name bs) h in
    elim (Bool-cases (bytes_eq id b.id)) [
      | inl same ↦ let l' : some c ≡ none = rw same at l in absurd (ground arith)
      | inr apart ↦ (
        (
          (λ e. let e' : bytes_eq id b.id ≡ true = (bytes_eq_iff id b.id).1 (keys.0 ∙ e) in cc),
          (λ e. let e' = label_taken b c e in cc),
        ),
        buses_before b bs free.1 (rw apart at l) keys.1,
      )
    ]

bus_refused-Differ :
    (b : BusSpec) (bs : Buses)
    → bus_refused b bs ≡ false
    → AllOf KeyIsId bs
    → AllOf (λ p. BusesDiffer p (b.id, b)) bs
bus_refused-Differ b bs h keys = elim (Option-cases (lookup bytes_eq b.id bs)) [
  | inl e ↦ buses_before b bs (rw (e, bus_refused) at h) e keys
  | inr (c, e) ↦ let h' : true ≡ false = rw (e, bus_refused) at h in cc
]

pub refuse_if_iff :
    {A : Type 0} (b : Bool) (a a' : A) → refuse_if b a ≡ ok a' → (b ≡ false) × (a ≡ a')
refuse_if_iff true a a' h = absurd (ground arith)
refuse_if_iff false a a' h = (refl, ground arith)

pub normalize_buses-Differ :
    (bs : Buses) (vs : List Value)
    → AllOf KeyIsId bs
    → Pairwise BusesDiffer bs
    → Ensures (λ bs'. Pairwise BusesDiffer bs') (normalize_buses bs vs)
unfolding normalize_buses
normalize_buses-Differ bs [] keys d = Ensures-ok _ d
normalize_buses-Differ bs (v ∷ vs) keys d = Ensures-bind _ (normalize_bus v) _ (λ b e.
    Ensures-bind _ (refuse_if (bus_refused b bs) b) _ (λ b' e'.
      let (free, same) = refuse_if_iff (bus_refused b bs) b b' e' in
      let before = bus_refused-Differ b bs free keys in
      normalize_buses-Differ (bs ++ (b'.id, b') ∷ []) vs
        (AllOf-concat KeyIsId bs (b'.id, b') keys refl)
        (Pairwise-concat BusesDiffer bs (b'.id, b') d
          (subst (λ c. AllOf (λ p. BusesDiffer p (c.id, c)) bs) same before))))
