-- ===== src/Normalize/Spec/Placed.antt =====
-- src/sensorium/runtime/inventory.py over the devices that src/sensorium/runtime/model.py accepts.
use sensorium.Base.{
  ℕ, ◌≡◌, refl, arith, Bool, true, false, not, ◌||◌, [], ◌∷◌, Text, length, ◌==◌, codes, AllOf,
  AllOf-map,
}
use sensorium.Base.Result.{ok, Ensures, Ensures-ok, Ensures-of, Ensures-bind, Ensures-elim}
use sensorium.Device.{Transport, i2c, spi, uart, Fault}
use sensorium.Bridge.Protocol
use sensorium.Bridge.Protocol.{split_digits, decimal, parse_tty_name}
use sensorium.Runtime.Inventory.{place_of}
use sensorium.Normalize.Words
use sensorium.Normalize.Words.{is_empty, is_letter}
use sensorium.Normalize.Expect
use sensorium.Normalize.Expect.{expect_string, checked, text_where, is_port_name, is_index}
use sensorium.Normalize.Values.{Value, Fields, null, get, or_else}
use sensorium.Normalize.Items.{
  DeviceItem, Place, i2c_place, spi_place, uart_place, BackendItem, is_template, if_template,
  normalize_place, normalize_uart_script,
}
use sensorium.Normalize.Parts.{normalize_uart_settings}
use sensorium.Normalize.{Buses, ModelItem, normalize_model}
use sensorium.Normalize.Spec.{spec_of}
use sensorium.Normalize.Unique.Model.{DeviceRead, normalize_place-transport, normalize_model-Read}
use sensorium.Normalize.Restore.Texts.{checked-eq}

base_chars :
    (s : Text)
    → Words.all (λ d. is_letter d || Words.is_digit d || d == b'_') s ≡ true
    → Protocol.all_of (λ c. Protocol.is_name_start c || Protocol.is_digit c) s ≡ true
base_chars [] h = refl
base_chars (c ∷ s) h = ground (arith, base_chars s)

base_accepted : (s : Text) → Expect.is_base s ≡ true → Protocol.is_base s ≡ true
base_accepted [] h = cc
base_accepted (c ∷ s) h = ground (arith, base_chars s)

has_length : (s : Text) → not (is_empty s) ≡ true → (length s == 0) ≡ false
has_length [] h = cc
has_length (c ∷ s) h = ground arith

base_has_length : (s : Text) → Expect.is_base s ≡ true → (length s == 0) ≡ false
base_has_length [] h = cc
base_has_length (c ∷ s) h = ground arith

-- the tests of `parse_tty_name`, which an accepted name passes
port_tests :
    (p : Text)
    → is_port_name p ≡ true
    → ((length p == 0) ≡ false)
      × (((length (split_digits p).1 == 0 || length (split_digits p).0 == 0) ≡ false)
          × (Protocol.is_base (split_digits p).0 ≡ true))
unfolding is_port_name is_index
port_tests p h = ground (
  arith,
  has_length p,
  has_length (split_digits p).1,
  base_has_length (split_digits p).0,
  base_accepted (split_digits p).0,
)

port_parsed : (p : Text) → is_port_name p ≡ true → (x : Text × ℕ) × (parse_tty_name p ≡ ok x)
unfolding parse_tty_name
port_parsed p h =
    let (some_name, (some_parts, base)) = port_tests p h in
    (((split_digits p).0, decimal 0 (split_digits p).1), rw (some_name, some_parts, base) refl)

-- a device for which the kernel's command can be packed
abbrev pub IsPlaced : DeviceItem → Type 0
IsPlaced d = (x : ℕ × Text) × (place_of (spec_of d) ≡ ok x)

abbrev PortNamed : Place → Type 0
PortNamed (uart_place port settings script) = is_port_name port ≡ true
PortNamed _ = Unit

checked-holds : (p : Text → Bool) (s : Text) → Ensures (λ t. p t ≡ true) (checked (p s) s)
checked-holds p s =
    Ensures-of (λ t. p t ≡ true) (checked (p s) s)
      (λ t e. let (fits, same) = checked-eq (p s) s t e in rw same at fits)

text_where-holds : (p : Text → Bool) (v : Value) → Ensures (λ t. p t ≡ true) (text_where p v)
text_where-holds p v = Ensures-bind (λ t. p t ≡ true) (expect_string v) _ (λ s e. checked-holds p s)

uart_place-Named :
    (n : Text) (b : BackendItem) (fs item : Fields)
    → Ensures PortNamed (normalize_place uart n b fs item)
unfolding normalize_place
uart_place-Named n b fs item =
    Ensures-bind PortNamed
      (text_where is_port_name
        (or_else (or_else null (get (codes "device_name") item)) (get (codes "port_name") item)))
      _
      (λ port e.
        Ensures-bind PortNamed
          (normalize_uart_settings (or_else null (get (codes "settings") item))) _
          (λ settings e1.
            Ensures-bind PortNamed (if_template (is_template b) (normalize_uart_script fs)) _
              (λ script e2. Ensures-ok PortNamed (
                Ensures-elim (λ t. is_port_name t ≡ true)
                  (text_where is_port_name (
                    or_else (or_else null (get (codes "device_name") item))
                      (get (codes "port_name") item)))
                  port (text_where-holds is_port_name _) e))))

place-Named :
    (t : Transport) (n : Text) (b : BackendItem) (fs item : Fields) (p : Place)
    → normalize_place t n b fs item ≡ ok p
    → PortNamed p
place-Named t n b fs item (i2c_place a s) h = tt
place-Named t n b fs item (spi_place c d s x) h = tt
place-Named uart n b fs item (uart_place p s x) h =
    Ensures-elim PortNamed (normalize_place uart n b fs item) (uart_place p s x)
      (uart_place-Named n b fs item) h
place-Named i2c n b fs item (uart_place p s x) h =
    let e = normalize_place-transport i2c n b fs item (uart_place p s x) h in cc
place-Named spi n b fs item (uart_place p s x) h =
    let e = normalize_place-transport spi n b fs item (uart_place p s x) h in cc

named-IsPlaced :
    (id bus : Text) (b : BackendItem) (meta : Fields) (faults : Fault) (p : Place)
    → PortNamed p
    → IsPlaced
        (record { id = id; bus = bus; backend = b; metadata = meta; faults = faults; place = p })
unfolding place_of spec_of
named-IsPlaced id bus b meta faults (i2c_place a s) h = ((a, id), refl)
named-IsPlaced id bus b meta faults (spi_place c n s x) h = ((c, n), refl)
named-IsPlaced id bus b meta faults (uart_place p s x) h =
    let (x, e) = port_parsed p h in ((x.1, p), rw e refl)

read-IsPlaced : (buses : Buses) (d : DeviceItem) → DeviceRead buses d → IsPlaced d
read-IsPlaced buses d r =
    named-IsPlaced d.id d.bus d.backend d.metadata d.faults d.place
      (place-Named r.bus.transport r.bus.name d.backend r.fs r.item d.place r.place_read)

-- For each device of a model that is accepted, the place that the kernel's command takes is there: the address or
-- the chip select, and for a port the number that its name ends in, which is read without an error.
pub accepted-IsPlaced :
    (v : Value) (m : ModelItem) → normalize_model v ≡ ok m → AllOf IsPlaced m.devices
accepted-IsPlaced v m h =
    AllOf-map (DeviceRead m.buses) IsPlaced m.devices (read-IsPlaced m.buses)
      (normalize_model-Read v m h)
