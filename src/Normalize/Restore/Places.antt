-- ===== src/Normalize/Restore/Places.antt =====
-- src/sensorium/runtime/model_normalize.py, the part of a device that depends on its transport, over what it gave.
use sensorium.Base.{
  ℕ, ◌≡◌, refl, subst, true, false, ◌∷◌, ◌++◌, Option, none, some, Text, codes, bytes_eq,
}
use sensorium.Base.Result.{
  Result, ok, raise, ◌>>=◌, Ensures, Ensures-ok, Ensures-bind, Ensures-elim,
}
use sensorium.Normalize.Values.{Value, null, str, Fields, get, or_else, of_pairs}
use sensorium.Normalize.Expect.{checked, expect_hex_int}
use sensorium.Normalize.Items.{
  TemplateKind, BackendItem, by_template, by_controller, WorkerItem, SpiScript,
  normalize_spi_script, UartScript, normalize_uart_script,
}
use sensorium.Normalize.Export.{number_value, backend_entries}
use sensorium.Normalize.Restore.Texts.{expect_name_again, checked_again, checked-eq}
use sensorium.Normalize.Restore.Numbers.{expect_hex_int_again}
use sensorium.Normalize.Restore.Parts.{OptionOf}
use sensorium.Template.I2c
use sensorium.Device.{Transport, i2c, spi, uart, SpiSettings, UartSettings}
use sensorium.Normalize.Expect.{text_where, is_port_name, expect_name}
use sensorium.Normalize.Parts.{normalize_bank, normalize_spi_settings, normalize_uart_settings}
use sensorium.Normalize.Items.{
  Place, i2c_place, spi_place, uart_place, is_template, if_template, spidev_name, normalize_place,
}
use sensorium.Normalize.Export.{
  place_script, place_entries, spi_settings_value, uart_settings_value,
}
use sensorium.Normalize.Restore.Texts.{text_where_again}
use sensorium.Normalize.Restore.Settings.{spi_settings_restored, uart_settings_restored}
use sensorium.Normalize.Restore.Scripts.{BankAgain, bank_restored}
use sensorium.Normalize.Restore.Backends.{
  SpiBytes, SpiAgain, spi_restored, UartBytes, UartAgain, uart_restored,
}

-- the byte strings of a place are bytes
abbrev pub PlaceBytes : Place → Type 0
PlaceBytes (i2c_place address script) = Unit
PlaceBytes (spi_place chip_select name settings script) = OptionOf SpiBytes script
PlaceBytes (uart_place port settings script) = OptionOf UartBytes script

-- the mapping of an exported device
abbrev pub item_of : Value → Value → Value → Value → Value → Value → Place → Fields
item_of id bus transport backend metadata faults p = of_pairs (
    (str (codes "id"), id)
    ∷ (str (codes "bus"), bus)
    ∷ (str (codes "transport"), transport)
    ∷ (str (codes "backend"), backend)
    ∷ (str (codes "metadata"), metadata)
    ∷ (str (codes "faults"), faults)
    ∷ place_entries p)

if_template-true :
    {A : Type 0} (r : Result A) (o : Option A)
    → if_template true r ≡ ok o
    → (a : A) × (r ≡ ok a) × (some a ≡ o)
if_template-true (ok a) o h = (a, refl, cc)
if_template-true (raise e) o h = cc

none_script : {A : Type 0} (r : Result A) (o : Option A) → if_template false r ≡ ok o → none ≡ o
none_script r o h = cc

module _ (bus_name : Text) (i b t k m f : Value) where
  abbrev pub PlaceAgain : Transport → BackendItem → Place → Type 0
  PlaceAgain transport backend p =
      PlaceBytes p
      → normalize_place transport bus_name backend
          (of_pairs (backend_entries backend ++ place_script p)) (item_of i b t k m f p)
        ≡ ok p

  i2c_keys :
      (kind : TemplateKind) (a : ℕ) (s : I2c.Backend)
      → expect_hex_int 0 (some 127) (number_value a) ≡ ok a
      → BankAgain kind s
      → PlaceAgain i2c (by_template kind) (i2c_place a (some s))
  unfolding normalize_place
  i2c_keys kind a s ha hs good = rw (ha, hs) refl

  i2c_bare_keys :
      (w : Option WorkerItem) (a : ℕ)
      → expect_hex_int 0 (some 127) (number_value a) ≡ ok a
      → PlaceAgain i2c (by_controller w) (i2c_place a none)
  unfolding normalize_place
  i2c_bare_keys w a ha good = rw ha refl

  i2c_again :
      (backend : BackendItem) (fs item : Fields)
      → Ensures (PlaceAgain i2c backend) (normalize_place i2c bus_name backend fs item)
  unfolding normalize_place
  i2c_again (by_template kind) fs item =
      Ensures-bind (PlaceAgain i2c (by_template kind))
        (expect_hex_int 0 (some 127) (or_else null (get (codes "address") item))) _
        (λ a e0.
          Ensures-bind (PlaceAgain i2c (by_template kind)) (if_template true (normalize_bank fs)) _
            (λ o e1.
              let (s, hs, same) = if_template-true (normalize_bank fs) o e1 in
              Ensures-ok (PlaceAgain i2c (by_template kind)) (
                subst (λ o'. PlaceAgain i2c (by_template kind) (i2c_place a o')) same
                  (i2c_keys kind a s
                    (expect_hex_int_again 0 (some 127) (or_else null (get (codes "address") item)) a
                      e0)
                    (bank_restored kind fs s hs)))))
  i2c_again (by_controller w) fs item =
      Ensures-bind (PlaceAgain i2c (by_controller w))
        (expect_hex_int 0 (some 127) (or_else null (get (codes "address") item))) _
        (λ a e0.
          Ensures-bind (PlaceAgain i2c (by_controller w)) (if_template false (normalize_bank fs)) _
            (λ o e1. Ensures-ok (PlaceAgain i2c (by_controller w)) (
              subst (λ o'. PlaceAgain i2c (by_controller w) (i2c_place a o'))
                (none_script (normalize_bank fs) o e1)
                (i2c_bare_keys w a (
                  expect_hex_int_again 0 (some 127) (or_else null (get (codes "address") item)) a
                    e0)))))

  spi_keys :
      (kind : TemplateKind) (c : ℕ) (n : Text) (st : SpiSettings) (s : SpiScript)
      → expect_hex_int 0 (some 255) (number_value c) ≡ ok c
      → expect_name (str n) ≡ ok n
      → checked (bytes_eq n (spidev_name bus_name c)) n ≡ ok n
      → normalize_spi_settings (spi_settings_value st) ≡ ok st
      → SpiAgain kind s
      → PlaceAgain spi (by_template kind) (spi_place c n st (some s))
  unfolding normalize_place
  spi_keys kind c n st s hc hn hx ht hs good = rw (hc, hn, hx, ht, hs good) refl

  spi_bare_keys :
      (w : Option WorkerItem) (c : ℕ) (n : Text) (st : SpiSettings)
      → expect_hex_int 0 (some 255) (number_value c) ≡ ok c
      → expect_name (str n) ≡ ok n
      → checked (bytes_eq n (spidev_name bus_name c)) n ≡ ok n
      → normalize_spi_settings (spi_settings_value st) ≡ ok st
      → PlaceAgain spi (by_controller w) (spi_place c n st none)
  unfolding normalize_place
  spi_bare_keys w c n st hc hn hx ht good = rw (hc, hn, hx, ht) refl

  spi_script :
      (backend : BackendItem) (fs : Fields) (c : ℕ) (n : Text) (st : SpiSettings)
      → expect_hex_int 0 (some 255) (number_value c) ≡ ok c
      → expect_name (str n) ≡ ok n
      → checked (bytes_eq n (spidev_name bus_name c)) n ≡ ok n
      → normalize_spi_settings (spi_settings_value st) ≡ ok st
      → Ensures (PlaceAgain spi backend) (
          if_template (is_template backend) (normalize_spi_script fs) >>= λ script.
          ok (spi_place c n st script))
  spi_script (by_template kind) fs c n st hc hn hx ht =
      Ensures-bind (PlaceAgain spi (by_template kind)) (if_template true (normalize_spi_script fs))
        _
        (λ o e.
          let (s, hs, same) = if_template-true (normalize_spi_script fs) o e in
          Ensures-ok (PlaceAgain spi (by_template kind)) (
            subst (λ o'. PlaceAgain spi (by_template kind) (spi_place c n st o')) same
              (spi_keys kind c n st s hc hn hx ht (spi_restored kind fs s hs))))
  spi_script (by_controller w) fs c n st hc hn hx ht =
      Ensures-ok (PlaceAgain spi (by_controller w)) (spi_bare_keys w c n st hc hn hx ht)

  spi_again :
      (backend : BackendItem) (fs item : Fields)
      → Ensures (PlaceAgain spi backend) (normalize_place spi bus_name backend fs item)
  unfolding normalize_place
  spi_again backend fs item =
      Ensures-bind (PlaceAgain spi backend)
        (expect_hex_int 0 (some 255) (or_else null (get (codes "chip_select") item))) _
        (λ c e0.
          let default = str (spidev_name bus_name c) in
          Ensures-bind (PlaceAgain spi backend)
            (expect_name (or_else default (get (codes "device_name") item))) _
            (λ n e1.
              Ensures-bind (PlaceAgain spi backend)
                (checked (bytes_eq n (spidev_name bus_name c)) n) _
                (λ n' e2.
                  Ensures-bind (PlaceAgain spi backend)
                    (normalize_spi_settings (or_else null (get (codes "settings") item))) _
                    (λ st e3.
                      let hc =
                        expect_hex_int_again 0 (some 255)
                          (or_else null (get (codes "chip_select") item)) c e0 in
                      let hn =
                        subst (λ x. expect_name (str x) ≡ ok x)
                          (checked-eq (bytes_eq n (spidev_name bus_name c)) n n' e2).1
                          (expect_name_again (or_else default (get (codes "device_name") item)) n
                            e1) in
                      let hx = checked_again (λ x. bytes_eq x (spidev_name bus_name c)) n n' e2 in
                      let ht =
                        spi_settings_restored (or_else null (get (codes "settings") item)) st e3 in
                      spi_script backend fs c n' st hc hn hx ht))))

  uart_keys :
      (kind : TemplateKind) (p : Text) (st : UartSettings) (s : UartScript)
      → text_where is_port_name (str p) ≡ ok p
      → normalize_uart_settings (uart_settings_value st) ≡ ok st
      → UartAgain kind s
      → PlaceAgain uart (by_template kind) (uart_place p st (some s))
  unfolding normalize_place
  uart_keys kind p st s hp ht hs good = rw (hp, ht, hs good) refl

  uart_bare_keys :
      (w : Option WorkerItem) (p : Text) (st : UartSettings)
      → text_where is_port_name (str p) ≡ ok p
      → normalize_uart_settings (uart_settings_value st) ≡ ok st
      → PlaceAgain uart (by_controller w) (uart_place p st none)
  unfolding normalize_place
  uart_bare_keys w p st hp ht good = rw (hp, ht) refl

  uart_script :
      (backend : BackendItem) (fs : Fields) (p : Text) (st : UartSettings)
      → text_where is_port_name (str p) ≡ ok p
      → normalize_uart_settings (uart_settings_value st) ≡ ok st
      → Ensures (PlaceAgain uart backend) (
          if_template (is_template backend) (normalize_uart_script fs) >>= λ script.
          ok (uart_place p st script))
  uart_script (by_template kind) fs p st hp ht =
      Ensures-bind (PlaceAgain uart (by_template kind))
        (if_template true (normalize_uart_script fs)) _
        (λ o e.
          let (s, hs, same) = if_template-true (normalize_uart_script fs) o e in
          Ensures-ok (PlaceAgain uart (by_template kind)) (
            subst (λ o'. PlaceAgain uart (by_template kind) (uart_place p st o')) same
              (uart_keys kind p st s hp ht (uart_restored kind fs s hs))))
  uart_script (by_controller w) fs p st hp ht =
      Ensures-ok (PlaceAgain uart (by_controller w)) (uart_bare_keys w p st hp ht)

  uart_again :
      (backend : BackendItem) (fs item : Fields)
      → Ensures (PlaceAgain uart backend) (normalize_place uart bus_name backend fs item)
  unfolding normalize_place
  uart_again backend fs item =
      let port =
        or_else (or_else null (get (codes "device_name") item)) (get (codes "port_name") item) in
      Ensures-bind (PlaceAgain uart backend) (text_where is_port_name port) _ (λ p e0.
        Ensures-bind (PlaceAgain uart backend)
          (normalize_uart_settings (or_else null (get (codes "settings") item))) _
          (λ st e1.
            uart_script backend fs p st (text_where_again is_port_name port p e0)
              (uart_settings_restored (or_else null (get (codes "settings") item)) st e1).0))

  pub place_restored :
      (transport : Transport) (backend : BackendItem) (fs item : Fields) (p : Place)
      → normalize_place transport bus_name backend fs item ≡ ok p
      → PlaceAgain transport backend p
  place_restored i2c backend fs item p h =
      Ensures-elim (PlaceAgain i2c backend) (normalize_place i2c bus_name backend fs item) p
        (i2c_again backend fs item) h
  place_restored spi backend fs item p h =
      Ensures-elim (PlaceAgain spi backend) (normalize_place spi bus_name backend fs item) p
        (spi_again backend fs item) h
  place_restored uart backend fs item p h =
      Ensures-elim (PlaceAgain uart backend) (normalize_place uart bus_name backend fs item) p
        (uart_again backend fs item) h
