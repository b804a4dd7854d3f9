-- ===== src/Normalize/Restore/Settings.antt =====
-- src/sensorium/runtime/model_base.py, the settings of a device, over what they gave; and what
-- src/sensorium/runtime/uart.py makes of them when the kernel configures a port.
use sensorium.Base.{
  ℕ, ◌≤◌, ◌≡◌, refl, arith, false, Bool-cases, inl, inr, Option, none, some, codes, lookup, leb,
  pos,
}
use sensorium.Base.Result.{
  ok, raise, runtime_error, Ensures, Ensures-ok, Ensures-bind, Ensures-elim,
}
use sensorium.Device.{
  SpiSettings, UartSettings, Parity, parity_none, parity_odd, parity_even, Settings, uart_settings,
}
use sensorium.Runtime.UartRequest.{UartConfig, derive_uart_settings}
use sensorium.Normalize.Values.{Value, bool, int, str, get, or_else, expect_mapping, expect_bool}
use sensorium.Normalize.Words.{strip}
use sensorium.Normalize.Expect.{expect_string, expect_hex_int}
use sensorium.Normalize.Parts.{parities, one_of, normalize_spi_settings, normalize_uart_settings}
use sensorium.Normalize.Export.{number_value, parity_text, spi_settings_value, uart_settings_value}
use sensorium.Normalize.Restore.Numbers.{expect_hex_int_again}

abbrev pub SpiAgain : SpiSettings → Type 0
SpiAgain s = normalize_spi_settings (spi_settings_value s) ≡ ok s

spi_settings_again : (v : Value) → Ensures SpiAgain (normalize_spi_settings v)
unfolding normalize_spi_settings
spi_settings_again v = Ensures-bind SpiAgain (expect_mapping v) _ (λ fs e0.
    Ensures-bind SpiAgain
      (expect_hex_int 0 (some 3) (or_else (int (pos 0)) (get (codes "mode") fs))) _
      (λ m e1.
        Ensures-bind SpiAgain
          (expect_hex_int 1 (some 32) (or_else (int (pos 8)) (get (codes "bits_per_word") fs))) _
          (λ b e2.
            Ensures-bind SpiAgain
              (expect_hex_int 1 none (or_else (int (pos 500000)) (get (codes "max_speed_hz") fs))) _
              (λ s e3. Ensures-ok SpiAgain (
                rw
                  (
                    expect_hex_int_again 0 (some 3) (or_else (int (pos 0)) (get (codes "mode") fs))
                        m e1,
                    expect_hex_int_again 1 (some 32)
                        (or_else (int (pos 8)) (get (codes "bits_per_word") fs)) b e2,
                    expect_hex_int_again 1 none
                        (or_else (int (pos 500000)) (get (codes "max_speed_hz") fs)) s e3,
                  )
                  refl)))))

pub spi_settings_restored :
    (v : Value) (s : SpiSettings)
    → normalize_spi_settings v ≡ ok s
    → normalize_spi_settings (spi_settings_value s) ≡ ok s
spi_settings_restored v s h =
    Ensures-elim SpiAgain (normalize_spi_settings v) s (spi_settings_again v) h

parity_again : (p : Parity) → one_of parities (str (parity_text p)) ≡ ok p
unfolding expect_string strip lookup
parity_again parity_none = refl
parity_again parity_odd = refl
parity_again parity_even = refl

-- the settings of a port that normalization accepts; the termios words are not part of a model
abbrev pub without_flags : UartSettings → UartSettings
without_flags s = record s { flags = none }

uart_keys :
    (s : UartSettings)
    → expect_hex_int 5 (some 8) (number_value s.data_bits) ≡ ok s.data_bits
    → expect_hex_int 1 (some 2) (number_value s.stop_bits) ≡ ok s.stop_bits
    → expect_hex_int 1 none (number_value s.baud_rate) ≡ ok s.baud_rate
    → normalize_uart_settings (uart_settings_value s) ≡ ok (without_flags s)
unfolding normalize_uart_settings
uart_keys s hd hs hb = rw (parity_again s.parity, hd, hs, hb) refl

abbrev pub UartAgain : UartSettings → Type 0
UartAgain s = (normalize_uart_settings (uart_settings_value s) ≡ ok s) × (1 ≤ s.baud_rate)

expect_hex_int-min :
    (lo n : ℕ) (hi : Option ℕ) → expect_hex_int lo hi (number_value n) ≡ ok n → lo ≤ n
unfolding expect_hex_int
expect_hex_int-min lo n hi h = elim (Bool-cases (leb lo n)) [
  | inl fits ↦ ground arith
  | inr misses ↦ let h' : raise runtime_error ≡ ok n = rw misses at h in absurd (ground arith)
]

uart_settings_again : (v : Value) → Ensures UartAgain (normalize_uart_settings v)
unfolding normalize_uart_settings
uart_settings_again v = Ensures-bind UartAgain (expect_mapping v) _ (λ fs e0.
    Ensures-bind UartAgain
      (one_of parities (or_else (str (codes "none")) (get (codes "parity") fs))) _
      (λ p e1.
        Ensures-bind UartAgain
          (expect_hex_int 5 (some 8) (or_else (int (pos 8)) (get (codes "data_bits") fs))) _
          (λ d e2.
            Ensures-bind UartAgain
              (expect_hex_int 1 (some 2) (or_else (int (pos 1)) (get (codes "stop_bits") fs))) _
              (λ st e3.
                Ensures-bind UartAgain
                  (expect_hex_int 1 none (or_else (int (pos 115200)) (get (codes "baud_rate") fs)))
                  _
                  (λ b e4.
                    Ensures-bind UartAgain
                      (expect_bool (or_else (bool false) (get (codes "xonxoff") fs))) _
                      (λ x e5.
                        Ensures-bind UartAgain
                          (expect_bool (or_else (bool false) (get (codes "rtscts") fs))) _
                          (λ r e6.
                            let hb =
                              expect_hex_int_again 1 none
                                (or_else (int (pos 115200)) (get (codes "baud_rate") fs)) b e4 in
                            Ensures-ok UartAgain (
                              uart_keys
                                  (record {
                                    baud_rate = b;
                                    data_bits = d;
                                    parity = p;
                                    stop_bits = st;
                                    xonxoff = x;
                                    rtscts = r;
                                    flags = none;
                                  })
                                  (expect_hex_int_again 5 (some 8)
                                    (or_else (int (pos 8)) (get (codes "data_bits") fs)) d e2)
                                  (expect_hex_int_again 1 (some 2)
                                    (or_else (int (pos 1)) (get (codes "stop_bits") fs)) st e3)
                                  hb,
                              expect_hex_int-min 1 b none hb,
                            ))))))))

pub uart_settings_restored :
    (v : Value) (s : UartSettings) → normalize_uart_settings v ≡ ok s → UartAgain s
uart_settings_restored v s h =
    Ensures-elim UartAgain (normalize_uart_settings v) s (uart_settings_again v) h

number_fits : (lo hi n : ℕ) → lo ≤ n → n ≤ hi → expect_hex_int lo (some hi) (number_value n) ≡ ok n
unfolding expect_hex_int
number_fits lo hi n p q = ground arith

number_over : (lo n : ℕ) → lo ≤ n → expect_hex_int lo none (number_value n) ≡ ok n
unfolding expect_hex_int
number_over lo n p = ground arith

derived_data_bits :
    (old : Settings) (c : UartConfig)
    → (5 ≤ (derive_uart_settings old c).data_bits) × ((derive_uart_settings old c).data_bits ≤ 8)
unfolding derive_uart_settings
derived_data_bits old c = omega arith

derived_stop_bits :
    (old : Settings) (c : UartConfig)
    → (1 ≤ (derive_uart_settings old c).stop_bits) × ((derive_uart_settings old c).stop_bits ≤ 2)
unfolding derive_uart_settings
derived_stop_bits old c = ground arith

derived_baud_rate :
    (old : UartSettings) (c : UartConfig)
    → 1 ≤ old.baud_rate
    → 1 ≤ (derive_uart_settings (uart_settings old) c).baud_rate
unfolding derive_uart_settings
derived_baud_rate old c h = ground arith

-- Whatever the kernel configures a port to, its exported settings are accepted again, and are those that
-- the daemon keeps, less the termios words. The settings before had a baud rate, as accepted ones do.
pub derived_settings_restored :
    (old : UartSettings) (c : UartConfig)
    → 1 ≤ old.baud_rate
    → normalize_uart_settings (uart_settings_value (derive_uart_settings (uart_settings old) c))
      ≡ ok (without_flags (derive_uart_settings (uart_settings old) c))
derived_settings_restored old c h =
    let s = derive_uart_settings (uart_settings old) c in
    uart_keys s
      (number_fits 5 8 s.data_bits (derived_data_bits (uart_settings old) c).0
        (derived_data_bits (uart_settings old) c).1)
      (number_fits 1 2 s.stop_bits (derived_stop_bits (uart_settings old) c).0
        (derived_stop_bits (uart_settings old) c).1)
      (number_over 1 s.baud_rate (derived_baud_rate old c h))
