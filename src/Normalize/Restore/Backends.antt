-- ===== src/Normalize/Restore/Backends.antt =====
-- src/sensorium/runtime/model_normalize.py, the SPI and UART scripts and the worker of a backend, over what it gave.
use sensorium.Base.{
  ◌≡◌, refl, Bool, true, false, List, [], ◌++◌, Option, none, some, Bytes, codes, bytes_eq, pos,
}
use sensorium.Base.Result.{ok, Ensures, Ensures-ok, Ensures-bind, Ensures-elim}
use sensorium.Normalize.Values.{
  Value, null, bool, int, str, Fields, get, or_else, pairs, of_pairs, expect_mapping, expect_bool,
}
use sensorium.Normalize.Expect.{expect_string, expect_text, expect_hex_int, expect_bytes}
use sensorium.Normalize.Parts.{collect}
use sensorium.Normalize.Items.{
  TemplateKind, by_template, Flash, SpiScript, flash_of, normalize_spi_script, UartScript,
  normalize_uart_script,
}
use sensorium.Normalize.Export.{
  entries, number_value, bytes_value, key_text, backend_entries, spi_entries, uart_entries,
}
use sensorium.Normalize.Restore.Texts.{expect_string_again, expect_text_again}
use sensorium.Normalize.Restore.Numbers.{expect_hex_int_again}
use sensorium.Normalize.Restore.HexBytes.{AllBytes, expect_bytes-bytes_hex}
use sensorium.Normalize.Restore.Dicts.{collect_all_again}
use sensorium.Normalize.Restore.Parts.{OptionOf}
use sensorium.Normalize.Restore.Scripts.{BytesPairs, byte_pairs_again}

abbrev pub FlashBytes : Flash → Type 0
FlashBytes f = AllBytes f.jedec_id

pub record SpiBytes (s : SpiScript) : Type 0 where
  pub of_responses : BytesPairs s.responses
  pub of_prefixes : BytesPairs s.prefix_responses
  pub of_default : AllBytes s.default_response
  pub of_flash : OptionOf FlashBytes s.flash

-- the numbers of an exported flash part are accepted
abbrev FlashRead : Flash → Type 0
FlashRead f =
    (expect_hex_int 0 (some 255) (number_value f.status_register) ≡ ok f.status_register)
    × (expect_hex_int 0 (some 255) (number_value f.write_busy_cycles) ≡ ok f.write_busy_cycles)

flash_again : (ov : Option Value) (fs : Fields) → Ensures (OptionOf FlashRead) (flash_of ov fs)
flash_again none fs = Ensures-ok (OptionOf FlashRead) tt
flash_again (some v) fs = Ensures-bind (OptionOf FlashRead) (expect_bytes v) _ (λ id e0.
    Ensures-bind (OptionOf FlashRead)
      (expect_hex_int 0 (some 255) (or_else (int (pos 0)) (get (codes "flash_status_register") fs)))
      _
      (λ st e1.
        Ensures-bind (OptionOf FlashRead)
          (expect_hex_int 0 (some 255)
            (or_else (int (pos 0)) (get (codes "flash_write_busy_cycles") fs)))
          _
          (λ c e2. Ensures-ok (OptionOf FlashRead) (
            expect_hex_int_again 0 (some 255)
                (or_else (int (pos 0)) (get (codes "flash_status_register") fs)) st e1,
            expect_hex_int_again 0 (some 255)
                (or_else (int (pos 0)) (get (codes "flash_write_busy_cycles") fs)) c e2,
          ))))

spi_keys :
    (kind : TemplateKind) (rs ps : List (Bytes × Bytes)) (d : Bytes) (echo : Bool)
    (flash : Option Flash)
    → collect bytes_eq expect_bytes expect_bytes []
        (pairs (of_pairs (entries bytes_value bytes_value rs)))
      ≡ ok rs
    → collect bytes_eq expect_bytes expect_bytes []
        (pairs (of_pairs (entries bytes_value bytes_value ps)))
      ≡ ok ps
    → expect_bytes (bytes_value d) ≡ ok d
    → OptionOf FlashBytes flash
    → OptionOf FlashRead flash
    → normalize_spi_script (
        of_pairs (
          backend_entries (by_template kind)
          ++ spi_entries (record {
            responses = rs;
            prefix_responses = ps;
            default_response = d;
            echo = echo;
            flash = flash;
          })))
      ≡ ok (record {
        responses = rs;
        prefix_responses = ps;
        default_response = d;
        echo = echo;
        flash = flash;
      })
unfolding normalize_spi_script
spi_keys kind rs ps d echo none hr hp hd good hf = rw (hr, hp, hd) refl
spi_keys kind rs ps d echo (some f) hr hp hd good hf =
    rw (hr, hp, hd, expect_bytes-bytes_hex f.jedec_id good, hf.0, hf.1) refl

abbrev pub SpiAgain : TemplateKind → SpiScript → Type 0
SpiAgain kind s =
    SpiBytes s
    → normalize_spi_script (of_pairs (backend_entries (by_template kind) ++ spi_entries s)) ≡ ok s

spi_again : (kind : TemplateKind) (fs : Fields) → Ensures (SpiAgain kind) (normalize_spi_script fs)
unfolding normalize_spi_script
spi_again kind fs =
    Ensures-bind (SpiAgain kind) (expect_mapping (or_else null (get (codes "responses") fs))) _
      (λ rs e0.
        Ensures-bind (SpiAgain kind) (collect bytes_eq expect_bytes expect_bytes [] (pairs rs)) _
          (λ responses e1.
            Ensures-bind (SpiAgain kind)
              (expect_mapping (or_else null (get (codes "prefix_responses") fs))) _
              (λ ps e2.
                Ensures-bind (SpiAgain kind)
                  (collect bytes_eq expect_bytes expect_bytes [] (pairs ps)) _
                  (λ prefixes e3.
                    Ensures-bind (SpiAgain kind)
                      (expect_bytes (or_else (str []) (get (codes "default_response") fs))) _
                      (λ d e4.
                        Ensures-bind (SpiAgain kind)
                          (expect_bool (or_else (bool false) (get (codes "echo") fs))) _
                          (λ echo e5.
                            Ensures-bind (SpiAgain kind)
                              (flash_of (get (codes "flash_jedec_id") fs) fs) _
                              (λ flash e6. Ensures-ok (SpiAgain kind) (λ good.
                                spi_keys kind responses prefixes d echo flash
                                  (byte_pairs_again (pairs rs) responses e1 good.of_responses)
                                  (byte_pairs_again (pairs ps) prefixes e3 good.of_prefixes)
                                  (expect_bytes-bytes_hex d good.of_default) good.of_flash
                                  (Ensures-elim (OptionOf FlashRead)
                                    (flash_of (get (codes "flash_jedec_id") fs) fs) flash
                                    (flash_again (get (codes "flash_jedec_id") fs) fs) e6)))))))))

pub spi_restored :
    (kind : TemplateKind) (fs : Fields) (s : SpiScript)
    → normalize_spi_script fs ≡ ok s
    → SpiAgain kind s
spi_restored kind fs s h =
    Ensures-elim (SpiAgain kind) (normalize_spi_script fs) s (spi_again kind fs) h

pub record UartBytes (s : UartScript) : Type 0 where
  pub of_binaries : BytesPairs s.binary_responses
  pub of_default : AllBytes s.default_response

uart_keys :
    (kind : TemplateKind) (s : UartScript)
    → collect bytes_eq expect_string expect_text []
        (pairs (of_pairs (entries key_text key_text s.line_responses)))
      ≡ ok s.line_responses
    → collect bytes_eq expect_bytes expect_bytes []
        (pairs (of_pairs (entries bytes_value bytes_value s.binary_responses)))
      ≡ ok s.binary_responses
    → expect_bytes (bytes_value s.default_response) ≡ ok s.default_response
    → collect bytes_eq expect_string expect_bool []
        (pairs (of_pairs (entries key_text bool s.control_defaults)))
      ≡ ok s.control_defaults
    → normalize_uart_script (of_pairs (backend_entries (by_template kind) ++ uart_entries s)) ≡ ok s
unfolding normalize_uart_script
uart_keys kind s hl hb hd hc = rw (hl, hb, hd, hc) refl

abbrev pub UartAgain : TemplateKind → UartScript → Type 0
UartAgain kind s =
    UartBytes s
    → normalize_uart_script (of_pairs (backend_entries (by_template kind) ++ uart_entries s)) ≡ ok s

uart_again :
    (kind : TemplateKind) (fs : Fields) → Ensures (UartAgain kind) (normalize_uart_script fs)
unfolding normalize_uart_script
uart_again kind fs =
    Ensures-bind (UartAgain kind) (expect_mapping (or_else null (get (codes "line_responses") fs)))
      _
      (λ ls e0.
        Ensures-bind (UartAgain kind) (collect bytes_eq expect_string expect_text [] (pairs ls)) _
          (λ lines e1.
            Ensures-bind (UartAgain kind)
              (expect_mapping (or_else null (get (codes "binary_responses") fs))) _
              (λ bs e2.
                Ensures-bind (UartAgain kind)
                  (collect bytes_eq expect_bytes expect_bytes [] (pairs bs)) _
                  (λ binaries e3.
                    Ensures-bind (UartAgain kind)
                      (expect_bool (or_else (bool true) (get (codes "echo") fs))) _
                      (λ echo e4.
                        Ensures-bind (UartAgain kind)
                          (expect_bytes (or_else (str []) (get (codes "default_response") fs))) _
                          (λ d e5.
                            Ensures-bind (UartAgain kind)
                              (expect_mapping (or_else null (get (codes "control_defaults") fs))) _
                              (λ cs e6.
                                Ensures-bind (UartAgain kind)
                                  (collect bytes_eq expect_string expect_bool [] (pairs cs)) _
                                  (λ controls e7.
                                    Ensures-bind (UartAgain kind)
                                      (expect_bool
                                        (or_else (bool false) (get (codes "cts_follows_rts") fs)))
                                      _
                                      (λ cts e8.
                                        Ensures-bind (UartAgain kind)
                                          (expect_bool (
                                            or_else (bool false)
                                              (get (codes "carrier_follows_dtr") fs)))
                                          _
                                          (λ carrier e9. Ensures-ok (UartAgain kind) (λ good.
                                            uart_keys kind
                                              (record {
                                                echo = echo;
                                                line_responses = lines;
                                                binary_responses = binaries;
                                                default_response = d;
                                                control_defaults = controls;
                                                cts_follows_rts = cts;
                                                carrier_follows_dtr = carrier;
                                              })
                                              (collect_all_again bytes_eq expect_string expect_text
                                                key_text key_text (pairs ls) lines e1
                                                expect_string_again expect_text_again)
                                              (byte_pairs_again (pairs bs) binaries e3
                                                good.of_binaries)
                                              (expect_bytes-bytes_hex d good.of_default)
                                              (collect_all_again bytes_eq expect_string expect_bool
                                                key_text bool (pairs cs) controls e7
                                                expect_string_again (λ v b h. refl)))))))))))))

pub uart_restored :
    (kind : TemplateKind) (fs : Fields) (s : UartScript)
    → normalize_uart_script fs ≡ ok s
    → UartAgain kind s
uart_restored kind fs s h =
    Ensures-elim (UartAgain kind) (normalize_uart_script fs) s (uart_again kind fs) h
