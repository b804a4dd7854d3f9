-- ===== src/Template/Uart/Tests.antt =====
-- The UART template at concrete inputs.
use sensorium.Base.{◌≡◌, refl, true, false, none, [], ◌∷◌, ◌++◌, Bytes, codes, lookup}
use sensorium.Template.Uart.{
  Script, partition, rstrip_cr, decode_from, line_reply, drain_lines, handle_uart,
  handle_uart_control, modem_defaults, collect_bits, decode_utf8,
}
use sensorium.Template.Uart.Lines.{OnlyLines, reads_join, buffer_has_no_newline}

abbrev modem : Script
modem = record {
  echo = false;
  line_responses = (codes "AT", codes "OK\r\n") ∷ [];
  binary_responses = [];
  default_response = [];
  control_defaults = (codes "CTS", true) ∷ (codes "ri", false) ∷ (codes "led", true) ∷ [];
  cts_follows_rts = true;
  carrier_follows_dtr = true;
  line_buffer = [];
}

lines_run :
    handle_uart modem (codes "AT\r\nx\nAT")
    ≡ (record modem { line_buffer = codes "AT" }, codes "OK\r\n")
unfolding handle_uart drain_lines partition rstrip_cr decode_from line_reply lookup
lines_run = refl

echo_runs : (handle_uart (record modem { echo = true }) (codes "AT\n")).1 ≡ codes "AT\nOK\r\n"
unfolding handle_uart drain_lines partition rstrip_cr decode_from line_reply lookup
echo_runs = refl

-- two and three bytes make a character, a stray byte none
decode_runs :
    decode_utf8 (0xc3 ∷ 0xa9 ∷ 0xe2 ∷ 0x82 ∷ 0xac ∷ 0xff ∷ 0xe2 ∷ 0x82 ∷ 0x41 ∷ [])
    ≡ 0xe9 ∷ 0x20ac ∷ 0x41 ∷ []
unfolding decode_from
decode_runs = refl

defaults_run : modem_defaults modem ≡ (0x0a0, 0x020)
unfolding modem_defaults collect_bits lookup
defaults_run = refl

control_runs :
    handle_uart_control modem 6 4
    ≡ (codes "cts", true) ∷ (codes "cd", false) ∷ (codes "dsr", false) ∷ []
unfolding handle_uart_control
control_runs = refl

modem-OnlyLines : OnlyLines modem
modem-OnlyLines = record { no_echo = refl; no_binary = refl; no_default = refl; some_lines = refl }

reads_join_example :
    let first : Script × Bytes = handle_uart modem (codes "A") in
    let second : Script × Bytes = handle_uart first.0 (codes "T\n") in
    handle_uart modem (codes "AT\n") ≡ (second.0, first.1 ++ second.1)
reads_join_example =
    reads_join modem (codes "A") (codes "T\n") modem-OnlyLines (unfold partition in refl)

buffer_has_no_newline_example : partition (handle_uart modem (codes "AT\nA")).0.line_buffer ≡ none
buffer_has_no_newline_example =
    buffer_has_no_newline modem (codes "AT\nA") (unfold partition in refl)
