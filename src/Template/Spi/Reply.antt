-- ===== src/Template/Spi/Reply.antt =====
-- src/sensorium/runtime/templates.py: the length of the SPI replies.
use sensorium.Base.{
  ℕ, ◌+◌, ◌-◌, ◌≡◌, refl, List, [], ◌∷◌, ◌++◌, arith, Bytes, length, replicate, length-append,
  length-take, length-replicate,
}
use sensorium.Template.Spi.{Script, Transfer, respond, fit, handle_spi, handle_spi_message}

pub length-fit : (len : ℕ) (bs : Bytes) → length (fit len bs) ≡ len
unfolding fit
length-fit len bs = omega (
  arith,
  length-take len (bs ++ replicate (len - length bs) 0),
  length-append bs (replicate (len - length bs) 0),
  length-replicate {A = ℕ} (len - length bs) 0,
)

pub length-handle_spi : (s : Script) (tx : Bytes) (len : ℕ) → length (handle_spi s tx len).1 ≡ len
unfolding handle_spi
length-handle_spi s tx len = length-fit len (respond s tx len).1

abbrev pub total_len : List Transfer → ℕ
total_len [] = 0
total_len (t ∷ ts) = t.len + total_len ts

-- The reply to a message has exactly the bytes that its transfers ask for.
pub length-handle_spi_message :
    (s : Script) (ts : List Transfer) → length (handle_spi_message s ts).1 ≡ total_len ts
unfolding handle_spi_message
length-handle_spi_message s [] = refl
length-handle_spi_message s (t ∷ ts) =
    let (s', reply) = handle_spi s t.tx t.len in
    omega (
      arith,
      length-append reply (handle_spi_message s' ts).1,
      length-handle_spi s t.tx t.len,
      length-handle_spi_message s' ts,
    )
