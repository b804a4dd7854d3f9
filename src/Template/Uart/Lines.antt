-- ===== src/Template/Uart/Lines.antt =====
-- src/sensorium/runtime/templates.py: line buffering of the UART script.
use sensorium.Base.{
  ℕ, zero, suc, ◌≤◌, ◌<◌, ◌≡◌, refl, ◌∙◌, sym, false, inl, inr, List, [], ◌∷◌, ◌++◌, append-nil,
  append_assoc, none, some, arith, ◌==◌, Bool-cases, Option-cases, Bytes, Text, length,
  length-append, lookup,
}
use sensorium.Template.Uart.{Script, partition, line_reply, drain_lines, is_empty, handle_uart}

-- the rest behind a newline is shorter than the buffer
length-partition :
    (buffer : Bytes) {line rest : Bytes}
    → partition buffer ≡ some (line, rest)
    → length rest < length buffer
unfolding partition
length-partition [] h = absurd (cc)
length-partition (b ∷ bs) {line} {rest} h = elim (Bool-cases (b == 10)) [
  | inl e ↦ ground arith
  | inr e ↦ elim (Option-cases (partition bs)) [
    | inl n ↦ ground arith
    | inr ((l, r), p) ↦ ground (arith, length-partition bs p)
  ]
]

partition-append :
    (x y : Bytes) {line rest : Bytes}
    → partition x ≡ some (line, rest)
    → partition (x ++ y) ≡ some (line, rest ++ y)
unfolding partition
partition-append [] y h = ground arith
partition-append (b ∷ bs) y {line} {rest} h = elim (Bool-cases (b == 10)) [
  | inl e ↦ ground arith
  | inr e ↦ elim (Option-cases (partition bs)) [
    | inl n ↦ ground arith
    | inr ((l, r), p) ↦ ground (arith, partition-append bs y p)
  ]
]

module _ (responses : List (Text × Bytes)) where
  drain-none : (f : ℕ) (b : Bytes) → partition b ≡ none → drain_lines responses f b ≡ ([], b)
  unfolding drain_lines
  drain-none zero b n = refl
  drain-none (suc f) b n = rw (n, drain_lines)

  drain-some :
      (f : ℕ) (b l r : Bytes)
      → partition b ≡ some (l, r)
      → drain_lines responses (suc f) b
        ≡ (line_reply responses l ++ (drain_lines responses f r).0, (drain_lines responses f r).1)
  unfolding drain_lines
  drain-some f b l r p = rw (p, drain_lines)

  -- As many rounds as there are bytes are enough: the loop of `handle_uart` ends by its test, and
  -- leaves a buffer with no newline.
  pub drain_ends :
      (fuel : ℕ) (buffer : Bytes)
      → length buffer ≤ fuel
      → partition (drain_lines responses fuel buffer).1 ≡ none
  drain_ends zero [] h = unfold drain_lines partition in refl
  drain_ends zero (b ∷ bs) h = absurd (omega arith)
  drain_ends (suc fuel) buffer h = elim (Option-cases (partition buffer)) [
    | inl n ↦ rw (drain-none (suc fuel) buffer n) n
    | inr ((l, r), p) ↦
        rw (drain-some fuel buffer l r p)
          (drain_ends fuel r (omega (arith, length-partition buffer p)))
  ]

  drain_fuel :
      (f g : ℕ) (buffer : Bytes)
      → length buffer ≤ f
      → length buffer ≤ g
      → drain_lines responses f buffer ≡ drain_lines responses g buffer
  drain_fuel zero g [] hf hg =
      let n : partition [] ≡ none = unfold partition in refl in
      drain-none zero [] n ∙ sym (drain-none g [] n)
  drain_fuel zero g (b ∷ bs) hf hg = absurd (omega arith)
  drain_fuel (suc f) zero [] hf hg =
      let n : partition [] ≡ none = unfold partition in refl in
      drain-none (suc f) [] n ∙ sym (drain-none zero [] n)
  drain_fuel (suc f) zero (b ∷ bs) hf hg = absurd (omega arith)
  drain_fuel (suc f) (suc g) buffer hf hg = elim (Option-cases (partition buffer)) [
    | inl n ↦ drain-none (suc f) buffer n ∙ sym (drain-none (suc g) buffer n)
    | inr ((l, r), p) ↦
        let short = length-partition buffer p in
        let same = drain_fuel f g r (omega arith) (omega arith) in
        rw (drain-some f buffer l r p, drain-some g buffer l r p, same)
  ]

  -- the loop over `x ++ y` is the loop over `x`, then the loop over what is left of it and `y`
  abbrev Splits : ℕ → ℕ → ℕ → Bytes → Bytes → Type 0
  Splits f g h x y =
      let first : Bytes × Bytes = drain_lines responses g x in
      let second : Bytes × Bytes = drain_lines responses h (first.1 ++ y) in
      drain_lines responses f (x ++ y) ≡ (first.0 ++ second.0, second.1)

  drain-append_none :
      (f g h : ℕ) (x y : Bytes)
      → partition x ≡ none
      → length (x ++ y) ≤ f
      → length ((drain_lines responses g x).1 ++ y) ≤ h
      → Splits f g h x y
  drain-append_none f g h x y n hf hh =
      let e = drain-none g x n in rw e (drain_fuel f h (x ++ y) hf (rw e at hh))

  drain-append :
      (f g h : ℕ) (x y : Bytes)
      → length (x ++ y) ≤ f
      → length x ≤ g
      → length ((drain_lines responses g x).1 ++ y) ≤ h
      → Splits f g h x y
  drain-append f zero h [] y hf hg hh =
      drain-append_none f zero h [] y (unfold partition in refl) hf hh
  drain-append f zero h (b ∷ x) y hf hg hh = absurd (omega arith)
  drain-append zero (suc g) h [] y hf hg hh =
      drain-append_none zero (suc g) h [] y (unfold partition in refl) hf hh
  drain-append zero (suc g) h (b ∷ x) y hf hg hh = absurd (omega arith)
  drain-append (suc f) (suc g) h x y hf hg hh = elim (Option-cases (partition x)) [
    | inl n ↦ drain-append_none (suc f) (suc g) h x y n hf hh
    | inr ((l, r), p) ↦
        let short = length-partition x p in
        let e = drain-some g x l r p in
        let hf' : length (r ++ y) ≤ f =
          omega (arith, length-append {A = ℕ} r y, length-append {A = ℕ} x y) in
        let ih = drain-append f g h r y hf' (omega arith) (rw e at hh) in
        rw (drain-some f (x ++ y) l (r ++ y) (partition-append x y p), e, ih, append_assoc)
  ]

-- a script that only answers lines
pub record OnlyLines (s : Script) : Type 0 where
  pub no_echo : s.echo ≡ false
  pub no_binary : s.binary_responses ≡ []
  pub no_default : s.default_response ≡ []
  pub some_lines : is_empty s.line_responses ≡ false

-- what such a script does with input, empty or not
only_lines :
    (s : Script) (x : Bytes)
    → OnlyLines s
    → partition s.line_buffer ≡ none
    → handle_uart s x ≡ (
      record s {
        line_buffer =
            (drain_lines s.line_responses (length (s.line_buffer ++ x)) (s.line_buffer ++ x)).1;
      },
      (drain_lines s.line_responses (length (s.line_buffer ++ x)) (s.line_buffer ++ x)).0,
    )
unfolding handle_uart lookup
only_lines s [] o n = ground (
  arith,
  o,
  append-nil s.line_buffer,
  drain-none s.line_responses (length s.line_buffer) s.line_buffer n,
)
only_lines s (c ∷ x) o n = ground (arith, o)

-- The answers do not depend on how the input is cut: two reads `x` and `y` of a script that only
-- answers lines reply, one behind the other, what the read of `x ++ y` replies, and leave the same
-- script.
pub reads_join :
    (s : Script) (x y : Bytes)
    → OnlyLines s
    → partition s.line_buffer ≡ none
    → let first : Script × Bytes = handle_uart s x in
      let second : Script × Bytes = handle_uart first.0 y in
      handle_uart s (x ++ y) ≡ (second.0, first.1 ++ second.1)
reads_join s x y o n =
    let b = s.line_buffer in
    let first : Bytes × Bytes = drain_lines s.line_responses (length (b ++ x)) (b ++ x) in
    let s' : Script = record s { line_buffer = first.1 } in
    let o' : OnlyLines s' = record {
      no_echo = o.no_echo;
      no_binary = o.no_binary;
      no_default = o.no_default;
      some_lines = o.some_lines;
    } in
    let ends : partition first.1 ≡ none =
      drain_ends s.line_responses (length (b ++ x)) (b ++ x) (omega arith) in
    let split =
      drain-append s.line_responses (length ((b ++ x) ++ y)) (length (b ++ x))
        (length (first.1 ++ y)) (b ++ x) y (omega arith) (omega arith) (omega arith) in
    rw (
      only_lines s x o n,
      only_lines s (x ++ y) o n,
      only_lines s' y o' ends,
      ← append_assoc,
      split,
    )

-- Whatever the input, no newline stays in the buffer.
pub buffer_has_no_newline :
    (s : Script) (x : Bytes)
    → partition s.line_buffer ≡ none
    → partition (handle_uart s x).0.line_buffer ≡ none
unfolding handle_uart
buffer_has_no_newline s x n = ground (
  arith,
  drain_ends s.line_responses (length (s.line_buffer ++ x)) (s.line_buffer ++ x) (omega arith),
)
