-- ===== src/Rpc/Lines.antt =====
-- src/sensorium/runtime/rpc.py: the lines of what a connection has received.
use sensorium.Base.{
  ℕ, ◌≡◌, refl, ◌∙◌, sym, false, List, [], ◌∷◌, ◌++◌, Option, if◌then◌else◌, ◌==◌, Bytes,
  append_assoc, append-nil, Bool-cases, inl, inr, or_false,
}
use sensorium.Normalize.Values.{Value}
use sensorium.Rpc.{newline, has_newline, is_blank}

module _ (loads : Bytes → Option Value) where
  -- what a line is read to; a blank one is passed over
  abbrev pub read_line : Bytes → List (Option Value)
  read_line line = if is_blank line then [] else loads line ∷ []

  -- the lines of a text behind the start of the first one
  abbrev pub lines_from : Bytes → Bytes → List (Option Value)
  lines_from line [] = []
  lines_from line (b ∷ bs) =
      if b == newline then read_line line ++ lines_from [] bs else lines_from (line ++ b ∷ []) bs

  abbrev pub last_line : Bytes → Bytes → Bytes
  last_line line [] = line
  last_line line (b ∷ bs) = if b == newline then last_line [] bs else last_line (line ++ b ∷ []) bs

  pub lines_from-append :
      (line bs cs : Bytes)
      → lines_from line (bs ++ cs) ≡ lines_from line bs ++ lines_from (last_line line bs) cs
  lines_from-append line [] cs = refl
  lines_from-append line (b ∷ bs) cs = elim (Bool-cases (b == newline)) [
    | inl e ↦
        rw (e, lines_from-append [] bs cs)
          (sym (append_assoc (read_line line) (lines_from [] bs) _))
    | inr e ↦ rw (e, lines_from-append (line ++ b ∷ []) bs cs) refl
  ]

  pub last_line-append :
      (line bs cs : Bytes) → last_line line (bs ++ cs) ≡ last_line (last_line line bs) cs
  last_line-append line [] cs = refl
  last_line-append line (b ∷ bs) cs = elim (Bool-cases (b == newline)) [
    | inl e ↦ rw (e, last_line-append [] bs cs) refl
    | inr e ↦ rw (e, last_line-append (line ++ b ∷ []) bs cs) refl
  ]

  -- a text without a newline is the rest of its line
  pub no_line :
      (line bs : Bytes)
      → has_newline bs ≡ false
      → (lines_from line bs ≡ []) × (last_line line bs ≡ line ++ bs)
  no_line line [] h = (refl, sym (append-nil line))
  no_line line (b ∷ bs) h =
      let (e, rest) = or_false (b == newline) (has_newline bs) h in
      let (none_yet, whole) = no_line (line ++ b ∷ []) bs rest in
      rw e (none_yet, whole ∙ append_assoc line (b ∷ []) bs)

  no_newline_concat :
      (line : Bytes) (b : ℕ)
      → has_newline line ≡ false
      → (b == newline) ≡ false
      → has_newline (line ++ b ∷ []) ≡ false
  no_newline_concat [] b h e = rw e refl
  no_newline_concat (c ∷ line) b h e =
      let (e', rest) = or_false (c == newline) (has_newline line) h in
      rw (e', no_newline_concat line b rest e) refl

  pub last_line_whole :
      (line bs : Bytes) → has_newline line ≡ false → has_newline (last_line line bs) ≡ false
  last_line_whole line [] h = h
  last_line_whole line (b ∷ bs) h = elim (Bool-cases (b == newline)) [
    | inl e ↦ rw e (last_line_whole [] bs refl)
    | inr e ↦ rw e (last_line_whole (line ++ b ∷ []) bs (no_newline_concat line b h e))
  ]
