-- ===== src/Normalize/Restore/Texts.antt =====
-- src/sensorium/runtime/model_base.py, `expect_string` and the checks of names, over a text that they gave.
use sensorium.Base.{
  ◌≡◌, refl, ap, sym, subst, ◌∙◌, arith, Bool, true, false, not, ◌&&◌, Bool-cases, inl, inr, [],
  ◌∷◌, Text,
}
use sensorium.Base.Result.{ok, raise, Result-cases}
use sensorium.Normalize.Values.{Value, null, other, bool, int, str, blob, arr, obj}
use sensorium.Normalize.Words.{is_space, lstrip, rstrip, is_empty, before_end, strip, is_name}
use sensorium.Normalize.Expect.{checked, expect_string, expect_text, text_where, expect_name}

-- what a text that is stripped at its end keeps
rstrip_idem : (s : Text) → rstrip (rstrip s) ≡ rstrip s
unfolding rstrip
rstrip_idem [] = refl
rstrip_idem (c ∷ s) = elim (Bool-cases (is_space c && is_empty (rstrip s))) [
  | inl ends ↦ rw ends refl
  | inr stays ↦ rw stays (ap (before_end c) (rstrip_idem s) ∙ (rw stays refl))
]

-- a text that does not begin with a space
abbrev Begins : Text → Type 0
Begins [] = Unit
Begins (c ∷ s) = is_space c ≡ false

lstrip-Begins : (s : Text) → Begins (lstrip s)
unfolding lstrip
lstrip-Begins [] = tt
lstrip-Begins (c ∷ s) = elim (Bool-cases (is_space c)) [
  | inl space ↦ rw (space, lstrip) (lstrip-Begins s)
  | inr solid ↦ rw (solid, lstrip) solid
]

rstrip-Begins : (s : Text) → Begins s → Begins (rstrip s)
unfolding rstrip
rstrip-Begins [] h = tt
rstrip-Begins (c ∷ s) h = rw h h

lstrip-eq : (s : Text) → Begins s → lstrip s ≡ s
unfolding lstrip
lstrip-eq [] h = refl
lstrip-eq (c ∷ s) h = rw h refl

pub strip_idem : (s : Text) → strip (strip s) ≡ strip s
unfolding strip
strip_idem s =
    ap rstrip (lstrip-eq (rstrip (lstrip s)) (rstrip-Begins (lstrip s) (lstrip-Begins s)))
    ∙ rstrip_idem (lstrip s)

pub checked-eq {ℓ} :
    {A : Type ℓ} (b : Bool) (a a' : A) → checked b a ≡ ok a' → (b ≡ true) × (a ≡ a')
checked-eq true a a' h = (refl, ground arith)
checked-eq false a a' h = cc

-- a text that is stripped and full passes once more
full_again :
    (s t : Text)
    → not (is_empty (strip s)) ≡ true
    → strip s ≡ t
    → checked (not (is_empty (strip t))) (strip t) ≡ ok t
full_again s t full same =
    let fixed : strip t ≡ t = ap strip (sym same) ∙ (strip_idem s ∙ same) in
    let full' : not (is_empty t) ≡ true = rw same at full in rw (fixed, full') refl

pub expect_string_again :
    (v : Value) (t : Text) → expect_string v ≡ ok t → expect_string (str t) ≡ ok t
unfolding expect_string
expect_string_again (str s) t h =
    let (full, same) = checked-eq (not (is_empty (strip s))) (strip s) t h in
    full_again s t full same
expect_string_again null t h = cc
expect_string_again other t h = cc
expect_string_again (bool b) t h = cc
expect_string_again (int n) t h = cc
expect_string_again (blob bs) t h = cc
expect_string_again (arr vs) t h = cc
expect_string_again (obj fs) t h = cc

pub expect_text_again : (v : Value) (t : Text) → expect_text v ≡ ok t → expect_text (str t) ≡ ok t
expect_text_again (str s) t h =
    let (full, same) = checked-eq (not (is_empty s)) s t h in
    let full' : not (is_empty t) ≡ true = rw same at full in rw full' refl
expect_text_again null t h = cc
expect_text_again other t h = cc
expect_text_again (bool b) t h = cc
expect_text_again (int n) t h = cc
expect_text_again (blob bs) t h = cc
expect_text_again (arr vs) t h = cc
expect_text_again (obj fs) t h = cc

pub text_where_again :
    (p : Text → Bool) (v : Value) (t : Text) → text_where p v ≡ ok t → text_where p (str t) ≡ ok t
text_where_again p v t h = elim (Result-cases (expect_string v)) [
  | inr (err, e) ↦ let h' : raise err ≡ ok t = rw (e, text_where) at h in cc
  | inl (s, e) ↦
      let h' : checked (p s) s ≡ ok t = rw (e, text_where) at h in
      let (fits, same) = checked-eq (p s) s t h' in
      let fits' : p t ≡ true = rw same at fits in
      rw (expect_string_again v t (e ∙ ap ok same), fits') refl
]

pub expect_name_again : (v : Value) (t : Text) → expect_name v ≡ ok t → expect_name (str t) ≡ ok t
unfolding expect_name
expect_name_again v t h = text_where_again is_name v t h

-- a check that let a value pass does so again
pub checked_again {ℓ} :
    {A : Type ℓ} (b : A → Bool) (a a' : A) → checked (b a) a ≡ ok a' → checked (b a') a' ≡ ok a'
checked_again b a a' h =
    let (fits, same) = checked-eq (b a) a a' h in
    let fits' : b a' ≡ true = subst (λ x. b x ≡ true) same fits in rw fits' refl
