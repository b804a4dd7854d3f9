-- ===== src/Normalize/Restore/Parts.antt =====
-- src/sensorium/runtime/model_base.py, `normalize_faults` and the settings, over what they gave.
use sensorium.Base.{
  ℕ, ◌≡◌, refl, subst, inl, inr, [], Option, none, some, Bytes, codes, lookup, pos,
}
use sensorium.Base.Result.{
  Result, ok, raise, Result-cases, Ensures, Ensures-ok, Ensures-bind, Ensures-elim,
}
use sensorium.Device.{
  Fault, FaultMode, fault_none, fault_timeout, fault_errno, fault_disconnect, fault_short_reply,
}
use sensorium.Normalize.Values.{Value, int, str, get, or_else, expect_mapping}
use sensorium.Normalize.Words.{strip}
use sensorium.Normalize.Expect.{expect_string, expect_hex_int, expect_bytes}
use sensorium.Normalize.Parts.{
  fault_modes, one_of, optional, required, fault_errno_of, fault_reply_of, normalize_faults,
}
use sensorium.Normalize.Export.{number_value, bytes_value, mode_text, fault_value}
use sensorium.Normalize.Restore.Numbers.{expect_hex_int_again}
use sensorium.Normalize.Restore.HexBytes.{AllBytes, expect_bytes-bytes_hex}

abbrev pub OptionOf : {A : Type 0} → (A → Type 0) → Option A → Type 0
OptionOf P none = Unit
OptionOf P (some a) = P a

abbrev pub shown : {A : Type 0} → (A → Value) → Option A → Option Value
shown show none = none
shown show (some a) = some (show a)

module _ {A : Type 0} (Good : A → Type 0) (expect : Value → Result A) (show : A → Value)
    (again : (v : Value) (a : A) → expect v ≡ ok a → Good a → expect (show a) ≡ ok a) where
  pub required_again :
      (default : Value) (v : Value) (o : Option A)
      → required expect v ≡ ok o
      → OptionOf Good o
      → required expect (or_else default (shown show o)) ≡ ok o
  required_again default v o h good = elim (Result-cases (expect v)) [
    | inr (err, e) ↦ let h' : raise err ≡ ok o = rw (e, required) at h in cc
    | inl (a, e) ↦
        let h' : ok (some a) ≡ ok o = rw (e, required) at h in
        let same : some a ≡ o = cc in
        subst (λ o'. OptionOf Good o' → required expect (or_else default (shown show o')) ≡ ok o')
          same (λ g. rw (again v a e g, required) refl) good
  ]

  pub optional_again :
      (ov : Option Value) (o : Option A)
      → optional expect ov ≡ ok o
      → OptionOf Good o
      → optional expect (shown show o) ≡ ok o
  optional_again none o h good =
      let same : none ≡ o = cc in subst (λ o'. optional expect (shown show o') ≡ ok o') same refl
  optional_again (some v) o h good = elim (Result-cases (expect v)) [
    | inr (err, e) ↦ let h' : raise err ≡ ok o = rw (e, optional) at h in cc
    | inl (a, e) ↦
        let h' : ok (some a) ≡ ok o = rw (e, optional) at h in
        let same : some a ≡ o = cc in
        subst (λ o'. OptionOf Good o' → optional expect (shown show o') ≡ ok o') same
          (λ g. rw (again v a e g, optional) refl) good
  ]

abbrev pub Always : {A : Type 0} → A → Type 0
Always a = Unit

number_again :
    (lo : ℕ) (hi : Option ℕ) (v : Value) (n : ℕ)
    → expect_hex_int lo hi v ≡ ok n
    → Always n
    → expect_hex_int lo hi (number_value n) ≡ ok n
number_again lo hi v n h _ = expect_hex_int_again lo hi v n h

pub bytes_again :
    (v : Value) (bs : Bytes)
    → expect_bytes v ≡ ok bs
    → AllBytes bs
    → expect_bytes (bytes_value bs) ≡ ok bs
bytes_again v bs h good = expect_bytes-bytes_hex bs good

pub all-Always : {A : Type 0} (o : Option A) → OptionOf Always o
all-Always none = tt
all-Always (some a) = tt

fault_errno_again :
    (mode : FaultMode) (ov : Option Value) (o : Option ℕ)
    → fault_errno_of mode ov ≡ ok o
    → fault_errno_of mode (shown number_value o) ≡ ok o
fault_errno_again fault_errno ov o h =
    required_again Always (expect_hex_int 1 (some 4095)) number_value (number_again 1 (some 4095))
      (int (pos 5)) (or_else (int (pos 5)) ov) o h (all-Always o)
fault_errno_again fault_none ov o h =
    optional_again Always (expect_hex_int 1 (some 4095)) number_value (number_again 1 (some 4095))
      ov o h (all-Always o)
fault_errno_again fault_timeout ov o h =
    optional_again Always (expect_hex_int 1 (some 4095)) number_value (number_again 1 (some 4095))
      ov o h (all-Always o)
fault_errno_again fault_disconnect ov o h =
    optional_again Always (expect_hex_int 1 (some 4095)) number_value (number_again 1 (some 4095))
      ov o h (all-Always o)
fault_errno_again fault_short_reply ov o h =
    optional_again Always (expect_hex_int 1 (some 4095)) number_value (number_again 1 (some 4095))
      ov o h (all-Always o)

fault_reply_again :
    (mode : FaultMode) (ov : Option Value) (o : Option Bytes)
    → fault_reply_of mode ov ≡ ok o
    → OptionOf AllBytes o
    → fault_reply_of mode (shown bytes_value o) ≡ ok o
fault_reply_again fault_short_reply ov o h good =
    required_again AllBytes expect_bytes bytes_value bytes_again (str []) (or_else (str []) ov) o h
      good
fault_reply_again fault_none ov o h good =
    optional_again AllBytes expect_bytes bytes_value bytes_again ov o h good
fault_reply_again fault_timeout ov o h good =
    optional_again AllBytes expect_bytes bytes_value bytes_again ov o h good
fault_reply_again fault_errno ov o h good =
    optional_again AllBytes expect_bytes bytes_value bytes_again ov o h good
fault_reply_again fault_disconnect ov o h good =
    optional_again AllBytes expect_bytes bytes_value bytes_again ov o h good

mode_again : (mode : FaultMode) → one_of fault_modes (str (mode_text mode)) ≡ ok mode
unfolding expect_string strip lookup
mode_again fault_none = refl
mode_again fault_timeout = refl
mode_again fault_errno = refl
mode_again fault_disconnect = refl
mode_again fault_short_reply = refl

-- the keys of an exported fault
fault_keys :
    (mode : FaultMode) (n : ℕ) (errno : Option ℕ) (reply : Option Bytes)
    → fault_errno_of mode (shown number_value errno) ≡ ok errno
    → fault_reply_of mode (shown bytes_value reply) ≡ ok reply
    → expect_hex_int 0 none (number_value n) ≡ ok n
    → normalize_faults
        (fault_value (record { mode = mode; remaining = n; errno = errno; reply_data = reply }))
      ≡ ok (record { mode = mode; remaining = n; errno = errno; reply_data = reply })
unfolding normalize_faults
fault_keys mode n none none he hr hn = rw (mode_again mode, hn, he, hr) refl
fault_keys mode n none (some bs) he hr hn = rw (mode_again mode, hn, he, hr) refl
fault_keys mode n (some e) none he hr hn = rw (mode_again mode, hn, he, hr) refl
fault_keys mode n (some e) (some bs) he hr hn = rw (mode_again mode, hn, he, hr) refl

abbrev FaultAgain : Fault → Type 0
FaultAgain f = OptionOf AllBytes f.reply_data → normalize_faults (fault_value f) ≡ ok f

normalize_faults_again : (v : Value) → Ensures FaultAgain (normalize_faults v)
unfolding normalize_faults
normalize_faults_again v = Ensures-bind FaultAgain (expect_mapping v) _ (λ fs e0.
    Ensures-bind FaultAgain
      (one_of fault_modes (or_else (str (codes "none")) (get (codes "mode") fs))) _
      (λ mode e1.
        Ensures-bind FaultAgain
          (expect_hex_int 0 none (or_else (int (pos 0)) (get (codes "remaining") fs))) _
          (λ n e2.
            Ensures-bind FaultAgain (fault_errno_of mode (get (codes "errno") fs)) _ (λ errno e3.
              Ensures-bind FaultAgain (fault_reply_of mode (get (codes "reply_data") fs)) _
                (λ reply e4. Ensures-ok FaultAgain (λ good.
                  fault_keys mode n errno reply
                    (fault_errno_again mode (get (codes "errno") fs) errno e3)
                    (fault_reply_again mode (get (codes "reply_data") fs) reply e4 good)
                    (expect_hex_int_again 0 none
                      (or_else (int (pos 0)) (get (codes "remaining") fs)) n e2)))))))

pub faults_restored :
    (v : Value) (f : Fault)
    → normalize_faults v ≡ ok f
    → OptionOf AllBytes f.reply_data
    → normalize_faults (fault_value f) ≡ ok f
faults_restored v f h = Ensures-elim FaultAgain (normalize_faults v) f (normalize_faults_again v) h
