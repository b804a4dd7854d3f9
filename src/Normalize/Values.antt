-- ===== src/Normalize/Values.antt =====
-- The values that YAML and JSON are read to: what src/sensorium/runtime/model_base.py takes. `other` stands
-- for floats and dates, which every check refuses. A `str` is the list of its code points.
use sensorium.Base.{
  Bool, List, [], ◌∷◌, Option, none, some, if◌then◌else◌, Bytes, Text, bytes_eq, ℤ,
}
use sensorium.Base.Result.{Result, ok, raise, runtime_error}

mutual
  pub data Value : Type 0 where
    null other : Value
    bool : Bool → Value
    int : ℤ → Value
    str : Text → Value
    blob : Bytes → Value
    arr : Items → Value
    obj : Fields → Value

  pub data Items : Type 0 where
    nil : Items
    cons : Value → Items → Items

  -- a `dict` in its order, whose keys YAML need not make texts
  pub data Fields : Type 0 where
    end : Fields
    field : Value → Value → Fields → Fields

abbrev pub to_list : Items → List Value
to_list nil = []
to_list (cons v vs) = v ∷ to_list vs

abbrev pub of_list : List Value → Items
of_list [] = nil
of_list (v ∷ vs) = cons v (of_list vs)

abbrev pub pairs : Fields → List (Value × Value)
pairs end = []
pairs (field k v fs) = (k, v) ∷ pairs fs

abbrev pub of_pairs : List (Value × Value) → Fields
of_pairs [] = end
of_pairs ((k, v) ∷ fs) = field k v (of_pairs fs)

abbrev is_key : Text → Value → Bool
is_key key (str j) = bytes_eq j key
is_key key _ = Bool.false

-- `d.get(key)`, or `none` where the key is not there
abbrev pub find_key : Text → List (Value × Value) → Option Value
find_key key [] = none
find_key key ((k, v) ∷ fs) = if is_key key k then some v else find_key key fs

abbrev pub get : Text → Fields → Option Value
get key fs = find_key key (pairs fs)

-- `d.get(key)` and `d.get(key, default)`
abbrev pub or_else : Value → Option Value → Value
or_else default none = default
or_else default (some v) = v

-- `expect_mapping`
abbrev pub expect_mapping : Value → Result Fields
expect_mapping null = ok end
expect_mapping (obj fs) = ok fs
expect_mapping _ = raise runtime_error

-- `expect_list`
abbrev pub expect_list : Value → Result Items
expect_list null = ok nil
expect_list (arr vs) = ok vs
expect_list _ = raise runtime_error

-- `expect_bool`
abbrev pub expect_bool : Value → Result Bool
expect_bool (bool b) = ok b
expect_bool _ = raise runtime_error

-- `expect_int`
abbrev pub expect_int : Value → Result ℤ
expect_int (int n) = ok n
expect_int _ = raise runtime_error
