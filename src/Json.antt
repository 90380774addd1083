-- ===== src/Json.antt =====
-- What the mission code uses of the vendored JSON library (px4_ros2_cpp/include/px4_ros2/third_party):
-- the type of values `J` and these operations are parameters. An operation that throws gives nothing.
use px4_ros.Base.{
  ℤ, Bool, List, Option, none, some, String, ◌≡◌, str_eq, true, false, F32, F64, is_nan32, or_else,
  ◌⊎◌,
}

pub record JsonOps (J : Type 0) : Type 0 where
  pub null : J
  pub is_null : J → Bool
  pub is_object : J → Bool
  -- `j[key] = value`, and `contains` and `at`. The code assigns only to null values and to objects.
  pub insert : String → J → J → J
  pub lookup : String → J → Option J
  -- `j.update(k)`: the keys of `k`, and those of `j` that it does not have. It throws unless `k` is
  -- an object.
  pub update : J → J → Option J
  pub of_int : ℤ → J
  pub to_int : J → Option ℤ
  pub of_string : String → J
  pub to_string : J → Option String
  pub of_bool : Bool → J
  pub to_bool : J → Option Bool
  -- `get<float>` and `get<double>`, and the values of them.
  pub of_float : F32 → J
  pub to_float : J → Option F32
  pub of_double : F64 → J
  pub to_double : J → Option F64
  pub of_list : List J → J
  pub to_list : J → Option (List J)

-- A null value, which becomes an object when it is assigned to, or an object.
abbrev pub IsKeyed : {J : Type 0} → JsonOps J → J → Type 0
IsKeyed json j = (json.is_null j ≡ true) ⊎ (json.is_object j ≡ true)

-- What its documentation says of them.
pub record JsonLaws {J : Type 0} (json : JsonOps J) : Type 0 where
  pub is_null-null : json.is_null json.null ≡ true
  pub is_object-insert :
      (key : String) (value j : J)
      → IsKeyed json j
      → json.is_object (json.insert key value j) ≡ true
  pub lookup-insert :
      (key : String) (value j : J)
      → IsKeyed json j
      → json.lookup key (json.insert key value j) ≡ some value
  pub lookup-insert_other :
      (key other : String) (value j : J)
      → IsKeyed json j
      → str_eq key other ≡ false
      → json.lookup key (json.insert other value j) ≡ json.lookup key j
  pub lookup-null : (key : String) → json.lookup key json.null ≡ none
  pub to_int-of_int : (i : ℤ) → json.to_int (json.of_int i) ≡ some i
  pub to_string-of_string : (s : String) → json.to_string (json.of_string s) ≡ some s
  pub lookup-null_value : (key : String) (j : J) → json.is_null j ≡ true → json.lookup key j ≡ none
  pub update-object :
      (j k : J)
      → IsKeyed json j
      → json.is_object k ≡ true
      → (r : J) × (json.update j k ≡ some r)
        × ((key : String) → json.lookup key r ≡ or_else (json.lookup key k) (json.lookup key j))
  pub update-throws : (j k : J) → IsKeyed json j → json.is_object k ≡ false → json.update j k ≡ none
  pub to_bool-of_bool : (b : Bool) → json.to_bool (json.of_bool b) ≡ some b
  pub to_float-of_float : (x : F32) → is_nan32 x ≡ false → json.to_float (json.of_float x) ≡ some x
  pub to_double-of_double : (x : F64) → json.to_double (json.of_double x) ≡ some x
  pub to_list-of_list : (js : List J) → json.to_list (json.of_list js) ≡ some js
