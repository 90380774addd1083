-- ===== src/Witnesses/JsonValues.antt =====
-- A type of JSON values with the operations that the mission code uses, and their laws.
use px4_ros.Base.{
  ◌≡◌, refl, ap, ◌∙◌, ℕ, ℤ, Bool, true, false, ◌&&◌, ◌||◌, inl, inr, arith, or_else, List, [], ◌∷◌,
  Option, none, some, String, str_eq, str_eq_refl, if◌then◌else◌, ◌>>=◌,
}
use px4_ros.Json.{JsonOps, JsonLaws, IsKeyed}

pub data JsonValue : Type 0 where
  null nil : JsonValue
  number : ℤ → JsonValue
  text : String → JsonValue
  truth : Bool → JsonValue
  single double : ℕ → JsonValue
  cons : JsonValue → JsonValue → JsonValue
  with_key : String → JsonValue → JsonValue → JsonValue

unfoldable pub lookup : String → JsonValue → Option JsonValue
lookup key (with_key k value j) =
    let rest = lookup key j in if str_eq key k then some value else rest
lookup key _ = none

unfoldable pub of_list : List JsonValue → JsonValue
of_list [] = nil
of_list (j ∷ js) = cons j (of_list js)

unfoldable pub to_list : JsonValue → Option (List JsonValue)
to_list nil = some []
to_list (cons j js) = do rest ← to_list js; some (j ∷ rest)
to_list _ = none

abbrev to_int : JsonValue → Option ℤ
to_int (number i) = some i
to_int _ = none

abbrev to_string : JsonValue → Option String
to_string (text s) = some s
to_string _ = none

abbrev to_bool : JsonValue → Option Bool
to_bool (truth b) = some b
to_bool _ = none

abbrev to_single : JsonValue → Option ℕ
to_single (single x) = some x
to_single _ = none

abbrev to_double : JsonValue → Option ℕ
to_double (double x) = some x
to_double _ = none

abbrev is_null : JsonValue → Bool
is_null null = true
is_null _ = false

abbrev is_object : JsonValue → Bool
is_object (with_key key value j) = true
is_object _ = false

unfoldable pub merge : JsonValue → JsonValue → JsonValue
merge j (with_key key value k) = with_key key value (merge j k)
merge j _ = j

unfoldable pub update : JsonValue → JsonValue → Option JsonValue
update j k = if (is_null j || is_object j) && is_object k then some (merge j k) else none

abbrev pub json_values : JsonOps JsonValue
json_values = record {
  null = null;
  is_null = is_null;
  is_object = is_object;
  insert = with_key;
  lookup = lookup;
  update = update;
  of_int = number;
  to_int = to_int;
  of_string = text;
  to_string = to_string;
  of_bool = truth;
  to_bool = to_bool;
  of_float = single;
  to_float = to_single;
  of_double = double;
  to_double = to_double;
  of_list = of_list;
  to_list = to_list;
}

lookup-with_key :
    (key : String) (value j : JsonValue) → lookup key (with_key key value j) ≡ some value
unfolding lookup
lookup-with_key key value j = ap (λ b. if b then some value else lookup key j) (str_eq_refl key)

lookup-with_other_key :
    (key other : String) (value j : JsonValue)
    → str_eq key other ≡ false
    → lookup key (with_key other value j) ≡ lookup key j
unfolding lookup
lookup-with_other_key key other value j e = ap (λ b. if b then some value else lookup key j) e

to_list-of_list : (js : List JsonValue) → to_list (of_list js) ≡ some js
unfolding to_list of_list
to_list-of_list [] = refl
to_list-of_list (j ∷ js) = ap (λ o. o >>= λ rest. some (j ∷ rest)) (to_list-of_list js)

or_else_if :
    {A : Type 0} (b : Bool) (a : A) (x y : Option A)
    → (if b then some a else or_else x y) ≡ or_else (if b then some a else x) y
or_else_if true a x y = refl
or_else_if false a x y = refl

lookup-merge :
    (key : String) (j k : JsonValue)
    → lookup key (merge j k) ≡ or_else (lookup key k) (lookup key j)
unfolding lookup merge
lookup-merge key j (with_key other value k) =
    ap (λ o. if str_eq key other then some value else o) (lookup-merge key j k)
    ∙ or_else_if (str_eq key other) value (lookup key k) (lookup key j)
lookup-merge key j null = refl
lookup-merge key j nil = refl
lookup-merge key j (number i) = refl
lookup-merge key j (text s) = refl
lookup-merge key j (truth b) = refl
lookup-merge key j (single x) = refl
lookup-merge key j (double x) = refl
lookup-merge key j (cons k l) = refl

update_objects :
    (j k : JsonValue)
    → IsKeyed json_values j
    → is_object k ≡ true
    → (r : JsonValue) × (update j k ≡ some r)
      × ((key : String) → lookup key r ≡ or_else (lookup key k) (lookup key j))
unfolding update
update_objects j k (inl e) o = (merge j k, (rw (e, o) refl), (λ key. lookup-merge key j k))
update_objects j k (inr e) o = (merge j k, ground arith, (λ key. lookup-merge key j k))

update_throws : (j k : JsonValue) → IsKeyed json_values j → is_object k ≡ false → update j k ≡ none
unfolding update
update_throws j k keyed o = ground arith

lookup-is_null : (key : String) (j : JsonValue) → is_null j ≡ true → lookup key j ≡ none
unfolding lookup
lookup-is_null key null e = refl
lookup-is_null key nil e = cc
lookup-is_null key (number i) e = cc
lookup-is_null key (text s) e = cc
lookup-is_null key (truth b) e = cc
lookup-is_null key (single x) e = cc
lookup-is_null key (double x) e = cc
lookup-is_null key (cons k l) e = cc
lookup-is_null key (with_key other value k) e = cc

pub json_values-JsonLaws : JsonLaws json_values
unfolding lookup
json_values-JsonLaws = record {
  is_null-null = refl;
  is_object-insert = λ key value j o. refl;
  lookup-insert = λ key value j o. lookup-with_key key value j;
  lookup-insert_other = λ key other value j o. lookup-with_other_key key other value j;
  lookup-null = λ key. refl;
  to_int-of_int = λ i. refl;
  to_string-of_string = λ s. refl;
  lookup-null_value = lookup-is_null;
  update-object = update_objects;
  update-throws = update_throws;
  to_bool-of_bool = λ b. refl;
  to_float-of_float = λ x h. refl;
  to_double-of_double = λ x. refl;
  to_list-of_list = to_list-of_list;
}
