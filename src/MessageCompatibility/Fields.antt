-- ===== src/MessageCompatibility/Fields.antt =====
-- px4_ros2_cpp/src/components/message_compatibility_check.cpp: the text of a message definition
-- that is hashed, with those of its nested types. The files of the message package and the matches
-- of the regular expression in a text are arguments; names and texts are lists of bytes.
pub mod Laws
use px4_ros.Base.{
  ℕ, zero, suc, Bool, true, false, not, ◌&&◌, List, [], ◌∷◌, ◌++◌, Option, none, some, ◌==◌,
  if◌then◌else◌, any, ◌>>=◌, bytes,
}
use px4_ros.Registration.{same_bytes}
use px4_ros.MessageCompatibility.Hash.{hash32_fnv1a_const, val32_const}

-- One match: the groups 1 to 4.
pub record FieldMatch : Type 0 where
  pub type_name : List ℕ
  pub array : List ℕ
  pub field_name : List ℕ
  pub constant : List ℕ

-- `kBasicTypes`
abbrev pub basic_types : List (List ℕ)
basic_types =
    bytes "bool"
    ∷ bytes "byte"
    ∷ bytes "char"
    ∷ bytes "float32"
    ∷ bytes "float64"
    ∷ bytes "int8"
    ∷ bytes "uint8"
    ∷ bytes "int16"
    ∷ bytes "uint16"
    ∷ bytes "int32"
    ∷ bytes "uint32"
    ∷ bytes "int64"
    ∷ bytes "uint64"
    ∷ bytes "string"
    ∷ bytes "wstring"
    ∷ []

unfoldable pub is_basic : List ℕ → Bool
unfolding same_bytes
is_basic t = any (same_bytes t) basic_types

unfoldable pub is_constant : FieldMatch → Bool
unfolding same_bytes
is_constant m = same_bytes m.constant (bytes "=")

-- The line of a field.
abbrev pub field_line : FieldMatch → List ℕ
field_line m = m.type_name ++ m.array ++ bytes " " ++ m.field_name ++ bytes "\n"

-- `type.find('/') == npos` fails: the type is of another package, which is only reported.
abbrev pub has_namespace : FieldMatch → Bool
has_namespace m = any (λ c. c == b'/') m.type_name

-- The definition of the field's type is read too.
unfoldable pub is_nested : FieldMatch → Bool
unfolding is_constant is_basic
is_nested m = not (is_constant m) && not (is_basic m.type_name) && not (has_namespace m)

-- What one match adds in front of the others: a constant nothing, a field its line and the text
-- of its type, if that is nested.
abbrev pub add_field : Bool → Bool → List ℕ → Option (List ℕ) → Option (List ℕ) → Option (List ℕ)
add_field true nested line inner rest = rest
add_field false true line inner rest = do text ← inner; more ← rest; some (line ++ text ++ more)
add_field false false line inner rest = do more ← rest; some (line ++ more)

-- The loop over the matches, with the function's call of itself as an argument.
unfoldable pub add_fields : (List ℕ → Option (List ℕ)) → List FieldMatch → Option (List ℕ)
unfolding is_constant is_nested
add_fields nested [] = some []
add_fields nested (m ∷ ms) =
    add_field (is_constant m) (is_nested m) (field_line m) (nested m.type_name)
      (add_fields nested ms)

module _ (open_file : List ℕ → Option (List ℕ)) (field_matches : List ℕ → List FieldMatch)
    (msgs_dir : List ℕ) where
  abbrev pub filename : List ℕ → List ℕ
  filename topic_type = msgs_dir ++ bytes "/msg/" ++ topic_type ++ bytes ".msg"

  -- `messageFieldsStrForMessageHash`, with a bound on the depth of the calls: nothing is returned
  -- where it is exceeded. A file that cannot be opened gives the empty text.
  unfoldable pub message_fields_str : ℕ → List ℕ → Option (List ℕ)
  unfolding add_fields
  message_fields_str zero topic_type = none
  message_fields_str (suc depth) topic_type = elim (open_file (filename topic_type)) [
    | none ↦ some []
    | some text ↦ add_fields (message_fields_str depth) (field_matches text)
  ]

  -- `messageHash`
  unfoldable pub message_hash : Bool → ℕ → List ℕ → Option ℕ
  unfolding message_fields_str hash32_fnv1a_const
  message_hash signed_char depth topic_type = message_fields_str depth topic_type >>= λ str.
      some (hash32_fnv1a_const signed_char str val32_const)
