-- ===== src/Witnesses/Compatibility.antt =====
-- The check of the message definitions at concrete inputs.
use px4_ros.Base.{
  ◌↔◌, ℕ, zero, suc, ◌<◌, ◌≡◌, ◌≢◌, refl, All, ap, sym, ◌∙◌, Bool, true, false, List, [], ◌∷◌, ◌++◌,
  Option, none, some, arith, if◌then◌else◌, is_empty, bytes, leb, ◌&&◌, ◌-◌,
}
use px4_ros.WaitLoop.{Wait, taken, timed_out, request, await, on_message}
use px4_ros.Registration.{same_bytes}
use px4_ros.MessageCompatibility.{
  MessageCompatibilityTopic, Platform, expected_message_hash, type_to_check,
  message_compatibility_check, check_messages, on_reply,
}
use px4_ros.MessageCompatibility.Hash.{hash32_fnv1a_const, val32_const}
use px4_ros.MessageCompatibility.Names.{snake_to_camel_case}
use px4_ros.MessageCompatibility.Names.Laws.{camel_case, snake_to_camel_case-camel_case}
use px4_ros.MessageCompatibility.Fields.{FieldMatch, filename, is_nested, message_fields_str}
use px4_ros.MessageCompatibility.Fields.Laws.{IsRanked, message_fields_str_ends}
use px4_ros.MessageCompatibility.Laws.{all_confirmed}
use px4_ros.MessageCompatibility.Requests.{MessageFormatResponse, request_message_format}
use px4_ros.MessageCompatibility.Agreement.{
  Answer, message_compatibility_check_result, message_compatibility_check_sound, one_byte_detected,
}
use px4_ros.MessageCompatibility.Zenoh.{
  Graph, zenoh_check, check_topics, check_types, check_side, endpoints_mismatch,
}
use px4_ros.MessageCompatibility.Zenoh.Laws.{AllAgree, zenoh_check_lem}
use px4_ros.Witnesses.Data.{px4}

-- The ASCII letters.
abbrev to_upper : ℕ → ℕ
to_upper c = if leb b'a' c && leb c b'z' then c - 32 else c

snake_to_camel_case-camel_case_example :
    snake_to_camel_case to_upper (bytes "arming_check")
    ≡ camel_case to_upper false (bytes "arming_check")
snake_to_camel_case-camel_case_example =
    snake_to_camel_case-camel_case to_upper (bytes "arming_check")

arming_check_in_camel_case :
    snake_to_camel_case to_upper (bytes "arming_check") ≡ bytes "ArmingCheck"
unfolding snake_to_camel_case
arming_check_in_camel_case = refl

-- A package with the definition `BatteryStatus`, which has the field `Cell cell`, and `Cell`, which
-- has the field `uint8 x`.
abbrev open_file : List ℕ → Option (List ℕ)
open_file name =
    if same_bytes name (bytes "p/msg/BatteryStatus.msg")
    then some (bytes "outer")
    else if same_bytes name (bytes "p/msg/Cell.msg")
    then some (bytes "inner")
    else none

abbrev field : List ℕ → List ℕ → FieldMatch
field t name = record { type_name = t; array = []; field_name = name; constant = [] }

-- The matches in a text, by whether it is the first one.
abbrev matches_of : Bool → List FieldMatch
matches_of true = field (bytes "Cell") (bytes "cell") ∷ []
matches_of false = field (bytes "uint8") (bytes "x") ∷ []

abbrev is_outer : List ℕ → Bool
unfolding same_bytes
is_outer text = same_bytes text (bytes "outer")

abbrev field_matches : List ℕ → List FieldMatch
field_matches text = matches_of (is_outer text)

abbrev rank_of : Bool → ℕ
rank_of true = 1
rank_of false = 0

abbrev rank_of_file : Option (List ℕ) → ℕ
rank_of_file none = 0
rank_of_file (some text) = rank_of (is_outer text)

abbrev rank : List ℕ → ℕ
unfolding same_bytes
rank t = rank_of_file (open_file (filename open_file field_matches (bytes "p") t))

matches-AreRanked :
    (b : Bool) → All (λ m. is_nested m ≡ true → rank m.type_name < rank_of b) (matches_of b)
unfolding is_nested
matches-AreRanked true = ((λ h. omega arith), tt)
matches-AreRanked false = ((λ h. cc), tt)

package-IsRanked : IsRanked open_file field_matches (bytes "p") rank
unfolding is_outer
package-IsRanked t text e = rw e (matches-AreRanked (is_outer text))

abbrev graph : Graph
graph = record {
  topics_and_types = (bytes "a", bytes "A" ∷ []) ∷ [];
  publishers = λ topic. record { version = 1; value = 3 ∷ [] } ∷ [];
  subscriptions = λ topic. [];
  type_support = λ t. some (some (record { version = 1; value = 4 ∷ [] }));
}

zenoh_check_lem_example :
    ((zenoh_check graph).0 ≡ is_empty (zenoh_check graph).1)
    × (((zenoh_check graph).0 ≡ true) ↔ AllAgree graph graph.topics_and_types)
zenoh_check_lem_example = zenoh_check_lem graph

zenoh_mismatch : zenoh_check graph ≡ (false, bytes "a" ∷ [])
unfolding zenoh_check check_topics check_types check_side endpoints_mismatch
zenoh_mismatch = refl

abbrev platform : Platform
platform = record {
  to_upper = to_upper;
  signed_char = true;
  open_file = open_file;
  field_matches = field_matches;
  msgs_dir = bytes "p";
  depth = 3;
  is_rmw_zenoh = false;
  has_type_hash = true;
  graph = graph;
}

abbrev battery : MessageCompatibilityTopic
battery = record { topic_name = bytes "fmu/out/battery_status"; topic_type = [] }

abbrev text : List ℕ
text = bytes "Cell cell\nuint8 x\n"

battery_text :
    message_fields_str open_file field_matches (bytes "p") 3 (bytes "BatteryStatus") ≡ some text
unfolding message_fields_str
battery_text = refl

battery_type : type_to_check platform battery ≡ bytes "BatteryStatus"
unfolding type_to_check
battery_type = refl

battery_hash :
    expected_message_hash platform battery ≡ some (hash32_fnv1a_const true text val32_const)
unfolding expected_message_hash
battery_hash = refl

-- The autopilot answers in the second attempt, with the given text.
abbrev response : List ℕ → MessageFormatResponse
response definition = record {
  protocol_version = 1;
  topic_name = bytes "fmu/out/battery_status";
  success = true;
  message_hash = hash32_fnv1a_const true definition val32_const;
}

abbrev answers : List ℕ → ℕ → ℕ → List (Wait MessageFormatResponse)
answers definition k zero = timed_out ∷ []
answers definition k (suc i) = taken (response definition) ∷ []

message_compatibility_check_result_example :
    (l : List (List ℕ)) × (message_compatibility_check px4 platform (answers text) (battery ∷ [])
      ≡ some (
        all_confirmed px4 platform
            (answers text)
            (λ t. hash32_fnv1a_const true text val32_const)
            0
            (battery ∷ []),
        l,
      ))
message_compatibility_check_result_example =
    message_compatibility_check_result px4 platform (answers text) (battery ∷ [])
      (λ t. hash32_fnv1a_const true text val32_const) refl refl (battery_hash, tt)

battery_is_compatible :
    message_compatibility_check px4 platform (answers text) (battery ∷ []) ≡ some (true, [])
unfolding message_compatibility_check check_messages expected_message_hash on_reply
    request_message_format request await on_message
battery_is_compatible = refl

message_compatibility_check_sound_example :
    (hash : ℕ) × (expected_message_hash platform battery ≡ some hash)
    × Answer px4 (bytes "fmu/out/battery_status") (answers text 0) hash
message_compatibility_check_sound_example =
    message_compatibility_check_sound px4 platform (answers text) [] [] battery [] refl
      battery_is_compatible

-- The autopilot's definition has `uint8 y` in the nested type.
abbrev first_hash : List (Wait MessageFormatResponse) → ℕ
first_hash (taken r ∷ ws) = r.message_hash
first_hash ws = 0

other_text :
    (i : ℕ)
    → (r : MessageFormatResponse) (before after : List (Wait MessageFormatResponse))
    → answers (bytes "Cell cell\nuint8 y\n") 0 i ≡ before ++ taken r ∷ after
    → r.message_hash ≡ hash32_fnv1a_const true (bytes "Cell cell\nuint8 y\n") val32_const
unfolding hash32_fnv1a_const
other_text zero r [] after e = cc
other_text zero r (w ∷ []) after e = cc
other_text zero r (w ∷ v ∷ before) after e = cc
other_text (suc i) r [] after e = sym (ap first_hash e)
other_text (suc i) r (w ∷ []) after e = cc
other_text (suc i) r (w ∷ v ∷ before) after e = cc

battery_definition :
    message_fields_str open_file field_matches (bytes "p") 3 (type_to_check platform battery)
    ≡ some text
battery_definition =
    ap (message_fields_str open_file field_matches (bytes "p") 3) battery_type ∙ battery_text

one_byte_detected_example :
    message_compatibility_check px4 platform (answers (bytes "Cell cell\nuint8 y\n")) (battery ∷ [])
    ≢ some (true, [])
one_byte_detected_example =
    one_byte_detected px4 platform (answers (bytes "Cell cell\nuint8 y\n")) [] [] battery []
      (bytes "Cell cell\nuint8 ") (bytes "\n") b'x' b'y' refl battery_definition
      (λ r i before after e. other_text i r before after e) (omega arith) (omega arith)
      (omega arith) (omega arith) (omega arith)

message_fields_str_ends_example :
    (s : List ℕ) × ((depth : ℕ)
      → rank (bytes "BatteryStatus") < depth
      → message_fields_str open_file field_matches (bytes "p") depth (bytes "BatteryStatus")
        ≡ some s)
message_fields_str_ends_example =
    message_fields_str_ends open_file field_matches (bytes "p") rank (bytes "BatteryStatus")
      package-IsRanked
