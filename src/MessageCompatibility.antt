-- ===== src/MessageCompatibility.antt =====
-- px4_ros2_cpp/src/components/message_compatibility_check.cpp: are the definitions of the messages
-- those of the autopilot? Names are lists of bytes. What the wait set returned for each topic is an
-- argument, as are the message package and, under Zenoh, the graph of the nodes. The waits for a
-- subscriber and a publisher, and the log of single errors, have no effect on the result.
pub mod Hash
pub mod Names
pub mod Fields
pub mod Requests
pub mod Zenoh
pub mod Laws
pub mod Agreement
use px4_ros.Base.{
  ℕ, zero, suc, ◌-◌, Bool, true, false, List, [], ◌∷◌, ◌++◌, Option, none, some, ◌==◌,
  if◌then◌else◌, is_empty, ◌>>=◌,
}
use px4_ros.Px4Msgs.{Px4Msgs}
use px4_ros.WaitLoop.{Wait}
use px4_ros.MessageCompatibility.Names.{snake_to_camel_case, after_last_slash}
use px4_ros.MessageCompatibility.Fields.{FieldMatch, message_hash}
use px4_ros.MessageCompatibility.Requests.{
  MessageFormatResponse, FormatReply, got_reply, protocol_version_mismatch, request_message_format,
}
use px4_ros.MessageCompatibility.Zenoh.{Graph, zenoh_check}

pub record MessageCompatibilityTopic : Type 0 where
  pub topic_name : List ℕ
  pub topic_type : List ℕ

-- The environment of the check.
pub record Platform : Type 0 where
  pub to_upper : ℕ → ℕ
  pub signed_char : Bool
  pub open_file : List ℕ → Option (List ℕ)
  pub field_matches : List ℕ → List FieldMatch
  pub msgs_dir : List ℕ
  -- A bound on the nesting of the definitions.
  pub depth : ℕ
  pub is_rmw_zenoh : Bool
  -- `ROS2_HUMBLE_OR_GALACTIC` is not defined.
  pub has_type_hash : Bool
  pub graph : Graph

-- The type to check, inferred if it is not given.
unfoldable pub type_to_check : Platform → MessageCompatibilityTopic → List ℕ
unfolding snake_to_camel_case after_last_slash
type_to_check p t =
    if is_empty t.topic_type
    then snake_to_camel_case p.to_upper (after_last_slash t.topic_name)
    else t.topic_type

unfoldable pub expected_message_hash : Platform → MessageCompatibilityTopic → Option ℕ
unfolding type_to_check message_hash
expected_message_hash p t =
    message_hash p.open_file p.field_matches p.msgs_dir p.signed_char p.depth (type_to_check p t)

-- The `switch` on the reply: the check of the other topics goes on, with the result so far and
-- the topics to report, or it ends.
pub data Step : Type 0 where
  go_on : Bool → List (List ℕ) → Step
  stop : Step

unfoldable pub on_reply : List ℕ → ℕ → Option FormatReply → Bool → List (List ℕ) → Step
on_reply name expected none ret mismatched = stop
on_reply name expected (some protocol_version_mismatch) ret mismatched = stop
on_reply name expected (some (got_reply response)) ret mismatched =
    if response.success
    then (if response.message_hash == expected
        then go_on ret mismatched
        else go_on false (mismatched ++ name ∷ []))
    else go_on false mismatched

module _ (c : Px4Msgs) (p : Platform) (waits : ℕ → ℕ → List (Wait MessageFormatResponse)) where
  -- The loop over the messages, from message `k` on.
  unfoldable pub check_messages :
      ℕ → List MessageCompatibilityTopic → Bool → List (List ℕ) → Option (Bool × List (List ℕ))
  check_messages k [] ret mismatched = some (ret, mismatched)
  check_messages k (t ∷ ts) ret mismatched = do
    expected ← expected_message_hash p t
    elim (on_reply t.topic_name expected (request_message_format c t.topic_name (waits k)).0 ret
        mismatched) [
          | go_on ret' mismatched' ↦ check_messages (suc k) ts ret' mismatched'
          | stop ↦ some (false, [])
        ]

  -- `messageCompatibilityCheck`: the result, and the topics that are reported as mismatched.
  unfoldable pub message_compatibility_check :
      List MessageCompatibilityTopic → Option (Bool × List (List ℕ))
  message_compatibility_check messages =
      if p.is_rmw_zenoh
      then some (if p.has_type_hash then zenoh_check p.graph else (true, []))
      else (if is_empty p.msgs_dir then some (false, []) else check_messages 0 messages true [])
