-- ===== src/MessageCompatibility/Requests.antt =====
-- px4_ros2_cpp/src/components/message_compatibility_check.cpp: the request for the format of one
-- message, over the shared wait loop.
use px4_ros.Base.{
  ℕ, zero, suc, ◌-◌, Bool, List, [], ◌∷◌, ◌++◌, Option, none, some, ◌==◌, if◌then◌else◌, take,
}
use px4_ros.Px4Msgs.{Px4Msgs}
use px4_ros.WaitLoop.{Wait, request}
use px4_ros.Registration.{c_string, same_bytes}

-- `px4_msgs::msg::MessageFormatRequest` and `MessageFormatResponse`
pub record MessageFormatRequest : Type 0 where
  pub protocol_version : ℕ
  pub topic_name : List ℕ

pub record MessageFormatResponse : Type 0 where
  pub protocol_version : ℕ
  pub topic_name : List ℕ
  pub success : Bool
  pub message_hash : ℕ

-- `RequestMessageFormatReturn`, with the response; a timeout is no reply.
pub data FormatReply : Type 0 where
  got_reply : MessageFormatResponse → FormatReply
  protocol_version_mismatch : FormatReply

-- `strncpy` of a string: the bytes before its NUL as far as they fit, and NULs.
unfoldable pub strncpy : ℕ → List ℕ → List ℕ
strncpy zero s = []
strncpy (suc n) [] = 0 ∷ strncpy n []
strncpy (suc n) (b ∷ s) = (if b == 0 then 0 else b) ∷ strncpy n (if b == 0 then [] else s)

module _ (c : Px4Msgs) where
  unfoldable pub format_request : List ℕ → MessageFormatRequest
  unfolding strncpy
  format_request topic_name = record {
    protocol_version = c.message_format_protocol_version;
    topic_name = strncpy (c.topic_name_size - 1) topic_name ++ 0 ∷ [];
  }

  -- A response that was taken. The last byte of its name is overwritten by a NUL.
  unfoldable pub on_response : MessageFormatRequest → MessageFormatResponse → Option FormatReply
  unfolding c_string same_bytes
  on_response request response =
      if response.protocol_version == c.message_format_protocol_version
      then (if same_bytes (c_string (take (c.topic_name_size - 1) response.topic_name))
            (c_string request.topic_name)
          then some (got_reply response)
          else none)
      else some protocol_version_mismatch

  abbrev pub max_format_requests : ℕ
  max_format_requests = 5

  -- `requestMessageFormat`: the reply, and how many requests were published.
  unfoldable pub request_message_format :
      List ℕ → (ℕ → List (Wait MessageFormatResponse)) → Option FormatReply × ℕ
  unfolding format_request on_response
  request_message_format topic_name waits =
      request (on_response (format_request topic_name)) max_format_requests 0 waits
