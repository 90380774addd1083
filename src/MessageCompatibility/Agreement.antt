-- ===== src/MessageCompatibility/Agreement.antt =====
-- When the check succeeds, and what that says of the autopilot's definitions.
use mathlib.Core.Bool.{false≢true}
use mathlib.Core.Option.{some-injective}
use px4_ros.Base.{
  ℕ, ◌-◌, ◌<◌, ◌≡◌, ◌≢◌, refl, sym, ap, ◌∙◌, Bool, true, false, List, [], ◌∷◌, ◌++◌, Option, none,
  some, arith, ◌==◌, if◌then◌else◌, All, is_empty, length, take, ◌>>=◌,
}
use px4_ros.Px4Msgs.{Px4Msgs}
use px4_ros.WaitLoop.{Wait, taken}
use px4_ros.WaitLoop.Laws.{request_taken}
use px4_ros.Registration.{c_string}
use px4_ros.Registration.Laws.{same_bytes→eq}
use px4_ros.MessageCompatibility.{
  MessageCompatibilityTopic, Platform, expected_message_hash, check_messages, type_to_check,
  message_compatibility_check,
}
use native.Mathlib.Nat.{zero-add}
use px4_ros.MessageCompatibility.Zenoh.{zenoh_check}
use px4_ros.MessageCompatibility.Hash.{hash32_fnv1a_const, val32_const}
use px4_ros.MessageCompatibility.Hash.Laws.{IsByte, IsChar, hash_one_byte}
use px4_ros.MessageCompatibility.Fields.{message_fields_str, message_hash}
use px4_ros.MessageCompatibility.Laws.{
  confirms, all_confirmed, check_messages_result, check_messages_confirmed, and_both,
}
use px4_ros.MessageCompatibility.Requests.{
  MessageFormatResponse, FormatReply, got_reply, protocol_version_mismatch, format_request,
  on_response, max_format_requests, request_message_format,
}

-- The response of the autopilot for a topic, as it was taken.
pub record Answer (c : Px4Msgs) (name : List ℕ) (waits : ℕ → List (Wait MessageFormatResponse))
    (hash : ℕ) : Type 0 where
  pub response : MessageFormatResponse
  pub attempt : ℕ
  pub before : List (Wait MessageFormatResponse)
  pub after : List (Wait MessageFormatResponse)
  pub in_time : attempt < max_format_requests c
  pub is_taken : waits attempt ≡ before ++ taken response ∷ after
  pub version : response.protocol_version ≡ c.message_format_protocol_version
  pub name_fits :
      c_string (take (c.topic_name_size - 1) response.topic_name)
      ≡ c_string (format_request c name).topic_name
  pub succeeded : response.success ≡ true
  pub hash_fits : response.message_hash ≡ hash

on_response_got :
    (c : Px4Msgs) (name : List ℕ) (m r : MessageFormatResponse)
    → on_response c (format_request c name) m ≡ some (got_reply r)
    → (m ≡ r)
      × (m.protocol_version ≡ c.message_format_protocol_version)
      × (c_string (take (c.topic_name_size - 1) m.topic_name)
          ≡ c_string (format_request c name).topic_name)
unfolding on_response
on_response_got c name m r h =
    let (v, n, e) = taken_as (m.protocol_version == c.message_format_protocol_version) _ h in
    (e, ground arith, same_bytes→eq _ _ n)
  where
    got : FormatReply → MessageFormatResponse
    got (got_reply q) = q
    got protocol_version_mismatch = m

    taken_as :
        (version name_fits : Bool)
        → (if version
            then (if name_fits then some (got_reply m) else none)
            else some protocol_version_mismatch)
          ≡ some (got_reply r)
        → (version ≡ true) × (name_fits ≡ true) × (m ≡ r)
    taken_as true true e = (refl, refl, ap got (some-injective _ _ e))
    taken_as true false e = cc
    taken_as false name_fits e = cc

module _ (c : Px4Msgs) (p : Platform) (waits : ℕ → ℕ → List (Wait MessageFormatResponse)) where
  without_zenoh :
      (messages : List MessageCompatibilityTopic)
      → p.is_rmw_zenoh ≡ false
      → message_compatibility_check c p waits messages ≡ (
          if is_empty p.msgs_dir
          then some (false, [])
          else check_messages c p waits 0 messages true [])
  unfolding message_compatibility_check
  without_zenoh messages z =
      ap
        (λ b.
          if b
          then some (if p.has_type_hash then zenoh_check p.graph else (true, []))
          else (if is_empty p.msgs_dir
              then some (false, [])
              else check_messages c p waits 0 messages true []))
        z

  -- Without Zenoh, where the message package is found and the definitions of all messages can be
  -- read: the check ends, and its result is true exactly if the reply for every message reports
  -- success and has the expected hash.
  pub message_compatibility_check_result :
      (messages : List MessageCompatibilityTopic) (expected : MessageCompatibilityTopic → ℕ)
      → p.is_rmw_zenoh ≡ false
      → is_empty p.msgs_dir ≡ false
      → All (λ t. expected_message_hash p t ≡ some (expected t)) messages
      → (l : List (List ℕ)) × (message_compatibility_check c p waits messages
          ≡ some (all_confirmed c p waits expected 0 messages, l))
  message_compatibility_check_result messages expected z d h =
      let (l, e) = check_messages_result c p waits expected 0 messages true [] h in
      (
        l,
        without_zenoh messages z
            ∙ ap (λ b. if b then some (false, []) else check_messages c p waits 0 messages true [])
                d
            ∙ e,
      )

  with_files :
      (b : Bool) (rest : Option (Bool × List (List ℕ))) (l : List (List ℕ))
      → (if b then some (false, []) else rest) ≡ some (true, l)
      → rest ≡ some (true, l)
  with_files true rest l h =
      absurd (false≢true (ap (λ (r : Bool × List (List ℕ)). r.0) (some-injective _ _ h)))
  with_files false rest l h = h

  -- What confirms a hash.
  confirms_got :
      (o : Option FormatReply) (expected : ℕ)
      → confirms o expected ≡ true
      → (r : MessageFormatResponse) × (o ≡ some (got_reply r))
        × (r.success ≡ true)
        × (r.message_hash ≡ expected)
  confirms_got none expected h = cc
  confirms_got (some protocol_version_mismatch) expected h = cc
  confirms_got (some (got_reply r)) expected h =
      let (s, e) = and_both r.success (r.message_hash == expected) h in (r, refl, s, ground arith)

  -- Without Zenoh: if the check succeeds, then for every message, wherever it stands in the list,
  -- a response to its own requests was taken in one of the five attempts that has the latest
  -- protocol version, names the topic as far as it fits in the request, reports success, and holds
  -- the hash of the local definition of its type.
  pub message_compatibility_check_sound :
      (earlier later : List MessageCompatibilityTopic) (t : MessageCompatibilityTopic)
      (l : List (List ℕ))
      → p.is_rmw_zenoh ≡ false
      → message_compatibility_check c p waits (earlier ++ t ∷ later) ≡ some (true, l)
      → (hash : ℕ) × (expected_message_hash p t ≡ some hash)
        × Answer c t.topic_name (waits (length earlier)) hash
  unfolding request_message_format
  message_compatibility_check_sound earlier later t l z h =
      let (hash, e, ok) =
        check_messages_confirmed c p waits 0 earlier later t true [] l (
          with_files (is_empty p.msgs_dir) _ l
            (sym (without_zenoh (earlier ++ t ∷ later) z) ∙ h)) in
      let (r, got, success, same) = confirms_got _ hash ok in
      let (i, m, before, after, in_time, is_taken, q) =
        request_taken (on_response c (format_request c t.topic_name)) 5 0 _ (got_reply r) got in
      let (eq, version, name) = on_response_got c t.topic_name m r q in
      (
        hash,
        e,
        record {
          response = m;
          attempt = i;
          before = before;
          after = after;
          in_time = omega arith;
          is_taken = ap (λ k. waits k i) (sym (zero-add (length earlier))) ∙ is_taken;
          version = version;
          name_fits = name;
          succeeded = ap (λ (x : MessageFormatResponse). x.success) eq ∙ success;
          hash_fits = ap (λ (x : MessageFormatResponse). x.message_hash) eq ∙ same;
        },
      )

  -- Without Zenoh: if the text of the autopilot's definition differs from the local text of a
  -- message in one byte (no byte of the text being a NUL up to there), and all responses that are
  -- taken for this message carry the hash of the autopilot's text, then the check does not
  -- succeed, wherever the message stands.
  pub one_byte_detected :
      (earlier later : List MessageCompatibilityTopic) (t : MessageCompatibilityTopic)
      (l : List (List ℕ)) (before after : List ℕ) (x y : ℕ)
      → p.is_rmw_zenoh ≡ false
      → message_fields_str p.open_file p.field_matches p.msgs_dir p.depth (type_to_check p t)
        ≡ some (before ++ x ∷ after)
      → ((r : MessageFormatResponse) (i : ℕ)
            (earlier_waits later_waits : List (Wait MessageFormatResponse))
          → waits (length earlier) i ≡ earlier_waits ++ taken r ∷ later_waits
          → r.message_hash ≡ hash32_fnv1a_const p.signed_char (before ++ y ∷ after) val32_const)
      → All IsChar before
      → IsChar x
      → IsChar y
      → All IsByte after
      → x ≢ y
      → message_compatibility_check c p waits (earlier ++ t ∷ later) ≢ some (true, l)
  unfolding expected_message_hash message_hash
  one_byte_detected earlier later t l before after x y z text answers hb hx hy ha ne h =
      let (hash, e, a) = message_compatibility_check_sound earlier later t l z h in
      hash_one_byte p.signed_char before after x y hb hx hy ha ne (
        some-injective _ _ (
          sym (ap (λ o. o >>= λ str. some (hash32_fnv1a_const p.signed_char str val32_const)) text)
          ∙ e)
        ∙ sym a.hash_fits
        ∙ answers a.response a.attempt a.before a.after a.is_taken)
