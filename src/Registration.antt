-- ===== src/Registration.antt =====
-- px4_ros2_cpp/src/components/registration.cpp: the registration of a mode, an executor or a check
-- with the autopilot. Names are byte strings; the fixed-size `name` arrays of the
-- messages are lists of bytes. The random request id and what the wait set returns are arguments.
-- The wait for a subscriber before the request, and the log, have no effect on the result.
pub mod Laws
use px4_ros.Base.{
  ℕ, zero, suc, ◌+◌, ◌-◌, ◌≡◌, Bool, true, false, not, ◌&&◌, ◌||◌, List, [], ◌∷◌, Option, none,
  some, ltb, leb, ◌==◌, if◌then◌else◌, length, take,
}
use px4_ros.Px4Msgs.{Px4Msgs}
use px4_ros.WaitLoop.{Wait, request}

pub record RegistrationSettings : Type 0 where
  pub name : List ℕ
  pub register_arming_check : Bool
  pub register_mode : Bool
  pub register_mode_executor : Bool
  pub enable_replace_internal_mode : Bool
  pub replace_internal_mode : ℕ
  pub activate_mode_immediately : Bool
  pub user_selectable : Bool

-- `px4_msgs::msg::RegisterExtComponentRequest`
pub record ExtComponentRequest : Type 0 where
  pub request_id : ℕ
  pub name : List ℕ
  pub register_arming_check : Bool
  pub register_mode : Bool
  pub register_mode_executor : Bool
  pub enable_replace_internal_mode : Bool
  pub replace_internal_mode : ℕ
  pub activate_mode_immediately : Bool
  pub not_user_selectable : Bool
  pub px4_ros2_api_version : ℕ

-- `px4_msgs::msg::RegisterExtComponentReply`
pub record ExtComponentReply : Type 0 where
  pub request_id : ℕ
  pub name : List ℕ
  pub px4_ros2_api_version : ℕ
  pub success : Bool
  pub arming_check_id : ℕ
  pub mode_id : ℕ
  pub mode_executor_id : ℕ

-- `px4_msgs::msg::UnregisterExtComponent`
pub record UnregisterExtComponent : Type 0 where
  pub name : List ℕ
  pub arming_check_id : ℕ
  pub mode_id : ℕ
  pub mode_executor_id : ℕ

-- `unregistered` is what was published on that topic, the latest first.
pub record Registration : Type 0 where
  pub registered : Bool
  pub unregister_ext_component : UnregisterExtComponent
  pub unregistered : List UnregisterExtComponent

abbrev pub latest_px4_ros2_api_version : ℕ
latest_px4_ros2_api_version = 1

-- `ModeBase::kModeIDInvalid`
abbrev pub mode_id_invalid : ℕ
mode_id_invalid = 255

unfoldable pub new : Registration
new = record {
  registered = false;
  unregister_ext_component = record {
    name = [];
    arming_check_id = 0;
    mode_id = mode_id_invalid;
    mode_executor_id = 0;
  };
  unregistered = [];
}

-- What `strcmp` reads of an array: the bytes before the first NUL.
unfoldable pub c_string : List ℕ → List ℕ
c_string [] = []
c_string (b ∷ bs) = if b == 0 then [] else b ∷ c_string bs

-- `strcmp(a, b) == 0` for two such strings.
unfoldable pub same_bytes : List ℕ → List ℕ → Bool
same_bytes [] [] = true
same_bytes [] (y ∷ ys) = false
same_bytes (x ∷ xs) [] = false
same_bytes (x ∷ xs) (y ∷ ys) = x == y && same_bytes xs ys

-- `reply.name.back() = '\0'`, read as a C string.
abbrev reply_name : Px4Msgs → ExtComponentReply → List ℕ
reply_name c r = c_string (take (c.name_size - 1) r.name)

-- The request message.
abbrev pub request_message : RegistrationSettings → ℕ → ExtComponentRequest
request_message s id = record {
  request_id = id;
  name = c_string s.name;
  register_arming_check = s.register_arming_check;
  register_mode = s.register_mode;
  register_mode_executor = s.register_mode_executor;
  enable_replace_internal_mode = s.enable_replace_internal_mode;
  replace_internal_mode = s.replace_internal_mode;
  activate_mode_immediately = s.activate_mode_immediately;
  not_user_selectable = not s.user_selectable;
  px4_ros2_api_version = latest_px4_ros2_api_version;
}

-- Whether a reply is meant for this request: other components register at the same time.
unfoldable pub matches_request : Px4Msgs → RegistrationSettings → ℕ → ExtComponentReply → Bool
unfolding c_string same_bytes
matches_request c s id r = same_bytes (reply_name c r) (c_string s.name) && id == r.request_id

-- The body of the wait loop: `some` ends it.
unfoldable pub on_reply :
    Px4Msgs → RegistrationSettings → ℕ → ExtComponentReply → Option ExtComponentReply
on_reply c s id r = if matches_request c s id r then some r else none

-- What a matching reply does to the registration.
unfoldable pub accept_reply : RegistrationSettings → ExtComponentReply → Registration → Registration
accept_reply s r g =
    if r.success && r.px4_ros2_api_version == latest_px4_ros2_api_version
    then record g {
      registered = true;
      unregister_ext_component = record {
        name = c_string s.name;
        arming_check_id = r.arming_check_id;
        mode_id = r.mode_id;
        mode_executor_id = r.mode_executor_id;
      };
    }
    else g

abbrev finish : RegistrationSettings → Option ExtComponentReply → Registration → Registration
finish s none g = g
finish s (some r) g = accept_reply s r g

abbrev pub max_requests : ℕ
max_requests = 5

-- `doRegister`: the new registration, whether it is registered, and the requests published, all
-- of them the same message. `waits` has the returns of the wait set for each request.
unfoldable pub do_register :
    Px4Msgs
    → RegistrationSettings
    → ℕ
    → (ℕ → List (Wait ExtComponentReply))
    → Registration
    → Registration × Bool × ℕ
do_register c s id waits g =
    if leb c.name_size (length s.name)
    then (g, false, 0)
    else (let r = request (on_reply c s id) max_requests 0 waits in
        let g' = finish s r.0 g in (g', g'.registered, r.1))

-- `doUnregister`, called on shutdown and by the destructor.
unfoldable pub do_unregister : Bool → Registration → Registration
do_unregister context_valid g =
    if g.registered
    then (if context_valid
        then record g {
          registered = false;
          unregistered = g.unregister_ext_component ∷ g.unregistered;
        }
        else record g { registered = false })
    else g

-- `setRegistrationDetails`; `strncpy` keeps as much of the name as fits.
unfoldable pub set_registration_details : Px4Msgs → ℕ → ℕ → ℕ → List ℕ → Registration → Registration
set_registration_details c arming_check_id mode_id mode_executor_id name g = record g {
  registered = true;
  unregister_ext_component = record {
    name = take (c.name_size - 1) (c_string name);
    arming_check_id = arming_check_id;
    mode_id = mode_id;
    mode_executor_id = mode_executor_id;
  };
}
