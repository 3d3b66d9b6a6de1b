-- ===== src/FollowBackend.antt =====
-- The client of the follow backend (src/follow/followHandle.cc): what a reply means, and the two
-- flags that the object keeps. The HTTP exchange itself is answered from outside.
pub mod Body
use rover_ops_jm.Prelude.{
  ℕ, ◌+◌, ◌-◌, ◌*◌, String, Bool, true, false, ◌&&◌, ◌||◌, not, ◌==◌, leb, ltb, if◌then◌else◌,
  Option, none, some,
}
use rover_ops_jm.Prelude.Texts.{text_eq}
use rover_ops_jm.Executor.Command.{Command}

-- `transport_ok`: the request was made and answered. `ok_field` is the member `ok` where it is a
-- Boolean; `running` and `state_name` are the members of `data` where they have the right type.
pub record Reply : Type 0 where
  pub transport_ok : Bool
  pub is_object : Bool
  pub status : ℕ
  pub ok_field : Option Bool
  pub running : Option Bool
  pub state_name : Option String

pub record Backend : Type 0 where
  pub is_running : Bool
  pub is_estopped : Bool

unfoldable pub initial : Backend
initial = record { is_running = false; is_estopped = false }

-- The request path of a command; an unknown command is an error.
unfoldable pub path_of : Command → Option String
path_of Command.start_follow = some "/follow/start"
path_of Command.stop_follow = some "/follow/stop"
path_of Command.get_follow = some "/follow/status"
path_of Command.estop_follow = some "/follow/estop"
path_of _ = none

is_some : Option String → Bool
is_some none = false
is_some (some s) = true

is_true : Option Bool → Bool
is_true none = false
is_true (some b) = b

-- The member `ok` of the response that is sent on, which is also what the function returns.
unfoldable pub reply_ok : Command → Reply → Bool
unfolding path_of is_some is_true
reply_ok c r =
    is_some (path_of c)
    && r.transport_ok
    && r.is_object
    && leb 200 r.status
    && ltb r.status 300
    && is_true r.ok_field

set_running : Backend → Option Bool → Backend
set_running b none = b
set_running b (some running) = record b { is_running = running }

set_state : Backend → Option String → Backend
set_state b none = b
set_state b (some name) =
    if name == "estop" || name == "estopped"
    then record { is_running = false; is_estopped = true }
    else if name == "idle" || name == "stopped"
    then record { is_running = false; is_estopped = false }
    else if name == "searching" || name == "following"
    then record { is_running = true; is_estopped = false }
    else b

apply_reply : Backend → Command → Reply → Backend
unfolding set_running set_state
apply_reply b Command.start_follow r = record { is_running = true; is_estopped = false }
apply_reply b Command.stop_follow r = record { is_running = false; is_estopped = false }
apply_reply b Command.estop_follow r = record { is_running = false; is_estopped = true }
apply_reply b Command.get_follow r = set_state (set_running b r.running) r.state_name
apply_reply b _ r = b

-- `handle_follow_function`
unfoldable pub handle_follow_function : Backend → Command → Reply → Backend × Bool
unfolding reply_ok apply_reply
handle_follow_function b c r = (if reply_ok c r then apply_reply b c r else b, reply_ok c r)

-- `append_response`: how many bytes of a chunk are taken; fewer than it has end the transfer. The
-- body never passes one megabyte.
unfoldable pub append_response : ℕ → ℕ → ℕ × ℕ
append_response body bytes =
    if ltb (1024 * 1024) bytes || ltb (1024 * 1024 - bytes) body
    then (body, 0)
    else (body + bytes, bytes)
