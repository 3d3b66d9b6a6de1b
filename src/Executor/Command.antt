-- ===== src/Executor/Command.antt =====
-- The command types that src/CommandExecutor.cc and the handlers under src/handlers compare texts
-- with. `other` stands for every other text.
use rover_ops_jm.Prelude.{
  ℕ, String, ◌==◌, Eq, nat_beq, if◌then◌else◌, List, [], ◌∷◌, ◌≡◌, refl, arith,
}
use rover_ops_jm.Prelude.Texts.{text_eq, text_beq_iff}

pub data Command : Type 0 where
  initial_pose start_navigation navigation_task set_dock_pose start_task pause_task : Command
  resume_task clear_waypoints cancel_task start_recharge stop_recharge stop_navigation : Command
  start_mapping stop_and_uploadmap nav_upload_successful upload_require_file bsy_test : Command
  action_control control set_position_upload_frequency hikvision_continuous hikvision : Command
  set_param upload_broatcast follow get_fsm_state start_follow stop_follow estop_follow get_follow :
      Command
  start_add_task start_add_point stop_add_point stop_add_task pause_or_resume_task : Command
  other : String → Command

unfoldable pub text : Command → String
text Command.initial_pose = "initial_pose"
text Command.start_navigation = "start_navigation"
text Command.navigation_task = "navigation_task"
text Command.set_dock_pose = "set_dock_pose"
text Command.start_task = "start_task"
text Command.pause_task = "pause_task"
text Command.resume_task = "resume_task"
text Command.clear_waypoints = "clear_waypoints"
text Command.cancel_task = "cancel_task"
text Command.start_recharge = "start_recharge"
text Command.stop_recharge = "stop_recharge"
text Command.stop_navigation = "stop_navigation"
text Command.start_mapping = "start_mapping"
text Command.stop_and_uploadmap = "stop_and_uploadmap"
text Command.nav_upload_successful = "nav-upload-successful"
text Command.upload_require_file = "upload_require_file"
text Command.bsy_test = "bsy_test"
text Command.action_control = "action_control"
text Command.control = "control"
text Command.set_position_upload_frequency = "set_position_upload_frequency"
text Command.hikvision_continuous = "hikvision_continuous"
text Command.hikvision = "hikvision"
text Command.set_param = "set_param"
text Command.upload_broatcast = "upload_broatcast"
text Command.follow = "follow"
text Command.get_fsm_state = "get_fsm_state"
text Command.start_follow = "start_follow"
text Command.stop_follow = "stop_follow"
text Command.estop_follow = "estop_follow"
text Command.get_follow = "get_follow"
text Command.start_add_task = "start_add_task"
text Command.start_add_point = "start_add_point"
text Command.stop_add_point = "stop_add_point"
text Command.stop_add_task = "stop_add_task"
text Command.pause_or_resume_task = "pause_or_resume_task"
text (Command.other s) = s

abbrev literals : List Command
literals =
    Command.initial_pose ∷ Command.start_navigation ∷ Command.navigation_task
    ∷ Command.set_dock_pose ∷ Command.start_task ∷ Command.pause_task ∷ Command.resume_task
    ∷ Command.clear_waypoints ∷ Command.cancel_task ∷ Command.start_recharge ∷ Command.stop_recharge
    ∷ Command.stop_navigation ∷ Command.start_mapping ∷ Command.stop_and_uploadmap
    ∷ Command.nav_upload_successful ∷ Command.upload_require_file ∷ Command.bsy_test
    ∷ Command.action_control ∷ Command.control ∷ Command.set_position_upload_frequency
    ∷ Command.hikvision_continuous ∷ Command.hikvision ∷ Command.set_param
    ∷ Command.upload_broatcast ∷ Command.follow ∷ Command.get_fsm_state ∷ Command.start_follow
    ∷ Command.stop_follow ∷ Command.estop_follow ∷ Command.get_follow ∷ Command.start_add_task
    ∷ Command.start_add_point ∷ Command.stop_add_point ∷ Command.stop_add_task
    ∷ Command.pause_or_resume_task ∷ []

-- The comparisons of a text with the literals, in turn.
find_literal : String → List Command → Command
unfolding text
find_literal s [] = Command.other s
find_literal s (c ∷ cs) = if text c == s then c else find_literal s cs

unfoldable pub of_text : String → Command
unfolding find_literal
of_text s = find_literal s literals

text-find_literal : (s : String) (cs : List Command) → text (find_literal s cs) ≡ s
unfolding find_literal
text-find_literal s [] = refl
text-find_literal s (c ∷ cs) = ground (arith, text_beq_iff (text c) s, text-find_literal s cs)

-- Reading a command loses nothing of its text.
text-of_text : (s : String) → text (of_text s) ≡ s
unfolding of_text
text-of_text s = text-find_literal s literals

of_text-start_task : of_text "start_task" ≡ Command.start_task
unfolding of_text
of_text-start_task = refl

-- Constructors are numbered as they stand, so that `==` compares numbers.
abbrev command_value : Command → ℕ
command_value Command.initial_pose = 0
command_value Command.start_navigation = 1
command_value Command.navigation_task = 2
command_value Command.set_dock_pose = 3
command_value Command.start_task = 4
command_value Command.pause_task = 5
command_value Command.resume_task = 6
command_value Command.clear_waypoints = 7
command_value Command.cancel_task = 8
command_value Command.start_recharge = 9
command_value Command.stop_recharge = 10
command_value Command.stop_navigation = 11
command_value Command.start_mapping = 12
command_value Command.stop_and_uploadmap = 13
command_value Command.nav_upload_successful = 14
command_value Command.upload_require_file = 15
command_value Command.bsy_test = 16
command_value Command.action_control = 17
command_value Command.control = 18
command_value Command.set_position_upload_frequency = 19
command_value Command.hikvision_continuous = 20
command_value Command.hikvision = 21
command_value Command.set_param = 22
command_value Command.upload_broatcast = 23
command_value Command.follow = 24
command_value Command.get_fsm_state = 25
command_value Command.start_follow = 26
command_value Command.stop_follow = 27
command_value Command.estop_follow = 28
command_value Command.start_add_task = 29
command_value Command.start_add_point = 30
command_value Command.stop_add_point = 31
command_value Command.stop_add_task = 32
command_value Command.pause_or_resume_task = 33
command_value Command.get_follow = 34
command_value (Command.other s) = 35

-- The source compares a command with a literal only, or with the active command, which is one.
instance abbrev pub command_eq : Eq Command
command_eq = record { beq = λ a b. nat_beq (command_value a) (command_value b) }
