-- ===== src/Lib.antt =====
-- Verification library of the roverOps gateway of a quadruped robot: the part of the program that
-- decides what the robot may do.
--
-- The program connects a cloud to the robot's ROS nodes. The gateway (src/gateway) hands each message
-- to the command executor (src/CommandExecutor.cc, include/CommandExecutor.h), which asks the
-- behaviour state machine (include/RobotFsm.h) whether the command is admitted, keeps one managed
-- command at a time behind a busy gate, and calls a handler by a routing table (src/handlers). The
-- handlers start processes, call ROS services and the follow backend (src/follow/followHandle.cc) and
-- the mapping handle (src/mapping/maphandle.cc), and launch workers that wait for an answer of the
-- robot, which comes as a line of /rosout. The status of the robot goes to the cloud as a snapshot
-- (src/robotState/robotState.cc).
--
-- Files and what they model:
-- - Robot/State, Robot/Fsm: src/robotDto.h and every operation of RobotFsm. Robot/Fsm/Step has the
--   calls as data; Invariant, Diagram, Generation and Rest have what is proved of them.
-- - RobotStatus, RobotStatus/Updates: robotState. FollowBackend,
--   FollowBackend/Body: Follow and append_response.
-- - Executor/Command, State: the command types, the fields of CommandExecutor, the messages it sends
--   and the workers it launches. Gate: try_begin_command, finish_command. Admission:
--   admit_behavior_command, admit_web_motion_command. Environment: the checks for a running
--   environment and handle_stop_navigation. Follow, Service, Navigation, Mapping, Rosout: the handlers
--   with their workers' ends; Loss: exceptions that leave a worker. Request: the routing table.
--   Dispatch: robot_bt and execute. Step: one event of the executor, and the states that any events
--   reach.
-- - Executor/Rules and Executor/Invariant: what holds in every state reached. The other modules under
--   Executor are named for what they prove: Busy, Exclusion, Attempts, Requests, Queue, Upload, Startup,
--   Progress, Cleanup, Recharge.
-- - Outbox: send_to_cloud and try_flush_msgs, as steps of threads that share the queue;
--   Outbox/Delivery has what is proved of them.
-- - Throttle: should_send_upload_position, thread by thread, and handle_set_position_upload_frequency;
--   Throttle/Spacing and Throttle/Alone prove how far apart positions go out and when one does.
-- - Battery: src/bms/BatteryProvider.cc, with the tables of alarms in Battery/Alarms; Battery/Fault says when
--   the battery counts as faulty. BmsForwarder: src/bms/BmsForwarder.cc; Sound, Timers and Reach under it
--   prove what every state keeps.
-- - Motion: src/motionControl/motionHandle.cc; Motion/Watch, Motion/Idle and Motion/Stop have its
--   theorems. Light: src/localWebsocket/LightPolicy.h.
-- - Gateway/State: the fields of gateway, with the timers and tasks that it hands to websocketpp.
--   Gateway/Connection: the connection to the web service and its reconnection. Gateway/Heartbeat: the
--   heartbeat's. Gateway/Handlers: the handlers of connections, sendToWeb, broadcast_data and stop.
--   Gateway/Endpoint: update_web_endpoint. Gateway/Message: on_message and is_command_expired, with
--   the members of a message in Keys and is_duplicate_command in Recent. Gateway/Step: one event, and
--   the states that events reach after the set-up.
-- - Gateway/Recovery has what is proved of the reconnection, Backoff and Backoff/Overflow of its waits,
--   Heartbeat/Failure of the heartbeat; Frame and Quiet have what the other operations leave alone;
--   Endpoint/RoundTrip, Message/Window and Message/Age have the theorems on addresses, the cache
--   and the messages.
-- - AiRecognition: src/aiRecognition/AiRecognitionAckHandler.cc, with the names of its files and the
--   decoding of its images in Names; Inside proves where its files are, and Digits that twenty digits,
--   the fuel of the printing of numbers, are enough for 64 bits.
-- - Tests: the theorems at concrete runs.
--
-- A handler is a function from the state to the state; messages and launched workers are appended to
-- lists of the state, the newest first. The behaviour mutex makes each handler and each end of a
-- worker one step; the environment chooses the order of the steps. A follow request that finds a
-- clean-up under way queues without the mutex: such requests are an argument of the step (arrivals),
-- and one that reads the mode just before the clean-up ends counts as one of them or as a command
-- behind it. What code outside the repository answers (processes, files, the map service, ROS
-- services, the HTTP backend) is an argument of the step, and every theorem holds for all such answers unless it names some. A handler that throws
-- leaves the state as far as it came (Run in Executor/Navigation), and execute catches it.
--
-- Counters of attempts and generations wrap at 2 ^ 64. The loop over the queued follow runs on fuel 2;
-- two rounds are proved to be enough. Numbers are printed on fuel 20, a digit each. The other loops are
-- structural.
--
-- Not modelled: JSON parsing (a request carries the values that its handler reads), time stamps and
-- log output; the search for the markers in a line of /rosout; the report of planning failures; the
-- devices behind camera, broadcast and parameter commands; the local web socket and the JSON
-- objects about the battery. Of the gateway, the probes of the network diagnostics and the times of
-- packets, which nothing reads.
-- The executor's model and those of the gateway, the motion commands, the lights, the outbox, the
-- throttle, the battery and the image recognition stand side by side: what one tells another is an
-- output of the first and an argument of the second.
--
-- The gateway's handlers, timers and tasks run on one strand, so each is one step; what another thread
-- does to the flags before it posts a task is a step of its own. What websocketpp answers is an
-- argument of the step. Its timers end with an error only when they are cancelled, which nothing does
-- before the shutdown. The parser and the printer of JSON are parameters. Counters of attempts and
-- generations wrap at 2 ^ 32, times at 2 ^ 64, as two's complement does.
pub mod Prelude
pub mod Robot
pub mod RobotStatus
pub mod FollowBackend
pub mod Executor
pub mod Outbox
pub mod Gateway
pub mod Battery
pub mod Throttle
pub mod AiRecognition
pub mod BmsForwarder
pub mod Motion
pub mod Light
pub mod Tests
