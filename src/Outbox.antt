-- ===== src/Outbox.antt =====
-- The messages that wait for the connection to the cloud (`send_to_cloud` and `try_flush_msgs` of
-- src/CommandExecutor.cc).
pub mod Delivery
use rover_ops_jm.Prelude.{
  ℕ, zero, suc, Option, none, some, String, Bool, true, false, ◌&&◌, not, leb, if◌then◌else◌, List,
  [], ◌∷◌, ◌++◌, length, keep_if,
}

-- A message with what the two searches in its text find: the type of a position, and the type of a
-- state of the robot.
pub record Item : Type 0 where
  pub has_position : Bool
  pub has_robot_state : Bool
  pub text : String

abbrev pub limit : ℕ
limit = 50

unfoldable pub is_position : Item → Bool
is_position m = m.has_position

unfoldable pub is_robot_state : Item → Bool
is_robot_state m = m.has_robot_state

unfoldable pub without_robot_state : List Item → List Item
without_robot_state ms = keep_if (λ m. not (is_robot_state m)) ms

-- The loop that drops positions from the front of a full queue.
unfoldable pub drop_positions : List Item → List Item
drop_positions [] = []
drop_positions (m ∷ ms) =
    let rest = drop_positions ms in
    if leb limit (length (m ∷ ms)) && is_position m then rest else m ∷ ms

-- What a new message does to the queue before it is taken or turned away.
unfoldable pub make_room : List Item → Item → List Item
unfolding without_robot_state drop_positions is_robot_state is_position
make_room pending m =
    let cleared = if is_robot_state m then without_robot_state pending else pending in
    if is_position m then drop_positions cleared else cleared

-- `send_to_cloud` up to its call of `try_flush_msgs`, under the mutex of the queue; an early return
-- leaves the call out, and the Boolean tells whether it is made.
unfoldable pub enqueue : List Item → Item → List Item × Bool
unfolding make_room
enqueue pending m =
    let room = make_room pending m in
    let full = leb limit (length room) in
    if is_position m && full
    then (room, false)
    else if is_robot_state m && full
    then (room, false)
    else (room ++ m ∷ [], true)

-- The queue; the messages that threads inside `try_flush_msgs` have taken out and given to
-- `sendToWeb`, which runs without the mutex of the queue; and what is known to be sent, the newest
-- first. `late` are the messages that go out although `sendToWeb` has told that they do not: its
-- wait has timed out, and its task is still posted.
pub record Outbox : Type 0 where
  pub pending : List Item
  pub flights : List Item
  pub sent : List Item
  pub late : List Item

-- A thread hands over a message; a thread looks at the queue, while the gateway is connected or
-- not; the send at a place among the flights is answered, and if it fails may go out later.
pub data Event : Type 0 where
  handed_over : Item → Event
  looks : Bool → Event
  answered : ℕ → Bool → Bool → Event

-- A thread that begins or goes on with its loop takes the front of the queue.
unfoldable pub take_from : List Item → Outbox → Outbox
take_from [] o = o
take_from (m ∷ ms) o = record o { pending = ms; flights = m ∷ o.flights }

unfoldable pub take_front : Outbox → Outbox
take_front o = take_from o.pending o

-- What the answer of `sendToWeb` does with the message: it is sent, or put back at the front.
unfoldable pub settle_send : Outbox → Item → Bool → Bool → Outbox
settle_send o m ok goes_out =
    if ok
    then record o { sent = m ∷ o.sent }
    else if goes_out
    then record o { pending = m ∷ o.pending; late = m ∷ o.late }
    else record o { pending = m ∷ o.pending }

unfoldable pub nth_flight : ℕ → List Item → Option Item
nth_flight n [] = none
nth_flight zero (m ∷ ms) = some m
nth_flight (suc n) (m ∷ ms) = nth_flight n ms

unfoldable pub without_flight : ℕ → List Item → List Item
without_flight n [] = []
without_flight zero (m ∷ ms) = ms
without_flight (suc n) (m ∷ ms) = m ∷ without_flight n ms

unfoldable pub send_answered : Outbox → ℕ → Bool → Bool → Outbox
send_answered o n ok goes_out = elim (nth_flight n o.flights) [
  | none ↦ o
  | some m ↦ settle_send (record o { flights = without_flight n o.flights }) m ok goes_out
]

-- One step of one thread; that a thread calls `try_flush_msgs` and goes on behind a success is a
-- look of its own.
unfoldable pub step : Outbox → Event → Outbox
step o (Event.handed_over m) = record o { pending = (enqueue o.pending m).0 }
step o (Event.looks connected) = if connected then take_front o else o
step o (Event.answered n ok goes_out) = send_answered o n ok goes_out

unfoldable pub run : Outbox → List Event → Outbox
run o [] = o
run o (event ∷ events) = run (step o event) events
