-- ===== src/Outbox/Delivery.antt =====
-- No ordinary message to the cloud is lost or doubled in the queue (src/CommandExecutor.cc).
use rover_ops_jm.Prelude.{
  ℕ, zero, suc, ◌+◌, String, ◌==◌, some, option_keeps, if◌then◌else◌, Bool, true, false, ◌&&◌, not,
  leb, List, [], ◌∷◌, ◌++◌, length, ◌≡◌, ◌⊎◌, inl, inr, refl, ap, sym, ◌∙◌, keep_if, keep_if-append,
  if_cases, if_keeps, Bool-cases, arith,
}
use rover_ops_jm.Prelude.Texts.{text_eq}
use rover_ops_jm.Outbox.{
  Item, limit, is_position, is_robot_state, without_robot_state, drop_positions, make_room, enqueue,
  Outbox, Event, take_from, take_front, settle_send, nth_flight, without_flight, send_answered,
  step, run,
}

abbrev is_ordinary : Item → Bool
is_ordinary m = not (is_position m) && not (is_robot_state m)

-- The messages that are neither positions nor states of the robot, in order.
unfoldable pub ordinary : List Item → List Item
ordinary ms = keep_if is_ordinary ms

without_robot_state-ordinary : (ms : List Item) → ordinary (without_robot_state ms) ≡ ordinary ms
unfolding ordinary without_robot_state is_position is_robot_state
without_robot_state-ordinary [] = refl
without_robot_state-ordinary (m ∷ ms) = ground (arith, without_robot_state-ordinary ms)

drop_positions-ordinary : (ms : List Item) → ordinary (drop_positions ms) ≡ ordinary ms
unfolding ordinary drop_positions
drop_positions-ordinary [] = refl
drop_positions-ordinary (m ∷ ms) = ground (arith, drop_positions-ordinary ms)

ordinary-append : (xs ys : List Item) → ordinary (xs ++ ys) ≡ ordinary xs ++ ordinary ys
unfolding ordinary
ordinary-append xs ys = keep_if-append is_ordinary xs ys

append_nil : (xs : List Item) → xs ++ [] ≡ xs
append_nil [] = refl
append_nil (x ∷ xs) = ap (λ l. x ∷ l) (append_nil xs)

make_room-ordinary : (ms : List Item) (m : Item) → ordinary (make_room ms m) ≡ ordinary ms
unfolding make_room
make_room-ordinary ms m =
    let cleared =
      if_keeps (λ (l : List Item). ordinary l ≡ ordinary ms) (is_robot_state m)
        (without_robot_state-ordinary ms) refl in
    if_keeps (λ (l : List Item). ordinary l ≡ ordinary ms) (is_position m)
      (drop_positions-ordinary _ ∙ cleared) cleared

none_ordinary :
    (m : Item) (b : Bool)
    → (is_position m && b ≡ true) ⊎ (is_robot_state m && b ≡ true)
    → ordinary (m ∷ []) ≡ []
unfolding ordinary
none_ordinary m b h = ground arith

turned_away :
    (ms : List Item) (m : Item) (b : Bool)
    → (is_position m && b ≡ true) ⊎ (is_robot_state m && b ≡ true)
    → ordinary (make_room ms m) ≡ ordinary ms ++ ordinary (m ∷ [])
turned_away ms m b h =
    make_room-ordinary ms m
    ∙ sym (append_nil (ordinary ms))
    ∙ ap (λ l. ordinary ms ++ l) (sym (none_ordinary m b h))

enqueue-ordinary :
    (ms : List Item) (m : Item) → ordinary (enqueue ms m).0 ≡ ordinary ms ++ ordinary (m ∷ [])
unfolding enqueue
enqueue-ordinary ms m =
    let full = leb limit (length (make_room ms m)) in
    let P = λ (r : List Item × Bool). ordinary r.0 ≡ ordinary ms ++ ordinary (m ∷ []) in
    if_cases {A = List Item × Bool} P (is_position m && full) (λ h. turned_away ms m full (inl h))
      (λ h.
        if_cases {A = List Item × Bool} P (is_robot_state m && full)
          (λ k. turned_away ms m full (inr k))
          (λ k.
            ordinary-append (make_room ms m) (m ∷ [])
            ∙ ap (λ l. l ++ ordinary (m ∷ [])) (make_room-ordinary ms m)))

-- How often a text stands among the ordinary messages of a list.
unfoldable pub count : String → List Item → ℕ
count t [] = 0
count t (m ∷ ms) = (if is_ordinary m && m.text == t then 1 else 0) + count t ms

count-ordinary : (t : String) (ms : List Item) → count t (ordinary ms) ≡ count t ms
unfolding count ordinary
count-ordinary t [] = refl
count-ordinary t (m ∷ ms) = elim (Bool-cases (is_ordinary m)) [
  | inl e ↦ rw e (rw e (ap (λ n. (if m.text == t then 1 else 0) + n) (count-ordinary t ms)))
  | inr e ↦ rw e (omega (arith, count-ordinary t ms))
]

count-append : (t : String) (xs ys : List Item) → count t (xs ++ ys) ≡ count t xs + count t ys
unfolding count
count-append t [] ys = omega arith
count-append t (x ∷ xs) ys = omega (arith, count-append t xs ys)

enqueue-count :
    (t : String) (ms : List Item) (m : Item)
    → count t (enqueue ms m).0 ≡ count t ms + count t (m ∷ [])
enqueue-count t ms m =
    sym (count-ordinary t (enqueue ms m).0)
    ∙ ap (count t) (enqueue-ordinary ms m)
    ∙ count-append t (ordinary ms) (ordinary (m ∷ []))
    ∙ ground (arith, count-ordinary t ms, count-ordinary t (m ∷ []))

-- How often a text waits, is being sent, or is known to be sent.
abbrev pub tally : String → Outbox → ℕ
tally t o = count t o.pending + count t o.flights + count t o.sent

-- The messages that are handed over.
pub handed : List Event → List Item
handed [] = []
handed (Event.handed_over m ∷ events) = m ∷ handed events
handed (Event.looks connected ∷ events) = handed events
handed (Event.answered n ok goes_out ∷ events) = handed events

take_from-tally :
    (t : String) (ms : List Item) (o : Outbox)
    → o.pending ≡ ms
    → tally t (take_from ms o) ≡ tally t o
unfolding take_from count
take_from-tally t [] o h = refl
take_from-tally t (m ∷ ms) o h = omega (arith, ap (count t) h)

take_front-tally : (t : String) (o : Outbox) → tally t (take_front o) ≡ tally t o
unfolding take_front
take_front-tally t o = take_from-tally t o.pending o refl

without_flight-count :
    (t : String) (n : ℕ) (ms : List Item) (m : Item)
    → nth_flight n ms ≡ some m
    → count t ms ≡ count t (m ∷ []) + count t (without_flight n ms)
unfolding nth_flight without_flight count
without_flight-count t n [] m h = cc
without_flight-count t zero (x ∷ xs) m h = ground arith
without_flight-count t (suc n) (x ∷ xs) m h = omega (arith, without_flight-count t n xs m h)

settle_send-tally :
    (t : String) (o : Outbox) (m : Item) (ok goes_out : Bool)
    → tally t (settle_send o m ok goes_out) ≡ tally t o + count t (m ∷ [])
unfolding settle_send count
settle_send-tally t o m true goes_out = omega arith
settle_send-tally t o m false true = omega arith
settle_send-tally t o m false false = omega arith

send_answered-tally :
    (t : String) (o : Outbox) (n : ℕ) (ok goes_out : Bool)
    → tally t (send_answered o n ok goes_out) ≡ tally t o
unfolding send_answered
send_answered-tally t o n ok goes_out =
    option_keeps (λ d. tally t d ≡ tally t o) (nth_flight n o.flights) (λ h. refl)
      (λ m h.
        settle_send-tally t (record o { flights = without_flight n o.flights }) m ok goes_out
        ∙ omega (arith, without_flight-count t n o.flights m h))

-- No ordinary message is lost, and none is there twice, whatever threads send at the same time and
-- whatever the gateway answers, in any order: as often as a text has been handed over, it waits in
-- the queue, is being sent by one thread, or is known to be sent. What goes out after its send
-- was told to have failed is put back and counts as waiting.
pub run-tally :
    (t : String) (o : Outbox) (events : List Event)
    → tally t (run o events) ≡ tally t o + count t (handed events)
unfolding run step handed count
run-tally t o [] = omega arith
run-tally t o (Event.handed_over m ∷ events) =
    run-tally t (record o { pending = (enqueue o.pending m).0 }) events
    ∙ omega (arith, enqueue-count t o.pending m)
run-tally t o (Event.looks true ∷ events) =
    run-tally t (take_front o) events ∙ omega (arith, take_front-tally t o)
run-tally t o (Event.looks false ∷ events) = run-tally t o events
run-tally t o (Event.answered n ok goes_out ∷ events) =
    run-tally t (send_answered o n ok goes_out) events
    ∙ omega (arith, send_answered-tally t o n ok goes_out)
