-- ===== src/Gateway/Message.antt =====
-- What becomes of a message that comes in (`on_message`, `is_duplicate_command` and
-- `is_command_expired` of src/gateway/gateway.cc).
pub mod Keys
pub mod Recent
pub mod Window
pub mod Age
use Prim.Native.Char.{code}
use rover_ops_jm.Prelude.{
  ℕ, ◌+◌, ◌-◌, ◌*◌, ◌%◌, String, Bool, true, false, ◌&&◌, ◌||◌, not, ltb, leb, ◌==◌, nat_eq, List,
  [], ◌∷◌, ◌++◌, Option, none, some, if◌then◌else◌,
}
use rover_ops_jm.Prelude.Texts.{text_eq}
use rover_ops_jm.Prelude.Ints.{ℤ, pos, negsuc}
use rover_ops_jm.Gateway.State.{
  Json, Config, Task, Work, Call, Gateway, call, start_background_task,
}
use rover_ops_jm.Gateway.Connection.{is_same_hdl}
use rover_ops_jm.Gateway.Message.Keys.{
  Members, JsonLibrary, text_of, number_of, value_or_empty, is_relayed, dedup_key,
}
use rover_ops_jm.Gateway.Message.Recent.{remember}

module _ (l : JsonLibrary) where
  -- `is_duplicate_command`, for a type that was read.
  unfoldable pub is_duplicate_command : Gateway → String → Members → Gateway × Bool
  is_duplicate_command g type m = elim (dedup_key l type m) [
    | none ↦ (g, false)
    | some k ↦ let (recent, seen) = remember g.recent k in (record g { recent = recent }, seen)
  ]

-- A time stamp in seconds is told by its size; patterns of 64 bits.
unfoldable pub in_milliseconds : ℕ → ℕ
in_milliseconds sent =
    if ltb 0 sent && ltb sent 100000000000 then sent * 1000 % 18446744073709551616 else sent

-- `now - sent > timeout` over patterns of 64 bits.
unfoldable pub is_older : ℤ → ℕ → ℕ → Bool
is_older (negsuc _) now sent = false
is_older (pos timeout) now sent =
    let age = (now + 18446744073709551616 - sent) % 18446744073709551616 in
    ltb 0 timeout && ltb age 9223372036854775808 && ltb timeout age

unfoldable pub is_command_expired : Config → Members → ℕ → Bool
is_command_expired c m now = elim (number_of "timestamp" m) [
  | none ↦ false
  | some sent ↦ is_older c.command_timeout_ms now (in_milliseconds sent)
]

-- The characters of a text.
abbrev pub codes : String → List ℕ
codes String.[] = []
codes (String.◌∷◌ c s) = code c ∷ codes s

-- `find_first_not_of(" \t\r\n")`, and what stands there.
unfoldable pub first_not_blank : List ℕ → Option ℕ
first_not_blank [] = none
first_not_blank (c ∷ cs) =
    if c == 32 || c == 9 || c == 13 || c == 10 then first_not_blank cs else some c

unfoldable pub maybe_json : ℕ → Bool
maybe_json c =
    c == b'{'
    || c == b'['
    || c == 34
    || c == b'-'
    || leb b'0' c && leb c b'9'
    || c == b't'
    || c == b'f'
    || c == b'n'

-- A handler returns, or an exception leaves it for the thread of the endpoint.
pub data Outcome : Type 0 where
  returned : Gateway → Outcome
  thrown : Gateway → Outcome

module _ (l : JsonLibrary) where
  -- A message to the devices, from the web service.
  unfoldable pub relay : Gateway → String → String → Members → Gateway
  relay g payload type m =
      let (remembered, seen) = is_duplicate_command l g type m in
      elim (text_of "device_id" m) [
        | none ↦ g
        | some device ↦
            if g.device_id == "" || not (device == g.device_id)
            then g
            else if seen
            then remembered
            else if remembered.has_broadcast_callback
            then call remembered (Call.broadcast_callback payload)
            else remembered
      ]

  -- The callback, at once for the types that steer the robot, else in a worker.
  unfoldable pub hand_over : Gateway → String → Members → Gateway
  hand_over g type m =
      if not g.has_message_callback
      then g
      else if type == "control" || type == "action_control"
      then call g (Call.message_callback (Json.object m))
      else start_background_task g (Work.message (Json.object m))

  unfoldable pub deliver : Config → Gateway → ℕ → String → Members → ℕ → Gateway
  deliver c g hdl type m now =
      let (remembered, seen) = is_duplicate_command l g type m in
      let handed = hand_over remembered type m in
      if is_command_expired c m now
      then g
      else if seen
      then remembered
      else if is_same_hdl hdl handed.hdl_handset
      then record handed { posted = handed.posted ++ Task.forward (l.dump (Json.object m)) ∷ [] }
      else handed

  unfoldable pub route : Config → Gateway → ℕ → String → String → Members → ℕ → Outcome
  route c g hdl payload type m now =
      let delivered = Outcome.returned (deliver c g hdl type m now) in
      if is_relayed type && is_same_hdl hdl g.hdl_webserver
      then Outcome.returned (relay g payload type m)
      else if type == "kicked"
      then elim (value_or_empty "reason" m) [
        | none ↦ Outcome.thrown g
        | some reason ↦
            if reason == "new_connection"
            then Outcome.returned (record g { kicked_by_new_default_connection = true })
            else delivered
      ]
      else delivered

  -- What the parser finds: only objects count, whose type, if any, is a text.
  unfoldable pub on_parsed : Config → Gateway → ℕ → String → ℕ → Option Json → Outcome
  on_parsed c g hdl payload now none = Outcome.returned g
  on_parsed c g hdl payload now (some Json.scalar) = Outcome.returned g
  on_parsed c g hdl payload now (some (Json.object m)) = elim (value_or_empty "type" m) [
    | none ↦ Outcome.returned g
    | some type ↦ route c g hdl payload type m now
  ]

  -- `now` is the system's clock in milliseconds.
  unfoldable pub on_message : Config → Gateway → ℕ → String → ℕ → Outcome
  on_message c g hdl payload now = elim (first_not_blank (codes payload)) [
    | none ↦ Outcome.returned g
    | some first ↦
        if not (maybe_json first)
        then Outcome.returned g
        else on_parsed c g hdl payload now (l.parse payload)
  ]
