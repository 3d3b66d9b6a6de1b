-- ===== src/Gateway/Message/Keys.antt =====
-- The members of a message, and the key by which a repeated command is known
-- (`is_duplicate_command` of src/gateway/gateway.cc).
use Prim.Native.String.{◌++◌ as append}
use rover_ops_jm.Prelude.{
  ℕ, String, Bool, ◌||◌, ◌==◌, List, [], ◌∷◌, Option, none, some, if◌then◌else◌,
}
use rover_ops_jm.Prelude.Texts.{text_eq}
use rover_ops_jm.Gateway.State.{Value, Json}

abbrev pub Members : Type 0
Members = List (String × Value)

-- What the gateway uses of the JSON library: its parser, and how it prints an integer, a value,
-- and the array of the four parts of a key.
pub record JsonLibrary : Type 0 where
  pub parse : String → Option Json
  pub dump_integer : ℕ → String
  pub dump_key : String → String → ℕ → String → String
  pub dump : Json → String

unfoldable pub find : String → Members → Option Value
find k [] = none
find k ((j, v) ∷ m) = if j == k then some v else find k m

-- The text of a member; none where it is missing or no text.
unfoldable pub text_of : String → Members → Option String
unfolding find
text_of k m = elim (find k m) [
  | none ↦ none
  | some (Value.text s) ↦ some s
  | some (Value.integer n) ↦ none
  | some (Value.number n) ↦ none
  | some Value.other ↦ none
]

unfoldable pub integer_of : String → Members → Option ℕ
unfolding find
integer_of k m = elim (find k m) [
  | none ↦ none
  | some (Value.text s) ↦ none
  | some (Value.integer n) ↦ some n
  | some (Value.number n) ↦ none
  | some Value.other ↦ none
]

-- A number of either kind, as a `long long`.
unfoldable pub number_of : String → Members → Option ℕ
unfolding find
number_of k m = elim (find k m) [
  | none ↦ none
  | some (Value.text s) ↦ none
  | some (Value.integer n) ↦ some n
  | some (Value.number n) ↦ some n
  | some Value.other ↦ none
]

-- `value(k, "")`; none where it throws, since the member is there and no text.
unfoldable pub value_or_empty : String → Members → Option String
unfolding find text_of
value_or_empty k m = elim (find k m) [ none ↦ some "" | some v ↦ text_of k m ]

-- The types that are passed on to the devices.
unfoldable pub is_relayed : String → Bool
is_relayed type = type == "broadcast" || type == "roboticarm" || type == "ai_recognition"

module _ (l : JsonLibrary) where
  -- The key of a command by its first usable identifier.
  unfoldable pub ordinary_key : String → List String → Members → Option String
  unfolding find
  ordinary_key type [] m = none
  ordinary_key type (k ∷ ks) m =
      let rest = ordinary_key type ks m in
      let keyed = λ (s : String).
        if s == "" then rest else some (append type (append ":" (append k (append ":" s)))) in
      elim (find k m) [
        | none ↦ rest
        | some (Value.text s) ↦ keyed s
        | some (Value.integer n) ↦ keyed (l.dump_integer n)
        | some (Value.number n) ↦ rest
        | some Value.other ↦ rest
      ]

  unfoldable pub relayed_key : String → Members → Option String
  unfolding integer_of text_of
  relayed_key type m = elim (integer_of "seq" m) [
    | none ↦ none
    | some seq ↦ elim (text_of "device_id" m) [
      | none ↦ none
      | some device ↦ elim (text_of "id" m) [
        | none ↦ none
        | some id ↦ if device == "" || id == "" then none else some (l.dump_key type device seq id)
      ]
    ]
  ]

  unfoldable pub dedup_key : String → Members → Option String
  unfolding is_relayed relayed_key ordinary_key
  dedup_key type m =
      if is_relayed type
      then relayed_key type m
      else ordinary_key type ("command_id" ∷ "cmd_id" ∷ "request_id" ∷ "msg_id" ∷ []) m
