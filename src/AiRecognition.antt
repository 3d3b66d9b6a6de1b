-- ===== src/AiRecognition.antt =====
-- The answers of the image recognition, whose images are kept as files
-- (src/aiRecognition/AiRecognitionAckHandler.cc).
pub mod Digits
pub mod Inside
pub mod Names
use rover_ops_jm.Prelude.{
  ℕ, ◌+◌, String, Bool, true, false, ◌&&◌, ◌||◌, not, List, [], ◌∷◌, Option, none, some,
  if◌then◌else◌,
}
use rover_ops_jm.Prelude.Ints.{ℤ, pos}
use rover_ops_jm.Battery.{same_text}
use rover_ops_jm.AiRecognition.Names.{Decoded, decode_base64, file_name}

-- What is used of the JSON library.
pub record JsonReader (J : Type 0) : Type 0 where
  pub parse : List ℕ → Option J
  pub is_object : J → Bool
  pub member : J → String → Option J
  pub elements : J → Option (List J)
  pub text_of : J → Option (List ℕ)
  pub number_of : J → Option ℤ

-- What is sent and written, the newest first, and whether an exception ends the handler.
pub record Outcome : Type 0 where
  pub sent : List (List ℕ)
  pub files : List (List ℕ × List ℕ)
  pub has_thrown : Bool

abbrev pub no_effect : Outcome
no_effect = record { sent = []; files = []; has_thrown = false }

abbrev throws : Outcome → Outcome
throws o = record o { has_thrown = true }

abbrev pub word_ack : List ℕ
word_ack = b'a' ∷ b'c' ∷ b'k' ∷ []

abbrev pub word_ok : List ℕ
word_ok = b'o' ∷ b'k' ∷ []

abbrev pub word_algorithm : List ℕ
word_algorithm = b'a' ∷ b'l' ∷ b'g' ∷ b'o' ∷ b'r' ∷ b'i' ∷ b't' ∷ b'h' ∷ b'm' ∷ []

abbrev pub word_device : List ℕ
word_device =
    b'a' ∷ b'i' ∷ b'_' ∷ b'r' ∷ b'e' ∷ b'c' ∷ b'o' ∷ b'g' ∷ b'n' ∷ b'i' ∷ b't' ∷ b'i' ∷ b'o' ∷ b'n'
    ∷ []

-- What is asked of an answer before its images are looked at.
abbrev pub words : List ℕ → List (String × List ℕ)
words device_id =
    ("type", word_ack)
    ∷ ("device", word_device)
    ∷ ("device_id", device_id)
    ∷ ("status", word_ok)
    ∷ []

module _ {J : Type 0} (lib : JsonReader J) where
  -- `value` with a text or a number as its default; none where it throws, since the member is there
  -- and of another type.
  unfoldable pub text_or : J → String → List ℕ → Option (List ℕ)
  text_or j key default = elim (lib.member j key) [ none ↦ some default | some v ↦ lib.text_of v ]

  unfoldable pub number_or : J → String → ℤ → Option ℤ
  number_or j key default = elim (lib.member j key) [
    | none ↦ some default
    | some v ↦ lib.number_of v
  ]

  -- The tests of the members one after the other: each has its word, or one throws.
  unfoldable pub has_words : J → List (String × List ℕ) → Option Bool
  has_words j [] = some true
  has_words j ((key, word) ∷ rest) =
      let others = has_words j rest in
      elim (text_or j key []) [
        | none ↦ none
        | some t ↦ if same_text t word then others else some false
      ]

  -- The image is written under its name; `writes` tells for each index whether that succeeds.
  unfoldable pub save : J → J → ℕ → (ℕ → Bool) → List ℕ → Outcome → Outcome
  save ack algorithm index writes bytes o = elim (text_or algorithm "type" word_algorithm) [
    | none ↦ throws o
    | some type ↦ elim (number_or ack "timestamp" (pos 0)) [
      | none ↦ throws o
      | some default ↦ elim (number_or algorithm "timestamp" default) [
        | none ↦ throws o
        | some timestamp ↦
            if writes index
            then record o { files = (file_name type timestamp index bytes, bytes) ∷ o.files }
            else o
      ]
    ]
  ]

  unfoldable pub save_decoded : J → J → ℕ → (ℕ → Bool) → Decoded → Outcome → Outcome
  save_decoded ack algorithm index writes Decoded.failed o = o
  save_decoded ack algorithm index writes Decoded.thrown o = throws o
  save_decoded ack algorithm index writes (Decoded.image []) o = o
  save_decoded ack algorithm index writes (Decoded.image (x ∷ xs)) o =
      save ack algorithm index writes (x ∷ xs) o

  unfoldable pub encoded_image : J → Option (List ℕ)
  encoded_image algorithm =
      if not (lib.is_object algorithm)
      then none
      else elim (lib.member algorithm "image_base64") [ none ↦ none | some v ↦ lib.text_of v ]

  unfoldable pub algorithms_of : J → Option (List J)
  algorithms_of ack = elim (lib.member ack "result") [
    | none ↦ none
    | some result ↦
        if not (lib.is_object result)
        then none
        else elim (lib.member result "algorithms") [ none ↦ none | some v ↦ lib.elements v ]
  ]

module _ {J : Type 0} (lib : JsonReader J) (decode_block : List ℕ → Option (List ℕ)) where
  unfoldable pub save_algorithm : J → J → ℕ → (ℕ → Bool) → Outcome → Outcome
  save_algorithm ack algorithm index writes o = elim (encoded_image lib algorithm) [
    | none ↦ o
    | some encoded ↦
        save_decoded lib ack algorithm index writes (decode_base64 decode_block encoded) o
  ]

  -- The loop over the algorithms from an index on, which an exception ends.
  unfoldable pub save_all : J → List J → ℕ → (ℕ → Bool) → Outcome → Outcome
  save_all ack [] index writes o = o
  save_all ack (algorithm ∷ rest) index writes o =
      let saved = save_algorithm ack algorithm index writes o in
      let others = save_all ack rest (index + 1) writes saved in
      if saved.has_thrown then saved else others

  -- From the message to the cloud on; `id` and `seq` are read and not used.
  unfoldable pub keep_images : J → List J → (ℕ → Bool) → Outcome → Outcome
  keep_images ack algorithms writes o = elim (text_or lib ack "id" word_ack) [
    | none ↦ throws o
    | some id ↦ elim (number_or lib ack "seq" (pos 0)) [
      | none ↦ throws o
      | some seq ↦ save_all ack algorithms 0 writes o
    ]
  ]

  -- `created` tells whether the directory can be made.
  unfoldable pub handle_wanted : Bool → (ℕ → Bool) → List ℕ → J → Outcome
  handle_wanted created writes payload ack = elim (algorithms_of lib ack) [
    | none ↦ no_effect
    | some algorithms ↦
        if created
        then keep_images ack algorithms writes (record no_effect { sent = payload ∷ [] })
        else no_effect
  ]

  unfoldable pub handle_parsed : List ℕ → Bool → (ℕ → Bool) → List ℕ → J → Outcome
  handle_parsed device_id created writes payload ack = elim (has_words lib ack (words device_id)) [
    | none ↦ throws no_effect
    | some is_wanted ↦ if is_wanted then handle_wanted created writes payload ack else no_effect
  ]

  unfoldable pub handle : List ℕ → Bool → (ℕ → Bool) → List ℕ → Bool → Outcome
  handle device_id created writes payload binary =
      if binary then no_effect else elim (lib.parse payload) [
        | none ↦ no_effect
        | some ack ↦
            if lib.is_object ack
            then handle_parsed device_id created writes payload ack
            else no_effect
      ]
