-- ===== src/Tests/Images.antt =====
-- The image recognition at a concrete answer.
use rover_ops_jm.Prelude.{
  ℕ, String, Bool, true, false, ◌==◌, nat_eq, List, [], ◌∷◌, Option, none, some, if◌then◌else◌, ◌≡◌,
  refl,
}
use rover_ops_jm.Prelude.Texts.{text_eq}
use rover_ops_jm.AiRecognition.{
  JsonReader, Outcome, text_or, number_or, has_words, save, save_decoded, encoded_image,
  save_algorithm, save_all, algorithms_of, keep_images, handle_wanted, handle_parsed, handle,
  word_ack, word_ok, word_device,
}
use rover_ops_jm.AiRecognition.Names.{
  safe_file_component, after_comma, is_pad_at, padding, without_padding, decode_base64,
  image_extension, digits, to_string, file_name,
}
use rover_ops_jm.Battery.{same_text}
use rover_ops_jm.Gateway.Endpoint.{find_char, take, starts_with}
use rover_ops_jm.AiRecognition.Inside.{AllInside, handle-inside}

-- An answer with one algorithm whose type leads out of the directory.
data Doc : Type 0 where
  answer kind device device_id status result algorithms algorithm image path : Doc

abbrev is_record : Doc → Bool
is_record Doc.answer = true
is_record Doc.result = true
is_record Doc.algorithm = true
is_record _ = false

abbrev member_of : Doc → String → Option Doc
member_of Doc.answer key =
    if key == "type"
    then some Doc.kind
    else if key == "device"
    then some Doc.device
    else if key == "device_id"
    then some Doc.device_id
    else if key == "status"
    then some Doc.status
    else if key == "result"
    then some Doc.result
    else none
member_of Doc.result key = if key == "algorithms" then some Doc.algorithms else none
member_of Doc.algorithm key =
    if key == "image_base64" then some Doc.image else if key == "type" then some Doc.path else none
member_of _ key = none

abbrev text_at : Doc → Option (List ℕ)
text_at Doc.kind = some word_ack
text_at Doc.device = some word_device
text_at Doc.device_id = some (b'd' ∷ [])
text_at Doc.status = some word_ok
text_at Doc.image = some (b'/' ∷ b'9' ∷ b'j' ∷ b'/' ∷ [])
text_at Doc.path = some (b'.' ∷ b'.' ∷ b'/' ∷ b'x' ∷ [])
text_at _ = none

abbrev elements_at : Doc → Option (List Doc)
elements_at Doc.algorithms = some (Doc.algorithm ∷ [])
elements_at _ = none

abbrev reader : JsonReader Doc
reader = record {
  parse = λ payload. some Doc.answer;
  is_object = is_record;
  member = member_of;
  elements = elements_at;
  text_of = text_at;
  number_of = λ j. none;
}

-- The four characters of the example decode to the beginning of a JPEG.
abbrev answered : Outcome
answered =
    handle reader (λ input. some (255 ∷ 216 ∷ 255 ∷ [])) (b'd' ∷ []) true (λ n. true) [] false

files-answered :
    answered.files
    ≡ (
      b'_' ∷ b'_' ∷ b'_' ∷ b'x' ∷ b'_' ∷ b'0' ∷ b'_' ∷ b'0' ∷ b'.' ∷ b'j' ∷ b'p' ∷ b'g' ∷ [],
      255 ∷ 216 ∷ 255 ∷ [],
    )
      ∷ []
unfolding handle handle_parsed handle_wanted keep_images save_all save_algorithm encoded_image
    save_decoded save algorithms_of has_words text_or number_or safe_file_component after_comma
    is_pad_at padding without_padding decode_base64 image_extension digits to_string file_name
    same_text find_char take starts_with
files-answered = refl

handle-inside_example : AllInside answered.files
handle-inside_example =
    handle-inside reader (λ input. some (255 ∷ 216 ∷ 255 ∷ [])) (b'd' ∷ []) true (λ n. true) []
      false
