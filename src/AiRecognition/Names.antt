-- ===== src/AiRecognition/Names.antt =====
-- The names of the files and the images in them (src/aiRecognition/AiRecognitionAckHandler.cc).
use rover_ops_jm.Prelude.{
  ℕ, zero, suc, ◌+◌, ◌-◌, ◌/◌, ◌%◌, ◌==◌, nat_eq, Bool, false, ◌&&◌, ◌||◌, not, leb, ltb, List, [],
  ◌∷◌, ◌++◌, Option, none, some, map, length, keep_if, if◌then◌else◌,
}
use rover_ops_jm.Prelude.Ints.{ℤ, pos, negsuc}
use rover_ops_jm.Gateway.Endpoint.{drop, take, starts_with, find_char}

-- `isalnum` and `isspace` of a byte.
abbrev pub is_between : ℕ → ℕ → ℕ → Bool
is_between low high c = leb low c && leb c high

abbrev pub is_alnum : ℕ → Bool
is_alnum c = is_between b'0' b'9' c || is_between b'A' b'Z' c || is_between b'a' b'z' c

abbrev pub is_space : ℕ → Bool
is_space c = c == 32 || is_between 9 13 c

abbrev pub is_safe : ℕ → Bool
is_safe c = is_alnum c || c == b'-' || c == b'_'

abbrev pub unknown : List ℕ
unknown = b'u' ∷ b'n' ∷ b'k' ∷ b'n' ∷ b'o' ∷ b'w' ∷ b'n' ∷ []

unfoldable pub safe_file_component : List ℕ → List ℕ
safe_file_component [] = unknown
safe_file_component (c ∷ cs) = map (λ c. if is_safe c then c else b'_') (c ∷ cs)

-- The vector that `decode_base64` leaves: none if it fails, and an exception if it should get a
-- length below zero.
pub data Decoded : Type 0 where
  failed : Decoded
  thrown : Decoded
  image : List ℕ → Decoded

abbrev data_mark : List ℕ
data_mark = b'd' ∷ b'a' ∷ b't' ∷ b'a' ∷ b':' ∷ []

unfoldable pub after_comma : List ℕ → List ℕ
after_comma encoded = elim (find_char b',' encoded) [
  | none ↦ encoded
  | some comma ↦ if starts_with data_mark encoded then drop (comma + 1) encoded else encoded
]

unfoldable pub is_pad_at : ℕ → List ℕ → Bool
is_pad_at zero [] = false
is_pad_at zero (c ∷ cs) = c == b'='
is_pad_at (suc n) [] = false
is_pad_at (suc n) (c ∷ cs) = is_pad_at n cs

abbrev one_if : Bool → ℕ
one_if b = if b then 1 else 0

unfoldable pub padding : List ℕ → ℕ
padding input =
    one_if (is_pad_at (length input - 1) input) + one_if (is_pad_at (length input - 2) input)

unfoldable pub without_padding : List ℕ → List ℕ → Decoded
without_padding input block =
    if ltb (length block) (padding input)
    then Decoded.thrown
    else Decoded.image (take (length block - padding input) block)

-- `decode_block` is `EVP_DecodeBlock`, with the bytes that it decodes.
unfoldable pub decode_base64 : (List ℕ → Option (List ℕ)) → List ℕ → Decoded
decode_base64 decode_block encoded =
    let input = keep_if (λ c. not (is_space c)) (after_comma encoded) in
    if length input == 0 || not (length input % 4 == 0)
    then Decoded.failed
    else elim (decode_block input) [
      | none ↦ Decoded.failed
      | some block ↦ without_padding input block
    ]

unfoldable pub image_extension : List ℕ → List ℕ
image_extension bytes =
    if leb 8 (length bytes) && starts_with (137 ∷ b'P' ∷ b'N' ∷ b'G' ∷ []) bytes
    then b'.' ∷ b'p' ∷ b'n' ∷ b'g' ∷ []
    else if leb 3 (length bytes) && starts_with (255 ∷ 216 ∷ 255 ∷ []) bytes
    then b'.' ∷ b'j' ∷ b'p' ∷ b'g' ∷ []
    else if leb 6 (length bytes) && starts_with (b'G' ∷ b'I' ∷ b'F' ∷ []) bytes
    then b'.' ∷ b'g' ∷ b'i' ∷ b'f' ∷ []
    else if leb 12 (length bytes)
        && starts_with (b'R' ∷ b'I' ∷ b'F' ∷ b'F' ∷ []) bytes
        && starts_with (b'W' ∷ b'E' ∷ b'B' ∷ b'P' ∷ []) (drop 8 bytes)
    then b'.' ∷ b'w' ∷ b'e' ∷ b'b' ∷ b'p' ∷ []
    else b'.' ∷ b'b' ∷ b'i' ∷ b'n' ∷ []

-- `to_string` of a number of at most `fuel` digits.
unfoldable pub digits : ℕ → ℕ → List ℕ
digits zero n = []
digits (suc fuel) n =
    let rest = digits fuel (n / 10) in
    if ltb n 10 then (b'0' + n) ∷ [] else rest ++ (b'0' + n % 10) ∷ []

unfoldable pub to_string : ℤ → List ℕ
to_string (pos n) = digits 20 n
to_string (negsuc n) = b'-' ∷ digits 20 (n + 1)

unfoldable pub file_name : List ℕ → ℤ → ℕ → List ℕ → List ℕ
file_name type timestamp index bytes =
    safe_file_component type
    ++ b'_' ∷ (to_string timestamp ++ b'_' ∷ (digits 20 index ++ image_extension bytes))
