-- ===== src/AiRecognition/Inside.antt =====
-- Where the files are that an answer of the image recognition leaves.
use rover_ops_jm.Prelude.{
  ℕ, zero, suc, ◌+◌, ◌/◌, ◌%◌, ◌==◌, nat_eq, Bool, true, false, ◌&&◌, not, List, [], ◌∷◌, ◌++◌,
  Option, map, if◌then◌else◌, if_keeps, option_keeps, ◌≡◌, refl, arith,
}
use rover_ops_jm.Prelude.Ints.{ℤ, pos, negsuc}
use rover_ops_jm.AiRecognition.Names.{
  is_safe, safe_file_component, Decoded, decode_base64, image_extension, digits, to_string,
  file_name,
}
use rover_ops_jm.AiRecognition.{
  JsonReader, Outcome, text_or, number_or, has_words, save, save_decoded, encoded_image,
  save_algorithm, save_all, algorithms_of, keep_images, words, handle_wanted, handle_parsed, handle,
  word_algorithm, word_ack,
}

-- Neither the separator of paths nor the end of a text.
abbrev pub is_inner : ℕ → Bool
is_inner c = not (c == b'/') && not (c == 0)

pub all_inner : List ℕ → Bool
all_inner [] = true
all_inner (c ∷ cs) = is_inner c && all_inner cs

-- The name of a file in the directory itself, neither the directory nor the one above it.
abbrev pub is_inside : List ℕ → Bool
is_inside [] = false
is_inside (c ∷ cs) = not (c == b'.') && all_inner (c ∷ cs)

all_inner-append : (xs ys : List ℕ) → all_inner (xs ++ ys) ≡ (all_inner xs && all_inner ys)
unfolding all_inner
all_inner-append [] ys = refl
all_inner-append (x ∷ xs) ys = ground (arith, all_inner-append xs ys)

abbrev made_safe : ℕ → ℕ
made_safe c = if is_safe c then c else b'_'

made_safe-inner : (c : ℕ) → is_inside (made_safe c ∷ []) ≡ true
unfolding all_inner
made_safe-inner c = ground arith

map-inner : (cs rest : List ℕ) → all_inner (map made_safe cs ++ rest) ≡ all_inner rest
unfolding all_inner
map-inner [] rest = refl
map-inner (c ∷ cs) rest = ground (arith, map-inner cs rest, made_safe-inner c)

safe-inside :
    (type rest : List ℕ)
    → all_inner rest ≡ true
    → is_inside (safe_file_component type ++ rest) ≡ true
unfolding safe_file_component all_inner
safe-inside [] rest h = ground arith
safe-inside (c ∷ cs) rest h = ground (arith, map-inner cs rest, made_safe-inner c)

digits-inner : (fuel n : ℕ) → all_inner (digits fuel n) ≡ true
unfolding digits all_inner
digits-inner zero n = refl
digits-inner (suc fuel) n = ground (
  arith,
  digits-inner fuel (n / 10),
  all_inner-append (digits fuel (n / 10)) ((b'0' + n % 10) ∷ []),
)

to_string-inner : (n : ℤ) → all_inner (to_string n) ≡ true
unfolding to_string all_inner
to_string-inner (pos n) = digits-inner 20 n
to_string-inner (negsuc n) = ground (arith, digits-inner 20 (n + 1))

image_extension-inner : (bytes : List ℕ) → all_inner (image_extension bytes) ≡ true
unfolding image_extension all_inner
image_extension-inner bytes = ground arith

file_name-inside :
    (type : List ℕ) (timestamp : ℤ) (index : ℕ) (bytes : List ℕ)
    → is_inside (file_name type timestamp index bytes) ≡ true
unfolding file_name all_inner
file_name-inside type timestamp index bytes = safe-inside type _ (
    ground (
      arith,
      all_inner-append (to_string timestamp) (b'_' ∷ (digits 20 index ++ image_extension bytes)),
      all_inner-append (digits 20 index) (image_extension bytes),
      to_string-inner timestamp,
      digits-inner 20 index,
      image_extension-inner bytes,
    ))

abbrev pub AllInside : List (List ℕ × List ℕ) → Type 0
AllInside [] = Unit
AllInside ((name, content) ∷ files) = (is_inside name ≡ true) × AllInside files

abbrev FilesInside : Outcome → Type 0
FilesInside o = AllInside o.files

module _ {J : Type 0} (lib : JsonReader J) where
  save-inside :
      (ack algorithm : J) (index : ℕ) (writes : ℕ → Bool) (bytes : List ℕ) (o : Outcome)
      → AllInside o.files
      → AllInside (save lib ack algorithm index writes bytes o).files
  unfolding save
  save-inside ack algorithm index writes bytes o h =
      option_keeps FilesInside (text_or lib algorithm "type" word_algorithm) (λ _. h)
        (λ type _.
          option_keeps FilesInside (number_or lib ack "timestamp" (pos 0)) (λ _. h)
            (λ default _.
              option_keeps FilesInside (number_or lib algorithm "timestamp" default) (λ _. h)
                (λ timestamp _.
                  if_keeps FilesInside (writes index)
                    (file_name-inside type timestamp index bytes, h) h)))

  save_decoded-inside :
      (ack algorithm : J) (index : ℕ) (writes : ℕ → Bool) (d : Decoded) (o : Outcome)
      → AllInside o.files
      → AllInside (save_decoded lib ack algorithm index writes d o).files
  unfolding save_decoded
  save_decoded-inside ack algorithm index writes Decoded.failed o h = h
  save_decoded-inside ack algorithm index writes Decoded.thrown o h = h
  save_decoded-inside ack algorithm index writes (Decoded.image []) o h = h
  save_decoded-inside ack algorithm index writes (Decoded.image (x ∷ xs)) o h =
      save-inside ack algorithm index writes (x ∷ xs) o h

module _ {J : Type 0} (lib : JsonReader J) (decode_block : List ℕ → Option (List ℕ)) where
  save_algorithm-inside :
      (ack algorithm : J) (index : ℕ) (writes : ℕ → Bool) (o : Outcome)
      → AllInside o.files
      → AllInside (save_algorithm lib decode_block ack algorithm index writes o).files
  unfolding save_algorithm
  save_algorithm-inside ack algorithm index writes o h =
      option_keeps FilesInside (encoded_image lib algorithm) (λ _. h)
        (λ encoded _.
          save_decoded-inside lib ack algorithm index writes (decode_base64 decode_block encoded) o
            h)

  save_all-inside :
      (ack : J) (algorithms : List J) (index : ℕ) (writes : ℕ → Bool) (o : Outcome)
      → AllInside o.files
      → AllInside (save_all lib decode_block ack algorithms index writes o).files
  unfolding save_all
  save_all-inside ack [] index writes o h = h
  save_all-inside ack (algorithm ∷ rest) index writes o h =
      let saved = save_algorithm-inside ack algorithm index writes o h in
      if_keeps FilesInside (save_algorithm lib decode_block ack algorithm index writes o).has_thrown
        saved (save_all-inside ack rest (index + 1) writes _ saved)

  keep_images-inside :
      (ack : J) (algorithms : List J) (writes : ℕ → Bool) (o : Outcome)
      → AllInside o.files
      → AllInside (keep_images lib decode_block ack algorithms writes o).files
  unfolding keep_images
  keep_images-inside ack algorithms writes o h =
      option_keeps FilesInside (text_or lib ack "id" word_ack) (λ _. h)
        (λ id _.
          option_keeps FilesInside (number_or lib ack "seq" (pos 0)) (λ _. h)
            (λ seq _. save_all-inside ack algorithms 0 writes o h))

  handle_wanted-inside :
      (created : Bool) (writes : ℕ → Bool) (payload : List ℕ) (ack : J)
      → AllInside (handle_wanted lib decode_block created writes payload ack).files
  unfolding handle_wanted
  handle_wanted-inside created writes payload ack =
      option_keeps FilesInside (algorithms_of lib ack) (λ _. tt)
        (λ algorithms _.
          if_keeps FilesInside created (keep_images-inside ack algorithms writes _ tt) tt)

  handle_parsed-inside :
      (device_id : List ℕ) (created : Bool) (writes : ℕ → Bool) (payload : List ℕ) (ack : J)
      → AllInside (handle_parsed lib decode_block device_id created writes payload ack).files
  unfolding handle_parsed
  handle_parsed-inside device_id created writes payload ack =
      option_keeps FilesInside (has_words lib ack (words device_id)) (λ _. tt)
        (λ is_wanted _.
          if_keeps FilesInside is_wanted (handle_wanted-inside created writes payload ack) tt)

  -- Whatever the message says, each file that it leaves is in the directory of the images itself:
  -- its name has no separator of paths and no end of text, and does not begin with a dot.
  pub handle-inside :
      (device_id : List ℕ) (created : Bool) (writes : ℕ → Bool) (payload : List ℕ) (binary : Bool)
      → AllInside (handle lib decode_block device_id created writes payload binary).files
  unfolding handle
  handle-inside device_id created writes payload binary = if_keeps FilesInside binary tt (
      option_keeps FilesInside (lib.parse payload) (λ _. tt)
        (λ ack _.
          if_keeps FilesInside (lib.is_object ack)
            (handle_parsed-inside device_id created writes payload ack) tt))
