-- ===== src/Gateway/Message/Recent.antt =====
-- The cache of the commands that came last: the end of `is_duplicate_command`
-- (src/gateway/gateway.cc).
use rover_ops_jm.Prelude.{
  ℕ, String, Bool, true, false, ◌||◌, not, ltb, ◌==◌, List, [], ◌∷◌, ◌++◌, length, keep_if,
  if◌then◌else◌,
}
use rover_ops_jm.Prelude.Texts.{text_eq}
use rover_ops_jm.Gateway.State.{Recent}

-- `kRecentCommandCacheLimit_`.
abbrev pub limit : ℕ
limit = 100

unfoldable pub contains : List String → String → Bool
contains [] k = false
contains (j ∷ js) k = j == k || contains js k

-- The set as a list: an insertion of a key that is there changes nothing.
unfoldable pub insert_key : String → List String → List String
insert_key k js = if contains js k then js else k ∷ js

unfoldable pub erase_key : String → List String → List String
erase_key k js = keep_if (λ j. not (j == k)) js

-- The loop that drops the oldest keys.
unfoldable pub trim : List String → List String → List String × List String
trim [] js = ([], js)
trim (k ∷ ks) js =
    let rest = trim ks (erase_key k js) in
    if ltb limit (length (k ∷ ks)) then rest else (k ∷ ks, js)

-- The Boolean tells whether the key was there.
unfoldable pub remember : Recent → String → Recent × Bool
remember r k =
    let (ids, id_set) = trim (r.ids ++ k ∷ []) (insert_key k r.id_set) in
    if contains r.id_set k then (r, true) else (record { ids = ids; id_set = id_set }, false)
