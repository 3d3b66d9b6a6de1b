-- ===== src/Gateway/Message/Window.antt =====
-- The cache of commands answers as a list of all commands would whose last hundred count.
use rover_ops_jm.Prelude.{
  ℕ, zero, suc, ◌+◌, ◌-◌, ◌≤◌, ◌<◌, String, Bool, true, false, ◌||◌, ltb, ltb→lt, ◌==◌,
  if◌then◌else◌, if_cases, Bool-cases, inl, inr, List, [], ◌∷◌, ◌++◌, length, length-append, ◌≡◌,
  refl, sym, ◌∙◌, ap, subst, arith,
}
use rover_ops_jm.Prelude.Texts.{text_eq, text_beq_iff}
use rover_ops_jm.Gateway.State.{Recent}
use rover_ops_jm.Gateway.Message.Recent.{limit, contains, insert_key, erase_key, trim, remember}

abbrev drop : ℕ → List String → List String
drop zero xs = xs
drop (suc n) [] = []
drop (suc n) (x ∷ xs) = drop n xs

-- The last keys of a history.
abbrev pub last_keys : ℕ → List String → List String
last_keys n xs = drop (length xs - n) xs

-- Abstract: every key is kept for ever, the newest last, and the last hundred are asked.
pub answers_of_history : List String → List String → List Bool
answers_of_history history [] = []
answers_of_history history (k ∷ ks) =
    let seen = contains (last_keys limit history) k in
    seen ∷ answers_of_history (if seen then history else history ++ k ∷ []) ks

-- The cache over the same keys.
pub answers_of_cache : Recent → List String → List Bool
answers_of_cache r [] = []
answers_of_cache r (k ∷ ks) = let (r', seen) = remember r k in seen ∷ answers_of_cache r' ks

abbrev IsDistinct : List String → Type 0
IsDistinct [] = Unit
IsDistinct (x ∷ xs) = (contains xs x ≡ false) × IsDistinct xs

contains-append :
    (xs ys : List String) (k : String) → contains (xs ++ ys) k ≡ (contains xs k || contains ys k)
unfolding contains
contains-append [] ys k = refl
contains-append (x ∷ xs) ys k = ground (arith, contains-append xs ys k)

contains-erase :
    (xs : List String) (j k : String)
    → contains (erase_key j xs) k ≡ (if k == j then false else contains xs k)
unfolding contains erase_key
contains-erase [] j k = ground arith
contains-erase (x ∷ xs) j k =
    ground (arith, contains-erase xs j k, text_beq_iff k j, text_beq_iff x k, text_beq_iff x j)

contains-insert :
    (xs : List String) (j k : String) → contains (insert_key j xs) k ≡ (j == k || contains xs k)
unfolding contains insert_key
contains-insert xs j k = ground (arith, text_beq_iff j k)

IsDistinct-append :
    (xs : List String) (k : String)
    → contains xs k ≡ false
    → IsDistinct xs
    → IsDistinct (xs ++ k ∷ [])
unfolding contains
IsDistinct-append [] k h d = (refl, tt)
IsDistinct-append (x ∷ xs) k h d = (
  ground (arith, contains-append xs (k ∷ []) x, text_beq_iff k x, text_beq_iff x k),
  IsDistinct-append xs k (ground arith) d.1,
)

IsDistinct-drop : (n : ℕ) (xs : List String) → IsDistinct xs → IsDistinct (drop n xs)
IsDistinct-drop zero xs d = d
IsDistinct-drop (suc n) [] d = tt
IsDistinct-drop (suc n) (x ∷ xs) d = IsDistinct-drop n xs d.1

drop-append : (n : ℕ) (xs ys : List String) → n ≤ length xs → drop n (xs ++ ys) ≡ drop n xs ++ ys
drop-append zero xs ys h = refl
drop-append (suc n) [] ys h = absurd (omega arith)
drop-append (suc n) (x ∷ xs) ys h = drop-append n xs ys (omega arith)

drop-nil : (n : ℕ) → drop n [] ≡ []
drop-nil zero = refl
drop-nil (suc n) = refl

-- The index of a drop, rewritten.
drop_at : {m n : ℕ} (xs : List String) → m ≡ n → drop m xs ≡ drop n xs
drop_at xs e = ap (λ k. drop k xs) e

drop-drop : (m n : ℕ) (xs : List String) → drop m (drop n xs) ≡ drop (n + m) xs
drop-drop m zero xs = drop_at xs (omega arith)
drop-drop m (suc n) [] = drop-nil m ∙ sym (drop-nil (suc n + m))
drop-drop m (suc n) (x ∷ xs) =
    drop-drop m n xs ∙ drop_at {m = suc (n + m)} {n = suc n + m} (x ∷ xs) (omega arith)

length-drop : (n : ℕ) (xs : List String) → length (drop n xs) ≡ length xs - n
length-drop zero xs = omega arith
length-drop (suc n) [] = omega arith
length-drop (suc n) (x ∷ xs) = omega (arith, length-drop n xs)

-- The loop leaves the last hundred.
trim-ids : (xs js : List String) → (trim xs js).0 ≡ last_keys limit xs
unfolding trim
trim-ids [] js = refl
trim-ids (x ∷ xs) js =
    if_cases (λ (r : List String × List String). r.0 ≡ last_keys limit (x ∷ xs))
      (ltb limit (length (x ∷ xs)))
      (λ e.
        trim-ids xs (erase_key x js)
        ∙ drop_at {m = suc (length xs - limit)} {n = suc (length xs) - limit} (x ∷ xs)
            (let p = ltb→lt limit (suc (length xs)) e in omega arith))
      (λ e. drop_at {m = 0} {n = suc (length xs) - limit} (x ∷ xs) (ground arith))

-- The set goes on to hold the keys of the queue.
trim-set :
    (xs js : List String)
    → ((k : String) → contains js k ≡ contains xs k)
    → IsDistinct xs
    → (k : String) → contains (trim xs js).1 k ≡ contains (trim xs js).0 k
unfolding trim contains
trim-set [] js h d k = h k
trim-set (x ∷ xs) js h d k =
    if_cases (λ (r : List String × List String). contains r.1 k ≡ contains r.0 k)
      (ltb limit (length (x ∷ xs)))
      (λ e.
        trim-set xs (erase_key x js)
          (λ j. ground (arith, contains-erase js x j, h j, text_beq_iff j x, text_beq_iff x j)) d.1
          k)
      (λ e. h k)

length-last : (h : List String) → limit < length h → length (last_keys limit h) ≡ limit
length-last h p = omega (arith, length-drop (length h - limit) h)

-- Of a longer history only its last keys count.
last-append :
    (h : List String) (k : String)
    → last_keys limit (last_keys limit h ++ k ∷ []) ≡ last_keys limit (h ++ k ∷ [])
last-append h k = elim (Bool-cases (ltb limit (length h))) [
  | inl e ↦
      let p = ltb→lt limit (length h) e in
      let m : ℕ = length h - limit in
      let size = length-append (drop m h) (k ∷ []) in
      drop_at {n = 1} (drop m h ++ k ∷ []) (omega (arith, size, length-last h p))
      ∙ ap (λ w. drop 1 w) (sym (drop-append m h (k ∷ []) (omega arith)))
      ∙ drop-drop 1 m (h ++ k ∷ [])
      ∙ drop_at (h ++ k ∷ []) (omega (arith, length-append h (k ∷ [])))
  | inr e ↦
      ap (λ w. last_keys limit (w ++ k ∷ []))
        (drop_at {m = length h - limit} {n = 0} h (ground arith))
]

record IsWindow (r : Recent) (history : List String) : Type 0 where
  queue : r.ids ≡ last_keys limit history
  same : (k : String) → contains r.id_set k ≡ contains r.ids k
  distinct : IsDistinct r.ids

contains-added :
    (r : Recent) (k : String)
    → ((j : String) → contains r.id_set j ≡ contains r.ids j)
    → (j : String) → contains (insert_key k r.id_set) j ≡ contains (r.ids ++ k ∷ []) j
unfolding contains
contains-added r k same j =
    ground (arith, same j, contains-insert r.id_set k j, contains-append r.ids (k ∷ []) j)

remember_seen : (r : Recent) (k : String) → contains r.id_set k ≡ true → remember r k ≡ (r, true)
unfolding remember
remember_seen r k e = rw e

remember_fresh : (r : Recent) (k : String) → contains r.id_set k ≡ false → (remember r k).1 ≡ false
unfolding remember
remember_fresh r k e = rw e

remember-IsWindow :
    (r : Recent) (history : List String) (k : String)
    → contains r.ids k ≡ false
    → IsWindow r history
    → IsWindow (remember r k).0 (history ++ k ∷ [])
unfolding remember
remember-IsWindow r history k fresh w =
    let added = r.ids ++ k ∷ [] in
    let set = insert_key k r.id_set in
    let apart = IsDistinct-append r.ids k fresh w.distinct in
    if_cases (λ (p : Recent × Bool). IsWindow p.0 (history ++ k ∷ [])) (contains r.id_set k)
      (λ e. cc (w.same k))
      (λ _. record {
        queue =
            trim-ids added set
            ∙ ap (λ q. last_keys limit (q ++ k ∷ [])) w.queue
            ∙ last-append history k;
        same = trim-set added set (contains-added r k w.same) apart;
        distinct =
            subst IsDistinct (sym (trim-ids added set))
              (IsDistinct-drop (length added - limit) added apart);
      })

answers_match :
    (ks : List String) (r : Recent) (history : List String)
    → IsWindow r history
    → answers_of_cache r ks ≡ answers_of_history history ks
unfolding answers_of_cache answers_of_history
answers_match [] r history w = refl
answers_match (k ∷ ks) r history w =
    let asked = ap (λ q. contains q k) w.queue in
    elim (Bool-cases (contains r.ids k)) [
      | inl e ↦
          rw (remember_seen r k (w.same k ∙ e), sym asked ∙ e)
            (ap (◌∷◌ true) (answers_match ks r history w))
      | inr e ↦
          rw (remember_fresh r k (w.same k ∙ e), sym asked ∙ e)
            (ap (◌∷◌ false) (
              answers_match ks (remember r k).0 (history ++ k ∷ [])
                (remember-IsWindow r history k e w)))
    ]

-- Whatever keys come, in any order: the cache of a queue and a set, which starts empty and is cut
-- off at a hundred keys, tells exactly those repeated that are among the last hundred of all keys
-- that were taken, as if nothing had ever been dropped.
pub cache-history :
    (ks : List String)
    → answers_of_cache (record { ids = []; id_set = [] }) ks ≡ answers_of_history [] ks
cache-history ks = answers_match ks _ [] (record { queue = refl; same = λ k. refl; distinct = tt })
