-- ===== src/Gateway/Endpoint/Search.antt =====
-- The searches of `update_web_endpoint` over texts that were put together.
use rover_ops_jm.Prelude.{
  ℕ, suc, ◌+◌, ◌-◌, false, ◌==◌, nat_eq, List, [], ◌∷◌, ◌++◌, length, none, some, ◌≡◌, refl, ◌∙◌,
  ap, arith,
}
use mathlib.Core.List.{append-nil}
use rover_ops_jm.Gateway.Endpoint.{
  drop, take, starts_with, find_char, find_text, find_last, scheme_mark, after_scheme, before_path,
  after_user, plain,
}

-- A character does not occur.
abbrev pub Lacks : ℕ → List ℕ → Type 0
Lacks c [] = Unit
Lacks c (x ∷ xs) = ((x == c) ≡ false) × Lacks c xs

pub Lacks-append : (c : ℕ) (xs ys : List ℕ) → Lacks c xs → Lacks c ys → Lacks c (xs ++ ys)
Lacks-append c [] ys h k = k
Lacks-append c (x ∷ xs) ys h k = (h.0, Lacks-append c xs ys h.1 k)

find_char-Lacks : (c : ℕ) (xs : List ℕ) → Lacks c xs → find_char c xs ≡ none
unfolding find_char
find_char-Lacks c [] h = refl
find_char-Lacks c (x ∷ xs) h = rw (h.0, find_char-Lacks c xs h.1)

pub find_char-append :
    (c : ℕ) (xs ys : List ℕ) → Lacks c xs → find_char c (xs ++ c ∷ ys) ≡ some (length xs)
unfolding find_char
find_char-append c [] ys h = ground arith
find_char-append c (x ∷ xs) ys h = rw (h.0, find_char-append c xs ys h.1)

find_last-Lacks : (c : ℕ) (xs : List ℕ) → Lacks c xs → find_last c xs ≡ none
unfolding find_last
find_last-Lacks c [] h = refl
find_last-Lacks c (x ∷ xs) h = ground (arith, find_last-Lacks c xs h.1, h.0)

find_last-append :
    (c : ℕ) (xs ys : List ℕ) → Lacks c ys → find_last c (xs ++ c ∷ ys) ≡ some (length xs)
unfolding find_last
find_last-append c [] ys h = ground (arith, find_last-Lacks c ys h)
find_last-append c (x ∷ xs) ys h = ground (arith, find_last-append c xs ys h)

find_text-append :
    (xs ys : List ℕ)
    → Lacks b':' xs
    → find_text scheme_mark (xs ++ scheme_mark ++ ys) ≡ some (length xs)
unfolding find_text starts_with
find_text-append [] ys h = refl
find_text-append (x ∷ xs) ys h = ground (arith, find_text-append xs ys h.1, h.0)

take-append : (xs ys : List ℕ) → take (length xs) (xs ++ ys) ≡ xs
unfolding take
take-append [] ys = refl
take-append (x ∷ xs) ys = ap (◌∷◌ x) (take-append xs ys)

drop-append : (xs ys : List ℕ) → drop (length xs) (xs ++ ys) ≡ ys
unfolding drop
drop-append [] ys = refl
drop-append (x ∷ xs) ys = drop-append xs ys

-- The count of a drop, rewritten.
drop_at : {m n : ℕ} (xs : List ℕ) → m ≡ n → drop m xs ≡ drop n xs
drop_at xs e = ap (λ k. drop k xs) e

pub drop_past : (xs : List ℕ) (c : ℕ) (ys : List ℕ) → drop (length xs + 1) (xs ++ c ∷ ys) ≡ ys
unfolding drop
drop_past [] c ys = refl
drop_past (x ∷ xs) c ys =
    drop_at {n = suc (length xs + 1)} (x ∷ xs ++ c ∷ ys) (omega arith) ∙ drop_past xs c ys

pub drop_past_two :
    (xs : List ℕ) (c d : ℕ) (ys : List ℕ) → drop (length xs + 2) (xs ++ c ∷ d ∷ ys) ≡ ys
unfolding drop
drop_past_two [] c d ys = refl
drop_past_two (x ∷ xs) c d ys =
    drop_at {n = suc (length xs + 2)} (x ∷ xs ++ c ∷ d ∷ ys) (omega arith) ∙ drop_past_two xs c d ys

pub take_inside : (xs ys : List ℕ) → take (suc (length xs) - 1) (xs ++ ys) ≡ xs
take_inside xs ys =
    let e : suc (length xs) - 1 ≡ length xs = omega arith in
    ap (λ n. take n (xs ++ ys)) e ∙ take-append xs ys

drop_scheme : (xs ys : List ℕ) → drop (length xs + 3) (xs ++ scheme_mark ++ ys) ≡ ys
unfolding drop
drop_scheme [] ys = refl
drop_scheme (x ∷ xs) ys =
    drop_at {n = suc (length xs + 3)} (x ∷ xs ++ scheme_mark ++ ys) (omega arith)
    ∙ drop_scheme xs ys

pub after_scheme-append :
    (scheme rest : List ℕ) → Lacks b':' scheme → after_scheme (scheme ++ scheme_mark ++ rest) ≡ rest
unfolding after_scheme
after_scheme-append scheme rest h =
    rw (find_text-append scheme rest h, after_scheme) (drop_scheme scheme rest)

-- The path is empty, or begins with its slash.
abbrev pub IsPath : List ℕ → Type 0
IsPath [] = Unit
IsPath (c ∷ cs) = c ≡ b'/'

pub before_path-append :
    (authority path : List ℕ)
    → Lacks b'/' authority
    → IsPath path
    → before_path (authority ++ path) ≡ authority
unfolding before_path
before_path-append authority [] h p =
    rw (append-nil authority) (rw (find_char-Lacks b'/' authority h, before_path) refl)
before_path-append authority (c ∷ cs) h p =
    rw p
      (rw (find_char-append b'/' authority cs h, before_path) (take-append authority (b'/' ∷ cs)))

pub after_user-Lacks :
    (authority : List ℕ) → Lacks b'@' authority → after_user authority ≡ authority
unfolding after_user
after_user-Lacks authority h = rw (find_last-Lacks b'@' authority h, after_user)

pub after_user-append :
    (user authority : List ℕ)
    → Lacks b'@' authority
    → after_user (user ++ b'@' ∷ authority) ≡ authority
unfolding after_user
after_user-append user authority h =
    rw (find_last-append b'@' user authority h, after_user) (drop_past user b'@' authority)

pub plain-append :
    (host port : List ℕ) → Lacks b':' port → plain (host ++ b':' ∷ port) ≡ (host, port)
unfolding plain
plain-append host port h =
    rw (find_last-append b':' host port h, plain)
      (rw (take-append host (b':' ∷ port), drop_past host b':' port) refl)
