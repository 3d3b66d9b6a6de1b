-- ===== src/Gateway/Endpoint.antt =====
-- The host and the port of a URL (`update_web_endpoint` of src/gateway/gateway.cc). Texts are lists
-- of characters.
pub mod RoundTrip
pub mod Search
use rover_ops_jm.Prelude.{
  ℕ, zero, suc, ◌+◌, ◌-◌, Bool, true, false, ◌&&◌, ◌==◌, nat_eq, List, [], ◌∷◌, Option, none, some,
  if◌then◌else◌,
}
use rover_ops_jm.Gateway.State.{Gateway}

unfoldable pub drop : ℕ → List ℕ → List ℕ
drop zero xs = xs
drop (suc n) [] = []
drop (suc n) (x ∷ xs) = drop n xs

unfoldable pub take : ℕ → List ℕ → List ℕ
take zero xs = []
take (suc n) [] = []
take (suc n) (x ∷ xs) = x ∷ take n xs

-- `compare` at the front: is the first list how the second begins?
unfoldable pub starts_with : List ℕ → List ℕ → Bool
starts_with [] xs = true
starts_with (p ∷ ps) [] = false
starts_with (p ∷ ps) (x ∷ xs) = p == x && starts_with ps xs

abbrev pub later : Option ℕ → Option ℕ
later none = none
later (some n) = some (suc n)

-- `find` of a character, of a text that is not empty, and `rfind` of a character.
unfoldable pub find_char : ℕ → List ℕ → Option ℕ
find_char c [] = none
find_char c (x ∷ xs) = if x == c then some 0 else later (find_char c xs)

unfoldable pub find_text : List ℕ → List ℕ → Option ℕ
unfolding starts_with
find_text t [] = none
find_text t (x ∷ xs) = if starts_with t (x ∷ xs) then some 0 else later (find_text t xs)

unfoldable pub find_last : ℕ → List ℕ → Option ℕ
find_last c [] = none
find_last c (x ∷ xs) = elim (find_last c xs) [
  | none ↦ if x == c then some 0 else none
  | some n ↦ some (suc n)
]

abbrev pub scheme_mark : List ℕ
scheme_mark = b':' ∷ b'/' ∷ b'/' ∷ []

abbrev pub secure_scheme : List ℕ
secure_scheme = b'w' ∷ b's' ∷ b's' ∷ b':' ∷ b'/' ∷ b'/' ∷ []

abbrev pub port_443 : List ℕ
port_443 = b'4' ∷ b'4' ∷ b'3' ∷ []

abbrev pub port_80 : List ℕ
port_80 = b'8' ∷ b'0' ∷ []

-- `substr` from the start of the authority, up to the path, and behind an at sign.
unfoldable pub after_scheme : List ℕ → List ℕ
unfolding find_text drop
after_scheme url = elim (find_text scheme_mark url) [ none ↦ url | some n ↦ drop (n + 3) url ]

unfoldable pub before_path : List ℕ → List ℕ
unfolding find_char take
before_path rest = elim (find_char b'/' rest) [ none ↦ rest | some n ↦ take n rest ]

unfoldable pub after_user : List ℕ → List ℕ
unfolding find_last drop
after_user whole = elim (find_last b'@' whole) [ none ↦ whole | some n ↦ drop (n + 1) whole ]

-- The port of an address in brackets, from what stands behind them.
unfoldable pub port_behind : List ℕ → ℕ → List ℕ → List ℕ
port_behind authority n [] = []
port_behind authority n (c ∷ cs) = if c == b':' then drop (n + 2) authority else []

-- The host and the port of an address in brackets, whose end is looked for first.
unfoldable pub bracketed_at : List ℕ → Option ℕ → List ℕ × List ℕ
bracketed_at authority none = ([], [])
bracketed_at authority (some n) =
    (take (n - 1) (drop 1 authority), port_behind authority n (drop (n + 1) authority))

unfoldable pub bracketed : List ℕ → List ℕ × List ℕ
bracketed authority = bracketed_at authority (find_char b']' authority)

unfoldable pub plain : List ℕ → List ℕ × List ℕ
unfolding find_last take drop
plain authority = elim (find_last b':' authority) [
  | none ↦ (authority, [])
  | some n ↦ (take n authority, drop (n + 1) authority)
]

unfoldable pub split_authority : List ℕ → List ℕ × List ℕ
unfolding bracketed plain
split_authority [] = plain []
split_authority (c ∷ cs) = if c == b'[' then bracketed (c ∷ cs) else plain (c ∷ cs)

unfoldable pub default_port : List ℕ → List ℕ → List ℕ
unfolding starts_with
default_port url [] = if starts_with secure_scheme url then port_443 else port_80
default_port url (c ∷ cs) = c ∷ cs

-- The host and the port that are noted.
unfoldable pub endpoint_of : List ℕ → List ℕ × List ℕ
endpoint_of url =
    let (host, port) = split_authority (after_user (before_path (after_scheme url))) in
    (host, default_port url port)

unfoldable pub update_web_endpoint : Gateway → List ℕ → Gateway
update_web_endpoint g url =
    let (host, port) = endpoint_of url in record g { web_host = host; web_port = port }
