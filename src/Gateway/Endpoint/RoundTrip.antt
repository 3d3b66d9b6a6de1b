-- ===== src/Gateway/Endpoint/RoundTrip.antt =====
-- A URL gives back the host and the port that it was written with.
use rover_ops_jm.Prelude.{
  ℕ, false, ◌==◌, nat_eq, List, [], ◌∷◌, ◌++◌, length, some, ◌≡◌, refl, ◌∙◌, ap,
}
use mathlib.Core.List.{append_assoc}
use rover_ops_jm.Gateway.Endpoint.{
  drop, scheme_mark, after_scheme, before_path, after_user, port_behind, bracketed_at, bracketed,
  split_authority, default_port, endpoint_of,
}
use rover_ops_jm.Gateway.Endpoint.Search.{
  Lacks, IsPath, Lacks-append, find_char-append, drop_past, drop_past_two, take_inside,
  after_scheme-append, before_path-append, after_user-Lacks, after_user-append, plain-append,
}

at_bracket :
    (host port : List ℕ)
    → bracketed_at (b'[' ∷ host ++ b']' ∷ b':' ∷ port) (some (length (b'[' ∷ host))) ≡ (host, port)
unfolding bracketed_at port_behind drop
at_bracket host port =
    rw
      (
        drop_past (b'[' ∷ host) b']' (b':' ∷ port),
        take_inside host (b']' ∷ b':' ∷ port),
        drop_past_two (b'[' ∷ host) b']' b':' port,
      )
      refl

bracketed-append :
    (host port : List ℕ)
    → Lacks b']' host
    → bracketed (b'[' ∷ host ++ b']' ∷ b':' ∷ port) ≡ (host, port)
unfolding bracketed bracketed_at port_behind
bracketed-append host port h =
    let whole = b'[' ∷ host in
    let found = find_char-append b']' whole (b':' ∷ port) (refl, h) in
    ap (bracketed_at (whole ++ b']' ∷ b':' ∷ port)) found ∙ at_bracket host port

-- What may stand before the host: nothing, or a user with an at sign.
pub data UserInfo : List ℕ → Type 0 where
  no_user : UserInfo []
  user : (u : List ℕ) → Lacks b'/' u → UserInfo (u ++ b'@' ∷ [])

after_user-UserInfo :
    (info authority : List ℕ)
    → UserInfo info
    → Lacks b'@' authority
    → after_user (info ++ authority) ≡ authority
after_user-UserInfo info authority no_user h = after_user-Lacks authority h
after_user-UserInfo info authority (user u k) h =
    rw (append_assoc u (b'@' ∷ []) authority) (after_user-append u authority h)

UserInfo-Lacks : (info : List ℕ) → UserInfo info → Lacks b'/' info
UserInfo-Lacks info no_user = tt
UserInfo-Lacks info (user u k) = Lacks-append b'/' u (b'@' ∷ []) k (refl, tt)

authority-append :
    (scheme info authority path : List ℕ)
    → Lacks b':' scheme
    → UserInfo info
    → Lacks b'/' authority
    → Lacks b'@' authority
    → IsPath path
    → after_user
        (before_path (after_scheme (scheme ++ scheme_mark ++ ((info ++ authority) ++ path))))
      ≡ authority
authority-append scheme info authority path s i slash at p =
    rw (after_scheme-append scheme ((info ++ authority) ++ path) s) (
      rw
        (before_path-append (info ++ authority) path
          (Lacks-append b'/' info authority (UserInfo-Lacks info i) slash) p)
        (after_user-UserInfo info authority i at))

-- How a host and a port are written: a host with no colon in front of the last one that separates,
-- or an address in brackets.
abbrev pub NotOpen : List ℕ → Type 0
NotOpen [] = Unit
NotOpen (c ∷ cs) = (c == b'[') ≡ false

pub data Writes : List ℕ → List ℕ → List ℕ → Type 0 where
  named :
      (host port : List ℕ)
      → NotOpen host
      → Lacks b'/' host
      → Lacks b'@' host
      → Writes (host ++ b':' ∷ port) host port
  boxed :
      (host port : List ℕ)
      → Lacks b']' host
      → Lacks b'/' host
      → Lacks b'@' host
      → Writes (b'[' ∷ host ++ b']' ∷ b':' ∷ port) host port

split-named :
    (host port : List ℕ)
    → NotOpen host
    → Lacks b':' port
    → split_authority (host ++ b':' ∷ port) ≡ (host, port)
unfolding split_authority
split-named [] port o h = plain-append [] port h
split-named (c ∷ cs) port o h = rw o (plain-append (c ∷ cs) port h)

split-Writes :
    (authority host port : List ℕ)
    → Writes authority host port
    → Lacks b':' port
    → split_authority authority ≡ (host, port)
unfolding split_authority
split-Writes authority host port (named _ _ o s a) h = split-named host port o h
split-Writes authority host port (boxed _ _ b s a) h = bracketed-append host port b

Writes-Lacks :
    (c : ℕ) (authority host port : List ℕ)
    → Writes authority host port
    → (b':' == c) ≡ false
    → (b'[' == c) ≡ false
    → (b']' == c) ≡ false
    → Lacks c host
    → Lacks c port
    → Lacks c authority
Writes-Lacks c authority host port (named _ _ o s a) x y z h p =
    Lacks-append c host (b':' ∷ port) h (x, p)
Writes-Lacks c authority host port (boxed _ _ b s a) x y z h p =
    Lacks-append c (b'[' ∷ host) (b']' ∷ b':' ∷ port) (y, h) (z, (x, p))

Writes-slash :
    (authority host port : List ℕ) → Writes authority host port → Lacks b'/' host × Lacks b'@' host
Writes-slash authority host port (named _ _ o s a) = (s, a)
Writes-slash authority host port (boxed _ _ b s a) = (s, a)

endpoint_of_lem :
    (url host port : List ℕ) (c : ℕ)
    → split_authority (after_user (before_path (after_scheme url))) ≡ (host, c ∷ port)
    → endpoint_of url ≡ (host, c ∷ port)
unfolding endpoint_of default_port
endpoint_of_lem url host port c e = rw e refl

-- A URL of a scheme, perhaps a user, a host as a name or as an address in brackets, a port and
-- perhaps a path gives back that host and that port, where the scheme has no colon, the user no
-- slash, the host no slash and no at sign, and the port, which is not empty, none of these three.
pub endpoint_of-url :
    (scheme info authority host port path : List ℕ) (c : ℕ)
    → Lacks b':' scheme
    → UserInfo info
    → Writes authority host (c ∷ port)
    → Lacks b':' (c ∷ port)
    → Lacks b'/' (c ∷ port)
    → Lacks b'@' (c ∷ port)
    → IsPath path
    → endpoint_of (scheme ++ scheme_mark ++ ((info ++ authority) ++ path)) ≡ (host, c ∷ port)
endpoint_of-url scheme info authority host port path c s i w colon slash at p =
    let lacks = Writes-slash authority host (c ∷ port) w in
    let found =
      authority-append scheme info authority path s i
        (Writes-Lacks b'/' authority host (c ∷ port) w refl refl refl lacks.0 slash)
        (Writes-Lacks b'@' authority host (c ∷ port) w refl refl refl lacks.1 at) p in
    endpoint_of_lem (scheme ++ scheme_mark ++ ((info ++ authority) ++ path)) host port c
      (ap split_authority found ∙ split-Writes authority host (c ∷ port) w colon)
