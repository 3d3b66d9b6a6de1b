-- ===== src/FollowBackend/Body.antt =====
-- The body of a reply as curl hands it over in chunks (`append_response` of
-- src/follow/followHandle.cc).
use rover_ops_jm.Prelude.{
  ℕ, ◌+◌, ◌≤◌, true, false, ◌==◌, nat_eq, if◌then◌else◌, List, [], ◌∷◌, Option, none, some, ◌≡◌,
  ◌⊎◌, inl, inr, ◌∙◌, sym, refl, arith,
}
use rover_ops_jm.FollowBackend.{append_response}

-- curl ends the transfer at the first chunk that is not taken whole.
unfoldable pub receive : ℕ → List ℕ → Option ℕ
receive body [] = some body
receive body (n ∷ ns) =
    let (grown, taken) = append_response body n in
    let rest = receive grown ns in if taken == n then rest else none

unfoldable pub total : List ℕ → ℕ
total [] = 0
total (n ∷ ns) = n + total ns

append_cases :
    (body n : ℕ)
    → body ≤ 1048576
    → ((append_response body n ≡ (body + n, n)) × (body + n ≤ 1048576))
      ⊎ ((append_response body n ≡ (body, 0)) × ((0 == n) ≡ false))
unfolding append_response
append_cases body n h = ground arith

same : (n : ℕ) → (n == n) ≡ true
same n = ground arith

receive_whole :
    (body n : ℕ) (ns : List ℕ)
    → append_response body n ≡ (body + n, n)
    → receive body (n ∷ ns) ≡ receive (body + n) ns
unfolding receive
receive_whole body n ns h = rw (h, same n) refl

receive-none :
    (body n : ℕ) (ns : List ℕ)
    → append_response body n ≡ (body, 0)
    → (0 == n) ≡ false
    → receive body (n ∷ ns) ≡ none
unfolding receive
receive-none body n ns h z = rw (h, z) refl

-- A transfer that is not ended has handed over the bytes of all its chunks, and no more than a
-- megabyte of them.
pub receive-total :
    (body : ℕ) (chunks : List ℕ) (size : ℕ)
    → body ≤ 1048576
    → receive body chunks ≡ some size
    → (size ≡ body + total chunks) × (size ≤ 1048576)
unfolding receive total
receive-total body [] size h r = ground arith
receive-total body (n ∷ ns) size h r = elim (append_cases body n h) [
  | inl (whole, small) ↦
      let (sum, bound) =
        receive-total (body + n) ns size small (sym (receive_whole body n ns whole) ∙ r) in
      (omega (arith, sum), bound)
  | inr (cut, some_bytes) ↦ absurd (clash (receive-none body n ns cut some_bytes) r)
]
  where
    clash : {o : Option ℕ} → o ≡ none → ¬ (o ≡ some size)
    clash n s = cc
