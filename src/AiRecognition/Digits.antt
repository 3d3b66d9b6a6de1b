-- ===== src/AiRecognition/Digits.antt =====
-- Twenty digits are enough for the numbers of 64 bits in the names of files.
use rover_ops_jm.Prelude.{
  ℕ, zero, suc, ◌+◌, ◌-◌, ◌*◌, ◌/◌, ◌%◌, ◌^◌, ◌<◌, ltb, Bool-cases, inl, inr, List, [], ◌∷◌, ◌++◌,
  ◌≡◌, refl, arith,
}
use rover_ops_jm.AiRecognition.Names.{digits}

-- The number that digits write after those of another.
pub value : ℕ → List ℕ → ℕ
value before [] = before
value before (c ∷ cs) = value (before * 10 + (c - b'0')) cs

value-append :
    (xs : List ℕ) (before c : ℕ) → value before (xs ++ c ∷ []) ≡ value before xs * 10 + (c - b'0')
unfolding value
value-append [] before c = refl
value-append (x ∷ xs) before c = value-append xs (before * 10 + (x - b'0')) c

-- The digits of a number are read as that number, if there is room for them all.
digits-value : (fuel n : ℕ) → n < 10 ^ fuel → value 0 (digits fuel n) ≡ n
unfolding digits value
digits-value zero n h = ground arith
digits-value (suc fuel) n h = elim (Bool-cases (ltb n 10)) [
  | inl e ↦ ground (arith, e)
  | inr e ↦ ground (
    arith,
    e,
    value-append (digits fuel (n / 10)) 0 (b'0' + n % 10),
    digits-value fuel (n / 10) (omega arith),
  )
]
