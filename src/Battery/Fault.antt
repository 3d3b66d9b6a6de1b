-- ===== src/Battery/Fault.antt =====
-- When the battery counts as faulty.
use rover_ops_jm.Prelude.{
  ℕ, ◌<◌, Bool, true, false, ◌&&◌, not, ltb, List, [], ◌∷◌, keep_if, Bool-cases, inl, inr, ◌≡◌, ◌↔◌,
  ◌⊎◌, refl, sym, ◌∙◌, arith,
}
use rover_ops_jm.Battery.Alarms.{Level, Flag, Status, BmsState, all_levels, all_flags}
use rover_ops_jm.Battery.{any, is_soc_low, active_levels, active_flags, has_fault}

module _ {ℓ} {A : Type ℓ} where
  any-keep_if : (p q : A → Bool) (xs : List A) → any p (keep_if q xs) ≡ any (λ x. q x && p x) xs
  unfolding any
  any-keep_if p q [] = refl
  any-keep_if p q (x ∷ xs) = ground (arith, any-keep_if p q xs)

  any-found : (p : A → Bool) (xs : List A) → any p xs ≡ true → (x : A) × (p x ≡ true)
  unfolding any
  any-found p [] h = cc
  any-found p (x ∷ xs) h = elim (Bool-cases (p x)) [
    | inl e ↦ (x, e)
    | inr e ↦ any-found p xs (ground arith)
  ]

-- The lists name every level and every flag.
any-level : (p : Level → Bool) (k : Level) → p k ≡ true → any p all_levels ≡ true
unfolding any
any-level p Level.cell_overvoltage_level h = ground arith
any-level p _ h = ground arith

any-flag : (p : Flag → Bool) (f : Flag) → p f ≡ true → any p all_flags ≡ true
unfolding any
any-flag p Flag.smart_charger_failed h = ground arith
any-flag p _ h = ground arith

-- What makes the battery faulty: the fault of the precharge, a flag, or a level above zero that is
-- not that of a low charge.
abbrev pub IsFaulty : BmsState → Type 0
IsFaulty m =
    (m.status Status.precharge_mos_fault ≡ true)
    ⊎ ((f : Flag) × (m.flag f ≡ true))
    ⊎ ((k : Level) × (is_soc_low k ≡ false) × (0 < m.level k))

flag_found :
    (m : BmsState) → any (λ f. true) (active_flags m) ≡ true → (f : Flag) × (m.flag f ≡ true)
unfolding active_flags
flag_found m h =
    let (f, e) =
      any-found (λ f. m.flag f && true) all_flags
        (sym (any-keep_if (λ f. true) (λ f. m.flag f) all_flags) ∙ h) in
    (f, ground (arith, e))

counts_parts : (n : ℕ) (low : Bool) → (ltb 0 n && not low) ≡ true → (low ≡ false) × (0 < n)
counts_parts n true h = ground arith
counts_parts n false h = ground arith

level_found :
    (m : BmsState)
    → any (λ k. not (is_soc_low k)) (active_levels m) ≡ true
    → (k : Level) × (is_soc_low k ≡ false) × (0 < m.level k)
unfolding active_levels
level_found m h =
    let (k, e) =
      any-found (λ k. ltb 0 (m.level k) && not (is_soc_low k)) all_levels
        (sym (any-keep_if (λ k. not (is_soc_low k)) (λ k. ltb 0 (m.level k)) all_levels) ∙ h) in
    (
      k,
      (counts_parts (m.level k) (is_soc_low k) e).0,
      (counts_parts (m.level k) (is_soc_low k) e).1,
    )

flag_counts : (m : BmsState) (f : Flag) → m.flag f ≡ true → any (λ f. true) (active_flags m) ≡ true
unfolding active_flags
flag_counts m f e =
    any-keep_if (λ f. true) (λ f. m.flag f) all_flags
    ∙ any-flag (λ f. m.flag f && true) f (ground (arith, e))

level_counts :
    (m : BmsState) (k : Level)
    → is_soc_low k ≡ false
    → 0 < m.level k
    → any (λ k. not (is_soc_low k)) (active_levels m) ≡ true
unfolding active_levels
level_counts m k low above =
    any-keep_if (λ k. not (is_soc_low k)) (λ k. ltb 0 (m.level k)) all_levels
    ∙ any-level (λ k. ltb 0 (m.level k) && not (is_soc_low k)) k (ground (arith, low, above))

sound : (m : BmsState) → has_fault m ≡ true → IsFaulty m
unfolding has_fault
sound m h = elim (Bool-cases (m.status Status.precharge_mos_fault)) [
  | inl e ↦ inl e
  | inr e ↦ elim (Bool-cases (any (λ f. true) (active_flags m))) [
    | inl f ↦ inr (inl (flag_found m f))
    | inr f ↦ inr (inr (level_found m (ground arith)))
  ]
]

complete : (m : BmsState) → IsFaulty m → has_fault m ≡ true
unfolding has_fault
complete m (inl e) = ground arith
complete m (inr (inl (f, e))) = ground (arith, flag_counts m f e)
complete m (inr (inr (k, low, above))) = ground (arith, level_counts m k low above)

-- The battery of the M20 counts as faulty exactly when its precharge fails, or one of its flags is
-- set, or one of its levels is above zero that is not the level of a low charge: every flag and
-- every level counts, and a low charge alone never does.
pub has_fault_iff : (m : BmsState) → (has_fault m ≡ true) ↔ IsFaulty m
has_fault_iff m = (sound m, complete m)
