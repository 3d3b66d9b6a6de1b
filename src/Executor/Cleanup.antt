-- ===== src/Executor/Cleanup.antt =====
-- How long a stop waits for its clean-up script (`handle_stop_navigation` of
-- src/CommandExecutor.cc).
use rover_ops_jm.Prelude.{
  ℕ, zero, suc, Bool, true, false, not, leb, List, [], ◌∷◌, ◌≡◌, refl, arith,
}
use rover_ops_jm.Executor.Environment.{Poll, cleanup_wait, is_cleanup_killed}

-- One of the first `n` polls finds the script gone, or fails.
unfoldable pub ends_within : ℕ → List Poll → Bool
ends_within zero polls = false
ends_within (suc n) [] = false
ends_within (suc n) (Poll.still_running ∷ polls) = ends_within n polls
ends_within (suc n) (Poll.reaped ∷ polls) = true
ends_within (suc n) (Poll.poll_error ∷ polls) = true

ends_within-nil : (n : ℕ) → ends_within n [] ≡ false
unfolding ends_within
ends_within-nil zero = refl
ends_within-nil (suc n) = refl

wait-ends_within :
    (n : ℕ) (polls : List Poll) → leb (cleanup_wait (suc n) polls) 1 ≡ not (ends_within n polls)
unfolding cleanup_wait ends_within
wait-ends_within zero [] = refl
wait-ends_within zero (Poll.still_running ∷ polls) = ground arith
wait-ends_within zero (Poll.reaped ∷ polls) = refl
wait-ends_within zero (Poll.poll_error ∷ polls) = refl
wait-ends_within (suc n) [] = ground (arith, wait-ends_within n [], ends_within-nil n)
wait-ends_within (suc n) (Poll.still_running ∷ polls) = wait-ends_within n polls
wait-ends_within (suc n) (Poll.reaped ∷ polls) = ground arith
wait-ends_within (suc n) (Poll.poll_error ∷ polls) = ground arith

-- The script is killed exactly when none of the first four polls finds it gone or fails: the fifth
-- poll of the loop does not count, also when it finds the script gone.
pub is_cleanup_killed-ends_within :
    (polls : List Poll) → is_cleanup_killed polls ≡ not (ends_within 4 polls)
unfolding is_cleanup_killed
is_cleanup_killed-ends_within polls = wait-ends_within 4 polls
