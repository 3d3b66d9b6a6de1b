-- ===== src/Motion/Idle.antt =====
-- What the watchdog sends (src/motionControl/motionHandle.cc).
use rover_ops_jm.Prelude.{
  ℕ, suc, ◌+◌, ◌*◌, ◌≤◌, Bool, true, false, ◌&&◌, not, nat_eq, leb, List, [], ◌∷◌, ◌≡◌, ◌⊎◌,
  if◌then◌else◌,
}
use rover_ops_jm.Prelude.Texts.{text_eq}
use rover_ops_jm.Motion.{Motion, MotionCmd, watchdog}

module _ {V : Type 0} (zero : V) (is_near_zero : V → Bool) where
  unfoldable pub watch : Motion V → List ℕ → Motion V
  watch m [] = m
  watch m (t ∷ ts) = watch (watchdog zero is_near_zero m t) ts

  unfoldable pub all_before : ℕ → List ℕ → Bool
  all_before limit [] = true
  all_before limit (t ∷ ts) = leb t limit && all_before limit ts

  -- The stands that the watchdog sends, the newest first, before what was sent earlier.
  pub stands : ℕ → List (MotionCmd V) → List (MotionCmd V)
  stands ℕ.zero rest = rest
  stands (suc k) rest =
      record { target_mode = "stand"; lin_x = zero; lin_y = zero; ang_z = zero } ∷ stands k rest

  -- The watchdog of `m` has sent so many stands up to `d`: they are half a second apart, the robot may
  -- be told to stand if there is one, and then the control is not active or it is `late`.
  pub record IsWatched (m : Motion V) (late : Bool) (k : ℕ) (d : Motion V) : Type 0 where
    pub sent : d.published ≡ stands k m.published
    pub spaced : m.last_idle_stand_time + 500 * k ≤ d.last_idle_stand_time
    pub allowed : (k ≡ 0) ⊎ ((m.robot_state_received && not m.robot_blocks_idle_stand) ≡ true)
    pub idle : (k ≡ 0) ⊎ ((m.motion_publish_active && not late) ≡ false)
    pub command_time : d.last_motion_command_time ≡ m.last_motion_command_time
    pub may_stand :
        (d.robot_state_received && not d.robot_blocks_idle_stand)
        ≡ (m.robot_state_received && not m.robot_blocks_idle_stand)
    pub active : (d.motion_publish_active ≡ m.motion_publish_active) ⊎ (late ≡ true)

  -- The end of a round, on what it has checked.
  round : Bool → Motion V → ℕ → Motion V
  round can_publish c t =
      if not c.motion_publish_active && can_publish && leb (c.last_idle_stand_time + 500) t
      then record c {
        last_idle_stand_time = t;
        published =
            record { target_mode = "stand"; lin_x = zero; lin_y = zero; ang_z = zero }
            ∷ c.published;
      }
      else c

  abbrev pub Watched : Motion V → Bool → Motion V → Type 0
  Watched m late d = (k : ℕ) × IsWatched m late k d
