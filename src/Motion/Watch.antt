-- ===== src/Motion/Watch.antt =====
-- After a command the control by the web counts as active (src/motionControl/motionHandle.cc).
use rover_ops_jm.Prelude.{
  ℕ, ◌+◌, String, Bool, true, false, ◌&&◌, ◌||◌, not, ◌==◌, nat_eq, ltb, ◌≡◌, ◌⊎◌, inl, inr, refl,
  option_keeps, if_keeps,
}
use rover_ops_jm.Prelude.Texts.{text_eq}
use rover_ops_jm.Motion.{
  Motion, Control, publish, read_velocity, conclude, pose, move, stop, is_move_command, obey,
  handle_action_control,
}

module _ {V : Type 0} (zero : V) (is_near_zero : V → Bool) where
  -- A command counts as active from the moment it is accepted.
  pub record IsActive (now : ℕ) (m : Motion V) : Type 0 where
    pub active : m.motion_publish_active ≡ true
    pub time : m.last_motion_command_time ≡ now

  conclude-IsActive :
      (m : Motion V) (now : ℕ) (once : Bool) → IsActive now (conclude zero is_near_zero m now once)
  unfolding conclude publish
  conclude-IsActive m now once =
      if_keeps (IsActive now) once (record { active = refl; time = refl })
        (record { active = refl; time = refl })

  abbrev pub Accepted : Motion V → ℕ → Motion V → Type 0
  Accepted m now d = (d ≡ m) ⊎ IsActive now d

  pose-Accepted :
      (m : Motion V) (now : ℕ) (command : String)
      → Accepted m now (pose zero is_near_zero m now command)
  unfolding pose
  pose-Accepted m now command =
      if_keeps (Accepted m now)
        (m.last_pose_command == command && ltb now (m.last_pose_command_time + 3000)) (inl refl)
        (inr (conclude-IsActive _ now true))

  move-Accepted :
      (m : Motion V) (now : ℕ) (linear angular : V)
      → Accepted m now (move zero is_near_zero m now linear angular)
  unfolding move
  move-Accepted m now linear angular =
      if_keeps (Accepted m now)
        ((is_near_zero linear && is_near_zero angular)
          && (not m.motion_publish_active
              && is_near_zero m.motion_lin_x
              && is_near_zero m.motion_lin_y
              && is_near_zero m.motion_ang_z))
        (inr (conclude-IsActive m now false)) (inr (conclude-IsActive _ now true))

  stop-Accepted : (m : Motion V) (now : ℕ) → Accepted m now (stop zero is_near_zero m now)
  unfolding stop
  stop-Accepted m now = inr (conclude-IsActive _ now true)

  obey-Accepted :
      (m : Motion V) (now : ℕ) (c : Control V) (linear angular : V)
      → Accepted m now (obey zero is_near_zero m now c linear angular)
  unfolding obey
  obey-Accepted m now c linear angular =
      if_keeps (Accepted m now) (c.command == "down" || c.command == "stand")
        (pose-Accepted m now c.command)
        (if_keeps (Accepted m now) (is_move_command zero is_near_zero c)
          (move-Accepted m now linear angular)
          (if_keeps (Accepted m now) (c.command == "stop" || c.command == "emergency_stop")
            (stop-Accepted m now)
            (if_keeps (Accepted m now)
              (c.command == "emergency_stop_release" || c.command == "emergency_stop_force_clear")
              (inr (conclude-IsActive m now false)) (inl refl))))

  -- A command that is not ignored, be it a movement, a stop, a pose or a frame of zeroes, leaves the
  -- control by the web marked active from now on, and an ignored one changes nothing.
  pub handle_action_control-Accepted :
      (m : Motion V) (now : ℕ) (c : Control V)
      → Accepted m now (handle_action_control zero is_near_zero m now c)
  unfolding handle_action_control
  handle_action_control-Accepted m now c =
      option_keeps (Accepted m now) (read_velocity zero is_near_zero c.linear) (λ h. inl refl)
        (λ linear h.
          option_keeps (Accepted m now) (read_velocity zero is_near_zero c.angular) (λ k. inl refl)
            (λ angular k. obey-Accepted m now c linear angular))
