-- ===== src/Motion/Stop.antt =====
-- A safety stop stops the robot, unless its velocities cannot be read
-- (src/motionControl/motionHandle.cc).
use rover_ops_jm.Prelude.{
  ℕ, String, Bool, true, false, ◌&&◌, ◌||◌, not, ◌==◌, nat_eq, some, ◌≡◌, ◌⊎◌, inl, inr, refl, sym,
  subst, Bool-cases, if_keeps, if_cases, option_keeps, ◌∷◌, arith,
}
use rover_ops_jm.Prelude.Texts.{text_eq, text_beq_iff}
use rover_ops_jm.Motion.{
  Motion, MotionCmd, Field, Control, publish, is_given, is_zero, is_stop_or_estop, read_velocity,
  conclude, halt, move, stop, is_move_command, obey, handle_action_control,
}

module _ {V : Type 0} (zero : V) (is_near_zero : V → Bool) where
  -- The velocities are nearly zero.
  pub record IsStill (m : Motion V) : Type 0 where
    pub ahead : is_near_zero m.motion_lin_x ≡ true
    pub aside : is_near_zero m.motion_lin_y ≡ true
    pub around : is_near_zero m.motion_ang_z ≡ true

  -- A command to the robot whose velocities are nearly zero.
  pub record IsSlow (c : MotionCmd V) : Type 0 where
    pub ahead : is_near_zero c.lin_x ≡ true
    pub aside : is_near_zero c.lin_y ≡ true
    pub around : is_near_zero c.ang_z ≡ true

  -- What the robot is told: one command that is nearly zero; or nothing, if the velocities were
  -- nearly zero before and no control was active.
  abbrev pub IsTold : Motion V → Motion V → Type 0
  IsTold m d =
      ((c : MotionCmd V) × IsSlow c × (d.published ≡ c ∷ m.published))
      ⊎ ((m.motion_publish_active ≡ false) × IsStill m × (d.published ≡ m.published))

  abbrev pub IsStopped : Motion V → Motion V → Type 0
  IsStopped m d = IsStill d × IsTold m d

  conclude-told :
      (m : Motion V) (now : ℕ)
      → IsStill m
      → (c : MotionCmd V) × IsSlow c
        × ((conclude zero is_near_zero m now true).published ≡ c ∷ m.published)
  unfolding conclude publish
  conclude-told m now v = (_, record { ahead = v.ahead; aside = v.aside; around = v.around }, refl)

  conclude-IsQuiet :
      (m : Motion V) (now : ℕ) → (conclude zero is_near_zero m now false).published ≡ m.published
  unfolding conclude
  conclude-IsQuiet m now = refl

  conclude-IsStill :
      (m : Motion V) (now : ℕ) (once : Bool)
      → IsStill m
      → IsStill (conclude zero is_near_zero m now once)
  unfolding conclude publish
  conclude-IsStill m now once v =
      if_keeps IsStill once (record { ahead = v.ahead; aside = v.aside; around = v.around })
        (record { ahead = v.ahead; aside = v.aside; around = v.around })

  stop-IsStopped :
      is_near_zero zero ≡ true
      → (m : Motion V) (now : ℕ) → IsStopped m (stop zero is_near_zero m now)
  unfolding stop halt
  stop-IsStopped z m now = (
    conclude-IsStill _ now true (record { ahead = z; aside = z; around = z }),
    inl (conclude-told _ now (record { ahead = z; aside = z; around = z })),
  )

  move-IsStopped :
      is_near_zero zero ≡ true
      → (m : Motion V) (now : ℕ) (linear angular : V) → is_near_zero linear ≡ true
      → is_near_zero angular ≡ true
      → IsStopped m (move zero is_near_zero m now linear angular)
  unfolding move
  move-IsStopped z m now linear angular l a =
      if_cases (IsStopped m)
        ((is_near_zero linear && is_near_zero angular)
          && (not m.motion_publish_active
              && is_near_zero m.motion_lin_x
              && is_near_zero m.motion_lin_y
              && is_near_zero m.motion_ang_z))
        (λ h.
          let still : IsStill m = record {
            ahead = ground arith;
            aside = ground arith;
            around = ground arith;
          } in
          (conclude-IsStill m now false still, inr (ground arith, still, conclude-IsQuiet m now)))
        (λ h. (
          conclude-IsStill _ now true (record { ahead = l; aside = z; around = a }),
          inl (conclude-told _ now (record { ahead = l; aside = z; around = a })),
        ))

  is_stop_text :
      (t : String)
      → t == "stop" || t == "emergency_stop" ≡ true
      → (t ≡ "stop") ⊎ (t ≡ "emergency_stop")
  is_stop_text t h = elim (Bool-cases (t == "stop")) [
    | inl a ↦ inl ((text_beq_iff t "stop").0 a)
    | inr b ↦ inr ((text_beq_iff t "emergency_stop").0 (ground arith))
  ]

  stop_text :
      (c : Control V)
      → (c.command ≡ "stop") ⊎ (c.command ≡ "emergency_stop")
      → ((c.command == "down" || c.command == "stand") ≡ false)
        × (is_move_command zero is_near_zero c ≡ false)
        × ((c.command == "stop" || c.command == "emergency_stop") ≡ true)
  unfolding is_move_command
  stop_text c (inl e) = (rw e refl, rw e refl, rw e refl)
  stop_text c (inr e) = (rw e refl, rw e refl, rw e refl)

  obey-stop :
      (m : Motion V) (now : ℕ) (c : Control V) (linear angular : V)
      → (c.command ≡ "stop") ⊎ (c.command ≡ "emergency_stop")
      → obey zero is_near_zero m now c linear angular ≡ stop zero is_near_zero m now
  unfolding obey
  obey-stop m now c linear angular h =
      let (pose_no, move_no, stop_yes) = stop_text c h in rw (pose_no, move_no, stop_yes) refl

  frame_text :
      (c : Control V)
      → c.command ≡ ""
      → is_given zero is_near_zero c.linear || is_given zero is_near_zero c.angular ≡ true
      → ((c.command == "down" || c.command == "stand") ≡ false)
        × (is_move_command zero is_near_zero c ≡ true)
  unfolding is_move_command
  frame_text c e g = (rw e refl, rw (e, g) refl)

  obey-frame :
      (m : Motion V) (now : ℕ) (c : Control V) (linear angular : V)
      → c.command ≡ ""
      → is_given zero is_near_zero c.linear || is_given zero is_near_zero c.angular ≡ true
      → obey zero is_near_zero m now c linear angular ≡ move zero is_near_zero m now linear angular
  unfolding obey
  obey-frame m now c linear angular e g =
      let (pose_no, move_yes) = frame_text c e g in rw (pose_no, move_yes) refl

  read-zero :
      (f : Field V) (v : V)
      → is_near_zero zero ≡ true
      → read_velocity zero is_near_zero f ≡ some v
      → is_zero zero is_near_zero f ≡ true
      → is_near_zero v ≡ true
  unfolding read_velocity is_zero
  read-zero f v z r h = ground arith

  handled :
      (m : Motion V) (now : ℕ) (c : Control V) (linear angular : V)
      → read_velocity zero is_near_zero c.linear ≡ some linear
      → read_velocity zero is_near_zero c.angular ≡ some angular
      → handle_action_control zero is_near_zero m now c
        ≡ obey zero is_near_zero m now c linear angular
  unfolding handle_action_control
  handled m now c linear angular l a = rw (l, a, handle_action_control) refl

  -- What passes as a safety stop stops: where zero counts as nearly zero and both velocities can be
  -- read, the velocities that are kept are nearly zero, and so are those of the one command that the
  -- robot is sent; only if they were so before, with no active control, it is sent none.
  pub handle_action_control-IsStopped :
      is_near_zero zero ≡ true
      → (m : Motion V) (now : ℕ) (c : Control V) (linear angular : V)
      → read_velocity zero is_near_zero c.linear ≡ some linear
      → read_velocity zero is_near_zero c.angular ≡ some angular
      → is_stop_or_estop zero is_near_zero c ≡ true
      → IsStopped m (handle_action_control zero is_near_zero m now c)
  unfolding is_stop_or_estop
  handle_action_control-IsStopped z m now c linear angular l a h =
      subst (IsStopped m) (sym (handled m now c linear angular l a))
        (elim (Bool-cases (c.command == "stop" || c.command == "emergency_stop")) [
          | inl named ↦
              subst (IsStopped m)
                (sym (obey-stop m now c linear angular (is_stop_text c.command named)))
                (stop-IsStopped z m now)
          | inr other ↦
              subst (IsStopped m)
                (sym (
                  obey-frame m now c linear angular ((text_beq_iff c.command "").0 (ground arith))
                    (ground arith)))
                (move-IsStopped z m now linear angular
                  (read-zero c.linear linear z l (ground arith))
                  (read-zero c.angular angular z a (ground arith)))
        ])

  unread :
      (m : Motion V) (now : ℕ) (c : Control V)
      → (c.linear ≡ Field.unreadable) ⊎ (c.angular ≡ Field.unreadable)
      → handle_action_control zero is_near_zero m now c ≡ m
  unfolding handle_action_control read_velocity
  unread m now c (inl u) = rw u refl
  unread m now c (inr u) =
      option_keeps (λ d. d ≡ m) (read_velocity zero is_near_zero c.linear) (λ h. refl)
        (λ linear h. rw u refl)

  -- A named stop with a velocity that cannot be read, ahead or around, passes as a safety stop and is
  -- then ignored: nothing changes and nothing is sent.
  pub unreadable-ignored :
      (m : Motion V) (now : ℕ) (c : Control V)
      → (c.command ≡ "stop") ⊎ (c.command ≡ "emergency_stop")
      → (c.linear ≡ Field.unreadable) ⊎ (c.angular ≡ Field.unreadable)
      → (is_stop_or_estop zero is_near_zero c ≡ true)
        × (handle_action_control zero is_near_zero m now c ≡ m)
  unfolding is_stop_or_estop
  unreadable-ignored m now c h u =
      let (pose_no, move_no, stop_yes) = stop_text c h in (rw stop_yes refl, unread m now c u)
