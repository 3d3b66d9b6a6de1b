-- ===== src/Executor/Invariant/Follow.antt =====
-- A follow that is started keeps the rules; what other threads queue meanwhile finds it started or
-- failed.
use rover_ops_jm.Prelude.{
  String, Bool, true, false, ◌||◌, not, ◌==◌, ◌≡◌, ◌≢◌, ◌⊎◌, refl, Option, none, inl, inr, List, [],
  ◌∷◌, if◌then◌else◌, if_keeps, if_cases, arith,
}
use rover_ops_jm.Robot.State.{MotionMode, RobotDto, mode_eq}
use rover_ops_jm.Robot.Fsm
use rover_ops_jm.Robot.Fsm.{FollowDecision}
use rover_ops_jm.Robot.Fsm.Rest.{
  IsAtRest, stopped-IsAtRest, follow_started-IsAtRest, begin_follow-stopping, begin_follow_same,
}
use rover_ops_jm.Executor.Command.{Command}
use rover_ops_jm.Executor.State.{Executor, Outcome, FollowRequest, publish_fsm_state}
use rover_ops_jm.Executor.Follow.{
  FollowAnswers, queue_pending_follow_request, queue_arrivals, clean_up, engage, decide_follow,
  take_over, start_follow,
}
use rover_ops_jm.Executor.Invariant.Kept.{IsKept, kept, with_stance, IsQuiet, IsHalting}
use rover_ops_jm.Executor.Invariant.Environment.{
  environment_check-IsKept, cleanup-IsKept, invalidate-IsKept, ask_backend-IsKept,
}

-- The machine takes the follow over: a stop has succeeded and the backend is asked.
record IsTaking (p : Bool) (s : RobotDto) (g : Option FollowRequest) (p' : Bool) : Type 0 where
  at_rest : IsAtRest s
  starting : s.motion_mode ≡ MotionMode.starting_follow
  flag : p' ≡ p

-- A further follow is answered at once and changes nothing.
abbrev pub is_shut : MotionMode → Bool
is_shut mode =
    mode == MotionMode.starting_follow
    || mode == MotionMode.following
    || mode == MotionMode.mapping
    || mode == MotionMode.failed

-- At rest, with a follow in the queue only if it will be answered at once.
pub record IsEngaged (p : Bool) (s : RobotDto) (g : Option FollowRequest) (p' : Bool) : Type 0 where
  pub at_rest : IsAtRest s
  pub empty_or_shut : (g ≡ none) ⊎ (is_shut s.motion_mode ≡ true)
  pub flag : p' ≡ p

stopped_starting :
    (s : RobotDto) (b : Bool)
    → b ≡ true
    → (Fsm.stopped s b (if b then "" else "Navigation cleanup failed") true).motion_mode
      ≡ MotionMode.starting_follow
unfolding Fsm.stopped
stopped_starting s b h = ground arith

begin_follow-queued :
    (s : RobotDto)
    → (Fsm.begin_follow s).1 ≡ FollowDecision.queued
    → s.motion_mode ≡ MotionMode.stopping
unfolding Fsm.begin_follow
begin_follow-queued s h = ground arith

begin_follow-IsAtRest :
    (s : RobotDto)
    → IsAtRest s
    → (Fsm.begin_follow s).1 ≢ FollowDecision.start
    → IsAtRest (Fsm.begin_follow s).0
begin_follow-IsAtRest s v h = rw (begin_follow_same s h) v

decision_cases :
    {A : Type 0} (P : A → Type 0) (d : FollowDecision) {w x y z : A}
    → (d ≡ FollowDecision.rejected → P w)
    → (d ≡ FollowDecision.already_following → P x)
    → (d ≡ FollowDecision.queued → P y)
    → (d ≡ FollowDecision.start → P z)
    → P (elim d [
      | FollowDecision.rejected ↦ w
      | FollowDecision.already_following ↦ x
      | FollowDecision.queued ↦ y
      | FollowDecision.start ↦ z
    ])
decision_cases P FollowDecision.rejected w x y z = w refl
decision_cases P FollowDecision.already_following w x y z = x refl
decision_cases P FollowDecision.queued w x y z = y refl
decision_cases P FollowDecision.start w x y z = z refl

stopped_failed :
    (s : RobotDto) (b follow : Bool) (reason : String)
    → b ≡ false
    → is_shut (Fsm.stopped s b reason follow).motion_mode ≡ true
unfolding Fsm.stopped
stopped_failed s b follow reason h = ground arith

follow_started_shut :
    (s : RobotDto) (b : Bool)
    → s.motion_mode ≡ MotionMode.starting_follow
    → is_shut (Fsm.follow_started s b).motion_mode ≡ true
unfolding Fsm.follow_started
follow_started_shut s b h = ground arith

-- What `start_follow` leaves: nothing is queued if the queue is not looked at behind it.
pub record IsDone (p : Bool) (r : Executor × Bool) : Type 0 where
  pub engaged : IsKept (IsEngaged p) r.0
  pub unlooked : r.1 ≡ false → IsKept (IsQuiet p) r.0

module _ (p : Bool) where
  quiet-IsEngaged : (e : Executor) → IsKept (IsQuiet p) e → IsKept (IsEngaged p) e
  quiet-IsEngaged e v =
      let t = v.parts.stance in
      kept (
        with_stance _ _ _ v.parts
          (record { at_rest = t.at_rest; empty_or_shut = inl t.no_follow; flag = t.flag }))

  quiet-IsDone : (r : Executor × Bool) → IsKept (IsQuiet p) r.0 → IsDone p r
  quiet-IsDone r v = record { engaged = quiet-IsEngaged r.0 v; unlooked = λ h. v }

  pub queue_arrivals-IsKept :
      (e : Executor) (bs : List Bool)
      → IsKept (IsHalting p) e
      → IsKept (IsHalting p) (queue_arrivals e bs)
  unfolding queue_arrivals queue_pending_follow_request
  queue_arrivals-IsKept e [] v = v
  queue_arrivals-IsKept e (b ∷ bs) v =
      let t = v.parts.stance in
      queue_arrivals-IsKept _ bs (
        kept (
          with_stance _ _ _ v.parts
            (record { consistent = t.consistent; stopping = t.stopping; flag = t.flag })))

  begin_following-IsEngaged :
      (e : Executor) (b : Bool)
      → IsKept (IsTaking p) e
      → IsKept (IsEngaged p) (record e { behavior = Fsm.follow_started e.behavior b })
  begin_following-IsEngaged e b v =
      let t = v.parts.stance in
      kept (
        with_stance _ _ _ v.parts (record {
          at_rest = follow_started-IsAtRest e.behavior b t.at_rest;
          empty_or_shut = inr (follow_started_shut e.behavior b t.starting);
          flag = t.flag;
        }))

  stopped-IsEngaged :
      (e : Executor) (b : Bool) (reason : String)
      → b ≡ false
      → IsKept (IsHalting p) e
      → IsKept (IsEngaged p) (record e { behavior = Fsm.stopped e.behavior b reason true })
  stopped-IsEngaged e b reason h v =
      let t = v.parts.stance in
      kept (
        with_stance _ _ _ v.parts (record {
          at_rest = stopped-IsAtRest e.behavior b reason true t.consistent (inl t.stopping);
          empty_or_shut = inr (stopped_failed e.behavior b true reason h);
          flag = t.flag;
        }))

  -- A failed start of the backend ends in a fault.
  backend_failed-IsEngaged :
      (e : Executor) (reason : String)
      → IsKept (IsTaking p) e
      → IsKept (IsEngaged p) (record e { behavior = Fsm.stopped e.behavior false reason false })
  backend_failed-IsEngaged e reason v =
      let t = v.parts.stance in
      kept (
        with_stance _ _ _ v.parts (record {
          at_rest =
              stopped-IsAtRest e.behavior false reason false t.at_rest.consistent (inr t.starting);
          empty_or_shut = inr (stopped_failed e.behavior false false reason refl);
          flag = t.flag;
        }))

  starting-IsTaking :
      (e : Executor) (b : Bool)
      → b ≡ true
      → IsKept (IsHalting p) e
      → IsKept (IsTaking p) (record e {
        behavior = Fsm.stopped e.behavior b (if b then "" else "Navigation cleanup failed") true;
      })
  starting-IsTaking e b h v =
      let t = v.parts.stance in
      kept (
        with_stance _ _ _ v.parts (record {
          at_rest = stopped-IsAtRest e.behavior b _ true t.consistent (inl t.stopping);
          starting = stopped_starting e.behavior b h;
          flag = t.flag;
        }))

  clean_up-IsKept :
      (e : Executor) (o : FollowAnswers)
      → IsKept (IsHalting p) e
      → IsKept (IsHalting p) (clean_up e o).0
  unfolding clean_up
  clean_up-IsKept e o v =
      let told = publish_fsm_state e Command.start_follow Outcome.received "正在停止导航环境" in
      let announced =
        queue_arrivals-IsKept _ o.arrivals (invalidate-IsKept (IsHalting p) told (kept v.parts)) in
      let checked = environment_check-IsKept (IsHalting p) _ o.before announced in
      if_keeps {A = Executor × Bool} (λ r. IsKept (IsHalting p) r.0) _
        (cleanup-IsKept (IsHalting p) _ o.cleanup checked) checked

  engage-IsEngaged :
      (e : Executor) (is_stopped b : Bool) (o : FollowAnswers)
      → IsKept (IsHalting p) e
      → IsKept (IsEngaged p) (engage e is_stopped b o)
  unfolding engage
  engage-IsEngaged e is_stopped true o v =
      if_cases (IsKept (IsEngaged p)) (not is_stopped)
        (λ h. kept (stopped-IsEngaged e is_stopped _ (ground arith) v).parts)
        (λ h.
          let taking =
            ask_backend-IsKept (IsTaking p) _ Command.start_follow o.reply
              (starting-IsTaking e is_stopped (ground arith) v) in
          if_keeps (IsKept (IsEngaged p)) _
            (kept (backend_failed-IsEngaged _ "跟随后端启动失败" taking).parts)
            (kept (begin_following-IsEngaged _ false taking).parts))
  engage-IsEngaged e is_stopped false o v =
      if_cases (IsKept (IsEngaged p)) (not is_stopped)
        (λ h. kept (stopped-IsEngaged e is_stopped _ (ground arith) v).parts)
        (λ h.
          kept
            (begin_following-IsEngaged _ true
              (starting-IsTaking e is_stopped (ground arith) v)).parts)

  take_over-IsEngaged :
      (e : Executor) (b : Bool) (o : FollowAnswers)
      → IsKept (IsHalting p) e
      → IsKept (IsEngaged p) (take_over e b o)
  unfolding take_over
  take_over-IsEngaged e b o v = engage-IsEngaged _ (clean_up e o).1 b o (clean_up-IsKept e o v)

  decide_follow-IsDone :
      (e : Executor) (b : Bool) (o : FollowAnswers)
      → IsKept (IsQuiet p) e
      → IsDone p (decide_follow e b o)
  unfolding decide_follow
  decide_follow-IsDone e b o v =
      let t = v.parts.stance in
      let rest = begin_follow-IsAtRest e.behavior t.at_rest in
      let begun = λ (h : (Fsm.begin_follow e.behavior).1 ≢ FollowDecision.start).
        with_stance {Q = IsQuiet p} (Fsm.begin_follow e.behavior).0 e.pending_follow
          e.processing_pending_follow v.parts
          (record { at_rest = rest h; no_follow = t.no_follow; flag = t.flag }) in
      decision_cases {A = Executor × Bool} (IsDone p) (Fsm.begin_follow e.behavior).1
        (λ h. quiet-IsDone _ (kept (begun (λ g. cc))))
        (λ h. quiet-IsDone _ (kept (begun (λ g. cc))))
        (λ h. absurd (t.at_rest.settled (begin_follow-queued e.behavior h)))
        (λ h.
          let (consistent, stopping) = begin_follow-stopping e.behavior t.at_rest.consistent h in
          record {
            engaged = take_over-IsEngaged _ b o (
                kept (
                  with_stance _ _ _ v.parts
                    (record { consistent = consistent; stopping = stopping; flag = t.flag })));
            unlooked = λ u. cc;
          })

  -- From a machine at rest with an empty queue.
  pub start_follow-IsDone :
      (e : Executor) (b : Bool) (o : FollowAnswers)
      → IsKept (IsQuiet p) e
      → IsDone p (start_follow e b o)
  unfolding start_follow
  start_follow-IsDone e b o v =
      if_cases {A = Executor × Bool} (IsDone p) (e.behavior.motion_mode == MotionMode.stopping)
        (λ h. absurd (v.parts.stance.at_rest.settled (ground arith)))
        (λ h.
          if_keeps {A = Executor × Bool} (IsDone p)
            (e.behavior.motion_mode == MotionMode.starting_follow
              || e.behavior.motion_mode == MotionMode.following)
            (quiet-IsDone _ (kept v.parts))
            (if_keeps {A = Executor × Bool} (IsDone p)
              (e.behavior.motion_mode == MotionMode.mapping
                || e.behavior.motion_mode == MotionMode.failed)
              (quiet-IsDone _ (kept v.parts)) (decide_follow-IsDone e b o v)))
