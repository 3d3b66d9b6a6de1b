-- ===== src/Executor/Invariant/Stop.antt =====
-- A stop of navigation keeps the rules.
use rover_ops_jm.Prelude.{Bool, true, false, not, ◌≡◌, inl, if_cases, arith}
use rover_ops_jm.Robot.State.{mode_eq}
use rover_ops_jm.Robot.Fsm
use rover_ops_jm.Robot.Fsm.Rest.{begin_stop-stopping, stopped-IsAtRest}
use rover_ops_jm.Executor.Command.{command_eq}
use rover_ops_jm.Executor.State.{Executor}
use rover_ops_jm.Executor.Request.{Request}
use rover_ops_jm.Executor.Dispatch.{halt_navigation, settle_stop, stop_navigation}
use rover_ops_jm.Executor.Rules.{IsSettled, settled}
use rover_ops_jm.Executor.Invariant.Kept.{IsKept, kept, with_stance, IsHalting, quiet-IsSettled}
use rover_ops_jm.Executor.Invariant.Environment.{invalidate-IsKept, cleanup-IsKept}
use rover_ops_jm.Executor.Invariant.Follow.{queue_arrivals-IsKept}
use rover_ops_jm.Executor.Invariant.FollowQueue.{process_pending-IsQuiet}

halt_navigation-IsKept :
    (e : Executor) (r : Request)
    → (Fsm.begin_stop e.behavior).1 ≡ true
    → IsSettled e
    → IsKept (IsHalting false) (halt_navigation e r).0
unfolding halt_navigation
halt_navigation-IsKept e r h v =
    let (consistent, stopping) = begin_stop-stopping e.behavior v.rules.at_rest.consistent h in
    let halting : IsKept (IsHalting false) (record e { behavior = (Fsm.begin_stop e.behavior).0 }) =
      kept (record {
        stance = record {
          consistent = consistent;
          stopping = stopping;
          flag = v.rules.not_processing;
        };
        served = v.rules.served;
        progress = v.rules.progress;
      }) in
    cleanup-IsKept (IsHalting false) _ r.cleanup
      (queue_arrivals-IsKept false _ r.arrivals (invalidate-IsKept (IsHalting false) _ halting))

settle_stop-IsSettled :
    (e : Executor) (is_stopped : Bool) (r : Request)
    → IsKept (IsHalting false) e
    → IsSettled (settle_stop e is_stopped r)
unfolding settle_stop
settle_stop-IsSettled e is_stopped r v =
    let t = v.parts.stance in
    quiet-IsSettled _ (
      process_pending-IsQuiet r.later_follows _ (
        kept (
          with_stance _ _ _ v.parts (record {
            at_rest = stopped-IsAtRest e.behavior is_stopped _ false t.consistent (inl t.stopping);
            flag = t.flag;
          }))))

pub stop_navigation-IsSettled :
    (e : Executor) (r : Request) → IsSettled e → IsSettled (stop_navigation e r)
unfolding stop_navigation
stop_navigation-IsSettled e r v =
    if_cases IsSettled (not (Fsm.begin_stop e.behavior).1) (λ h. settled v.rules)
      (λ h. settle_stop-IsSettled _ _ r (halt_navigation-IsKept e r (ground arith) v))
