-- ===== src/Executor/Queue.antt =====
-- The follow that is queued while a stop is under way (src/CommandExecutor.cc).
use rover_ops_jm.Prelude.{
  ℕ, zero, suc, Bool, false, List, [], ◌∷◌, ◌++◌, Option, none, some, ◌≡◌, refl, sym, subst,
  option_keeps,
}
use rover_ops_jm.Executor.State.{Executor, FollowRequest}
use rover_ops_jm.Executor.Follow.{
  FollowAnswers, queue_pending_follow_request, queue_arrivals, start_follow, drain_pending,
}
use rover_ops_jm.Executor.Rules.{IsSettled}
use rover_ops_jm.Executor.Invariant.Kept.{IsKept, settled-IsQuiet}
use rover_ops_jm.Executor.Invariant.Follow.{IsEngaged, start_follow-IsDone}
use rover_ops_jm.Executor.Invariant.FollowQueue.{shut}
use rover_ops_jm.Executor.Invariant.Shut.{start_follow-IsUnmoved}

-- Of the follow requests that arrive during a stop, the last one is queued.
queue_arrivals-last :
    (e : Executor) (earlier : List Bool) (last : Bool)
    → (queue_arrivals e (earlier ++ last ∷ [])).pending_follow
      ≡ some (record { start_backend = last })
unfolding queue_arrivals queue_pending_follow_request
queue_arrivals-last e [] last = refl
queue_arrivals-last e (b ∷ earlier) last = queue_arrivals-last _ earlier last

-- What the loop leaves, beside the first round: an empty queue, and the machine and the backend as
-- they were.
pub record IsEnded (first last : Executor) : Type 0 where
  pub emptied : last.pending_follow ≡ none
  pub behavior : last.behavior ≡ first.behavior
  pub follow : last.follow ≡ first.follow

drain-empty :
    (n : ℕ) (answers : ℕ → FollowAnswers) (e : Executor)
    → e.pending_follow ≡ none
    → drain_pending n answers e ≡ e
unfolding drain_pending
drain-empty zero answers e h = refl
drain-empty (suc n) answers e h =
    option_keeps (λ d. d ≡ e) e.pending_follow (λ n. refl) (λ r s. absurd (clash s h))
  where
    clash : {o : Option FollowRequest} {r : FollowRequest} → o ≡ some r → ¬ (o ≡ none)
    clash s n = cc

-- The rounds behind the first leave what it did.
later_rounds :
    (n : ℕ) (answers : ℕ → FollowAnswers) (e : Executor)
    → IsKept (IsEngaged false) e
    → IsEnded e (drain_pending (suc n) answers e)
unfolding drain_pending
later_rounds n answers e v =
    option_keeps (IsEnded e) e.pending_follow
      (λ h. record { emptied = h; behavior = refl; follow = refl })
      (λ r h.
        let unmoved =
          start_follow-IsUnmoved (record e { pending_follow = none }) r.start_backend (answers n)
            (shut false e r v h) in
        subst (IsEnded e) (sym (drain-empty n answers _ unmoved.pending)) (record {
          emptied = unmoved.pending;
          behavior = unmoved.behavior;
          follow = unmoved.follow;
        }))

-- The loop over the queued follow ends, and starts one follow: in a settled executor two rounds empty
-- the queue, whatever other threads queue during the clean-up of the first, and what the first
-- leaves of the machine and the backend stays, since the requests that came meanwhile find the
-- robot following or in a fault and are only answered.
pub drain_pending-ends :
    (e : Executor) (request : FollowRequest) (n : ℕ) (answers : ℕ → FollowAnswers)
    → IsSettled e
    → IsEnded
        (start_follow e request.start_backend (answers (suc n))).0
        (drain_pending (suc (suc n)) answers (record e { pending_follow = some request }))
unfolding drain_pending
drain_pending-ends e request n answers v =
    subst
      (λ o. IsEnded (start_follow e request.start_backend (answers (suc n))).0 (
        drain_pending (suc n) answers
          (start_follow (record e { pending_follow = o }) request.start_backend
            (answers (suc n))).0))
      v.rules.no_follow
      (later_rounds n answers _
        (start_follow-IsDone false e request.start_backend (answers (suc n))
          (settled-IsQuiet e v)).engaged)
