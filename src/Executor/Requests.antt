-- ===== src/Executor/Requests.antt =====
-- The queue of pause and resume requests (src/CommandExecutor.cc) comes to its end.
use mathlib.Core.Bool.{xor}
use rover_ops_jm.Prelude.{
  ℕ, zero, suc, ◌+◌, ◌≤◌, ◌<◌, Bool, true, false, not, if◌then◌else◌, List, [], ◌∷◌, length, ◌≡◌,
  ◌⊎◌, inl, inr, sym, subst, refl, ap, if_cases, arith,
}
use rover_ops_jm.Robot.State.{TaskStatus, RobotDto, mode_eq}
use rover_ops_jm.Robot.Fsm
use rover_ops_jm.Robot.Fsm.{is_navigation}
use rover_ops_jm.Executor.Command.{command_eq}
use rover_ops_jm.Executor.State.{Executor, Message, TaskStateRequest, send}
use rover_ops_jm.Executor.Gate.{finish_command}
use rover_ops_jm.Executor.Service.{
  exec_rosservice_cmd, process_requests, process_next_task_state_request, settle_task_state,
  complete_task_state_transition,
}

-- The state that the last request asks for.
unfoldable pub last_target : Bool → List TaskStateRequest → Bool
last_target paused [] = paused
last_target paused (r ∷ rs) = last_target r.target_paused rs

-- The robot carries out one transition after the other.
unfoldable pub succeed_all : ℕ → Executor → Executor
succeed_all zero e = e
succeed_all (suc n) e = succeed_all n (complete_task_state_transition e true)

-- The executor works on the queue, which shall end in the state `goal`, with `n` requests to go.
record IsServing (n : ℕ) (goal : Bool) (e : Executor) : Type 0 where
  navigating : is_navigation e.behavior.motion_mode ≡ true
  active : e.transition_active ≡ true
  few : length e.requests < n
  aim : last_target e.active_request.target_paused e.requests ≡ goal

-- The queue is done.
pub record IsDone (goal : Bool) (e : Executor) : Type 0 where
  pub no_requests : e.requests ≡ []
  pub stopped : e.worker_running ≡ false
  pub idle : e.transition_active ≡ false
  pub reached : e.task_paused ≡ goal

abbrev Served : ℕ → Bool → Executor → Type 0
Served n goal e = IsDone goal e ⊎ IsServing n goal e

Served-le : {m n : ℕ} {goal : Bool} {e : Executor} → m ≤ n → Served m goal e → Served n goal e
Served-le h (inl v) = inl v
Served-le h (inr v) = inr (record {
  navigating = v.navigating;
  active = v.active;
  few = omega (arith, h, v.few);
  aim = v.aim;
})

aimed : (n : ℕ) {a b : Bool} (e : Executor) → a ≡ b → Served n a e → Served n b e
aimed n e p v = subst (λ g. Served n g e) p v

same : (a b : Bool) → xor a b ≡ false → a ≡ b
unfolding xor
same true true h = refl
same false false h = refl
same true false h = h
same false true h = sym h

clash : (b : Bool) → b ≡ true → ¬ (not b ≡ true)
clash b t f = ground arith

process_requests-Served :
    (rs : List TaskStateRequest) (e : Executor)
    → is_navigation e.behavior.motion_mode ≡ true
    → e.transition_active ≡ false
    → Served (length rs) (last_target e.task_paused rs) (process_requests rs e)
unfolding process_requests exec_rosservice_cmd last_target
process_requests-Served [] e nav t =
    inl (record { no_requests = refl; stopped = refl; idle = t; reached = refl })
process_requests-Served (r ∷ rs) e nav t =
    if_cases (Served (suc (length rs)) (last_target r.target_paused rs))
      (xor r.target_paused e.task_paused)
      (λ h. inr (record { navigating = nav; active = refl; few = omega arith; aim = refl }))
      (λ h.
        let told = send e (Message.already_in_state r.request_type e.task_paused) in
        aimed (suc (length rs)) (process_requests rs told)
          (ap (λ g. last_target g rs) (sym (same _ _ h)))
          (Served-le (omega arith) (process_requests-Served rs told nav t)))

task_state-navigating :
    (s : RobotDto) (t : TaskStatus)
    → is_navigation s.motion_mode ≡ true
    → is_navigation (Fsm.task_state s t).motion_mode ≡ true
unfolding Fsm.task_state is_navigation
task_state-navigating s t h = ground arith

complete-Served :
    (n : ℕ) (goal : Bool) (e : Executor)
    → IsServing (suc n) goal e
    → Served n goal (complete_task_state_transition e true)
unfolding complete_task_state_transition process_next_task_state_request settle_task_state
    finish_command
complete-Served n goal e v =
    let paused = e.active_request.target_paused in
    let status = if paused then TaskStatus.paused else TaskStatus.running in
    if_cases (Served n goal) (not (is_navigation e.behavior.motion_mode))
      (λ h. absurd (clash _ v.navigating h))
      (λ h.
        if_cases (Served n goal) (not e.transition_active) (λ g. absurd (clash _ v.active g))
          (λ g.
            let done = settle_task_state e true in
            Served-le (omega (arith, v.few)) (
              aimed (length e.requests) (process_requests e.requests done) v.aim (
                process_requests-Served e.requests done
                  (task_state-navigating e.behavior status v.navigating) refl))))

IsDone-kept :
    (goal : Bool) (e : Executor)
    → IsDone goal e
    → IsDone goal (complete_task_state_transition e true)
unfolding complete_task_state_transition
IsDone-kept goal e v =
    if_cases (IsDone goal) (not (is_navigation e.behavior.motion_mode)) (λ h. v)
      (λ h.
        if_cases (IsDone goal) (not e.transition_active) (λ g. v)
          (λ g. absurd (both e.transition_active v.idle g)))
  where
    both : (b : Bool) → b ≡ false → ¬ (not b ≡ false)
    both b f t = ground arith

succeed_all-kept :
    (n : ℕ) (goal : Bool) (e : Executor) → IsDone goal e → IsDone goal (succeed_all n e)
unfolding succeed_all
succeed_all-kept zero goal e v = v
succeed_all-kept (suc n) goal e v = succeed_all-kept n goal _ (IsDone-kept goal e v)

succeed_all-served :
    (n : ℕ) (goal : Bool) (e : Executor) → IsServing n goal e → IsDone goal (succeed_all n e)
unfolding succeed_all
succeed_all-served zero goal e v = absurd (omega (arith, v.few))
succeed_all-served (suc n) goal e v = elim (complete-Served n goal e v) [
  | inl done ↦ succeed_all-kept n goal _ done
  | inr more ↦ succeed_all-served n goal _ more
]

-- While the robot navigates and one transition is under way, as many successful answers as there
-- are requests, with the one under way, leave the queue empty, its worker ended and no transition
-- under way, with the task paused or not as the last request asks.
pub succeed_all-IsDone :
    (e : Executor)
    → is_navigation e.behavior.motion_mode ≡ true
    → e.transition_active ≡ true
    → IsDone
        (last_target e.active_request.target_paused e.requests)
        (succeed_all (1 + length e.requests) e)
succeed_all-IsDone e nav active =
    succeed_all-served (1 + length e.requests) _ e
      (record { navigating = nav; active = active; few = omega arith; aim = refl })
