-- ===== src/Executor/Progress.antt =====
-- The progress of a task as the lines of /rosout tell it (src/CommandExecutor.cc).
use rover_ops_jm.Prelude.{ℕ, ◌≤◌, ◌<◌, min, max, List, [], ◌∷◌, ◌≡◌, ◌∙◌, sym, ap, arith}
use rover_ops_jm.Executor.State.{Executor}
use rover_ops_jm.Executor.Rosout.{reach_waypoint}

unfoldable pub reach_all : Executor → List ℕ → Executor
reach_all e [] = e
reach_all e (i ∷ is) = reach_all (reach_waypoint e i) is

-- The furthest of a start and some waypoints.
unfoldable pub furthest : ℕ → List ℕ → ℕ
furthest r [] = r
furthest r (i ∷ is) = furthest (max r i) is

waypoint-total : (e : Executor) (i : ℕ) → (reach_waypoint e i).total_points ≡ e.total_points
unfolding reach_waypoint
waypoint-total e i = ground arith

waypoint-reached :
    (e : Executor) (i : ℕ)
    → 0 < e.total_points
    → e.reached_points ≤ e.total_points
    → (reach_waypoint e i).reached_points ≡ min (max e.reached_points i) e.total_points
unfolding reach_waypoint
waypoint-reached e i p h = ground arith

clipped : (r i t : ℕ) → min (max (min r t) i) t ≡ min (max r i) t
clipped r i t = ground arith

furthest-min : (r t : ℕ) (is : List ℕ) → min (furthest (min r t) is) t ≡ min (furthest r is) t
unfolding furthest
furthest-min r t [] = ground arith
furthest-min r t (i ∷ is) =
    sym (furthest-min (max (min r t) i) t is)
    ∙ ap (λ m. min (furthest m is) t) (clipped r i t)
    ∙ furthest-min (max r i) t is

-- Within a task that has points, however often and in whatever order the robot reports its waypoints, the progress is the furthest
-- waypoint that was reported, cut off at the points of the task.
pub reach_all-furthest :
    (e : Executor) (is : List ℕ)
    → 0 < e.total_points
    → e.reached_points ≤ e.total_points
    → (reach_all e is).reached_points ≡ min (furthest e.reached_points is) e.total_points
unfolding reach_all furthest
reach_all-furthest e [] p h = ground arith
reach_all-furthest e (i ∷ is) p h =
    let total = waypoint-total e i in
    let reached = waypoint-reached e i p h in
    reach_all-furthest (reach_waypoint e i) is (ground arith) (ground arith)
    ∙ rw (total, reached) (furthest-min (max e.reached_points i) e.total_points is)
