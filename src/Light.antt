-- ===== src/Light.antt =====
-- Which light the robot shows (src/localWebsocket/LightPolicy.h). The comparison of the charge with
-- its threshold is a Boolean.
use rover_ops_jm.Prelude.{
  String, Bool, true, false, ◌&&◌, ◌||◌, ◌==◌, if◌then◌else◌, List, [], ◌∷◌, ◌≡◌, ◌≢◌, ◌⊎◌, inl,
  inr, refl, arith,
}
use rover_ops_jm.Prelude.Texts.{text_eq}
use rover_ops_jm.Robot.State.{MotionMode, LightStatus, mode_eq}

unfoldable pub navigates : MotionMode → Bool
navigates mode =
    mode == MotionMode.starting_navigation
    || mode == MotionMode.navigation_ready
    || mode == MotionMode.navigating

unfoldable pub follows : MotionMode → Bool
follows mode = mode == MotionMode.starting_follow || mode == MotionMode.following

abbrev light_if : Bool → String → List String → List String
light_if b value rest = if b then value ∷ rest else rest

unfoldable pub select_light_values :
    Bool → Bool → Bool → MotionMode → Bool → Bool → Bool → List String
unfolding navigates follows
select_light_values has_bms bms_error low mode estop lie_down http_follow = light_if estop "estop" (
    light_if (has_bms && bms_error) "bms_error" (
      light_if (has_bms && low) "low_battery" (
        light_if (navigates mode) "navigation" (
          light_if (http_follow || follows mode) "follow"
            (light_if lie_down "lie_down" ("default" ∷ []))))))

unfoldable pub select_light_status : Bool → Bool → Bool → MotionMode → LightStatus
unfolding navigates follows
select_light_status has_bms bms_error low mode =
    if has_bms && bms_error
    then LightStatus.bms_error
    else if has_bms && low
    then LightStatus.low_battey
    else if follows mode
    then LightStatus.follow
    else if navigates mode
    then LightStatus.navigation
    else LightStatus.default

unfoldable pub light_value : LightStatus → String
light_value LightStatus.bms_error = "bms_error"
light_value LightStatus.low_battey = "low_battery"
light_value LightStatus.navigation = "navigation"
light_value LightStatus.follow = "follow"
light_value LightStatus.default = "Default"

abbrev pub first : List String → String
first [] = ""
first (v ∷ vs) = v

exclusive : (mode : MotionMode) → navigates mode && follows mode ≡ false
unfolding navigates follows
exclusive mode = ground arith

-- A first light that goes with a status: its value, except that the list says "default" where the
-- value of the default status is "Default".
abbrev pub GoesWith : String → LightStatus → Type 0
GoesWith light status =
    ((status ≢ LightStatus.default) × (light ≡ light_value status))
    ⊎ ((status ≡ LightStatus.default) × (light ≡ "default") × (light_value status ≡ "Default"))

first_by_tests :
    (a b n f : Bool)
    → n && f ≡ false
    → GoesWith
        (first (
          light_if a "bms_error" (
            light_if b "low_battery"
              (light_if n "navigation" (light_if f "follow" ("default" ∷ []))))))
        (if a
          then LightStatus.bms_error
          else if b
          then LightStatus.low_battey
          else if f
          then LightStatus.follow
          else if n
          then LightStatus.navigation
          else LightStatus.default)
unfolding light_value
first_by_tests true b n f e = inl (λ h. cc, refl)
first_by_tests false true n f e = inl (λ h. cc, refl)
first_by_tests false false true true e = absurd (ground arith)
first_by_tests false false true false e = inl (λ h. cc, refl)
first_by_tests false false false true e = inl (λ h. cc, refl)
first_by_tests false false false false e = inr (refl, refl, refl)

-- Without an emergency stop, a robot that lies down and a follow by HTTP the first light of the list
-- is the value of the status, though the two functions ask for following and navigating in opposite
-- orders; only for the default status the two spell it differently, "default" and "Default".
pub select_light_values-first :
    (has_bms bms_error low : Bool) (mode : MotionMode)
    → GoesWith
        (first (select_light_values has_bms bms_error low mode false false false))
        (select_light_status has_bms bms_error low mode)
unfolding select_light_values select_light_status
select_light_values-first has_bms bms_error low mode =
    first_by_tests (has_bms && bms_error) (has_bms && low) (navigates mode) (follows mode)
      (exclusive mode)
