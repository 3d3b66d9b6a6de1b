-- ===== src/Battery.antt =====
-- What is told of the battery (src/bms/BatteryProvider.cc).
pub mod Alarms
pub mod Fault
use Prim.Native.String.{◌++◌ as append}
use rover_ops_jm.Prelude.{
  ℕ, ◌-◌, min, String, Bool, true, false, ◌&&◌, ◌||◌, not, ltb, leb, ◌==◌, nat_eq, List, [], ◌∷◌,
  ◌++◌, map, keep_if, if◌then◌else◌,
}
use rover_ops_jm.Prelude.Texts.{text_eq}
use rover_ops_jm.Battery.Alarms.{
  Level, Flag, Status, BmsState, Signal, all_levels, all_flags, level_label, flag_label, signals,
}

-- `add_active_level` and `add_active_flag`, one after the other.
unfoldable pub active_levels : BmsState → List Level
active_levels m = keep_if (λ k. ltb 0 (m.level k)) all_levels

unfoldable pub active_flags : BmsState → List Flag
active_flags m = keep_if (λ f. m.flag f) all_flags

unfoldable pub signal : BmsState → Signal → Bool
signal m (Signal.of_level k) = ltb 0 (m.level k)
signal m (Signal.of_flag f) = m.flag f
signal m (Signal.of_status s) = m.status s

unfoldable pub alarm_flags : BmsState → List Bool
unfolding signal
alarm_flags m = map (signal m) signals

-- The labels with commas between; empty ones are left out.
unfoldable pub join_labels : String → List String → String
join_labels result [] = result
join_labels result (label ∷ labels) =
    join_labels
      (if label == ""
        then result
        else if result == ""
        then label
        else append result (append "," label))
      labels

unfoldable pub join_alarm_labels : List Level → List Flag → String
unfolding join_labels
join_alarm_labels levels flags = join_labels "" (map level_label levels ++ map flag_label flags)

unfoldable pub any {ℓ} : {A : Type ℓ} → (A → Bool) → List A → Bool
any p [] = false
any p (x ∷ xs) = p x || any p xs

abbrev pub is_soc_low : Level → Bool
is_soc_low Level.soc_low_level = true
is_soc_low k = false

-- What the rest of the program is told, with the alarms that the payload for the web names.
pub record BatterySnapshot : Type 0 where
  pub received : Bool
  pub valid : Bool
  pub fault : Bool
  pub soc_percent : ℕ
  pub alarm_info : String

-- The low charge is judged by the configured threshold instead.
unfoldable pub has_fault : BmsState → Bool
has_fault m =
    m.status Status.precharge_mos_fault
    || any (λ f. true) (active_flags m)
    || any (λ k. not (is_soc_low k)) (active_levels m)

unfoldable pub m20_snapshot : BmsState → BatterySnapshot
m20_snapshot m = record {
  received = true;
  valid = true;
  fault = has_fault m;
  soc_percent = m.soc_percent;
  alarm_info = join_alarm_labels (active_levels m) (active_flags m);
}

-- A battery of the A10: whether its voltage is above zero, its charge and its alarms.
pub record A10Battery : Type 0 where
  pub has_voltage : Bool
  pub soc_percent : ℕ
  pub active_alarm_count : ℕ

unfoldable pub a10_soc : A10Battery → A10Battery → ℕ
a10_soc one two =
    if one.has_voltage && two.has_voltage
    then min one.soc_percent two.soc_percent
    else if one.has_voltage
    then one.soc_percent
    else if two.has_voltage
    then two.soc_percent
    else 0

unfoldable pub a10_snapshot : A10Battery → A10Battery → BatterySnapshot
a10_snapshot one two =
    let valid = one.has_voltage || two.has_voltage in
    record {
      received = true;
      valid = valid;
      fault = (ltb 0 one.active_alarm_count || ltb 0 two.active_alarm_count) || not valid;
      soc_percent = a10_soc one two;
      alarm_info = "";
    }

-- The provider: its model, whether it runs, what came last, and what the callback was told, the
-- newest first.
pub record BatteryProvider : Type 0 where
  pub model : List ℕ
  pub topic : String
  pub running : Bool
  pub latest : BatterySnapshot
  pub has_callback : Bool
  pub told : List BatterySnapshot

abbrev pub m20 : List ℕ
m20 = b'M' ∷ b'2' ∷ b'0' ∷ []

abbrev pub a10 : List ℕ
a10 = b'A' ∷ b'1' ∷ b'0' ∷ []

unfoldable pub same_text : List ℕ → List ℕ → Bool
same_text [] [] = true
same_text (x ∷ xs) (y ∷ ys) = x == y && same_text xs ys
same_text _ _ = false

-- `toupper` of a byte.
unfoldable pub to_upper : ℕ → ℕ
to_upper c = if leb b'a' c && leb c b'z' then c - 32 else c

abbrev nothing : BatterySnapshot
nothing = record {
  received = false;
  valid = false;
  fault = false;
  soc_percent = 0;
  alarm_info = "";
}

unfoldable pub provider : List ℕ → String → BatteryProvider
provider model topic =
    let upper = map to_upper model in
    record {
      model = upper;
      topic =
          if same_text upper a10
          then "/bms_status"
          else if topic == ""
          then "/m20/bms_state"
          else topic;
      running = false;
      latest = nothing;
      has_callback = false;
      told = [];
    }

-- `built` tells whether the A10's messages were there when the program was built.
unfoldable pub start : Bool → BatteryProvider → BatteryProvider × Bool
start built p =
    if not (same_text p.model m20) && not (same_text p.model a10)
    then (p, false)
    else if not built && same_text p.model a10
    then (p, false)
    else (record p { running = true }, true)

unfoldable pub stop_provider : BatteryProvider → BatteryProvider
stop_provider p = record p { running = false }

unfoldable pub publish_battery : BatteryProvider → BatterySnapshot → BatteryProvider
publish_battery p s =
    let kept = record p { latest = s } in
    if not p.running then p else if p.has_callback then record kept { told = s ∷ p.told } else kept
