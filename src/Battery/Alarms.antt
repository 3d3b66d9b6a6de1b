-- ===== src/Battery/Alarms.antt =====
-- The battery's alarms, as the BMS of the M20 reports them (src/bms/BatteryProvider.cc).
use rover_ops_jm.Prelude.{ℕ, String, Bool, List, [], ◌∷◌}

-- The alarms that have a level.
pub data Level : Type 0 where
  cell_overvoltage_level cell_undervoltage_level cell_diff_over_level chg_high_temp_level
        chg_low_temp_level dsg_high_temp_level dsg_low_temp_level temp_diff_over_level
        total_overvoltage_level total_undervoltage_level chg_overcurrent_level dsg_overcurrent_level
        soc_low_level soh_low_level cell_mos_overtemp_level thermal_runaway_level :
      Level

-- The alarms that are there or not.
pub data Flag : Type 0 where
  smart_charger_failed smart_load_failed chg_mos_overtemp chg_mos_temp_fault dsg_mos_overtemp
        dsg_mos_temp_fault short_circuit_protect lv_chg_forbidden hv_dsg_forbidden afe_fault
        afe_comm_fault afe_sample_fault voltage_detect_fault voltage_sampling_line_lost
        total_voltage_fault current_detect_fault temp_detect_fault temp_sampling_line_lost
        eeprom_fault flash_fault rtc_fault chg_mos_fault dsg_mos_fault precharge_failed
        parallel_comm_failed heater_fault :
      Flag

-- What else is only there or not.
pub data Status : Type 0 where
  smart_charger_connected smart_load_connected parallel_comm_success precharge_mos_fault
        comm_cmd_chg_mos_off comm_cmd_dsg_mos_off switch_chg_mos_off switch_dsg_mos_off fan_working
        heater_working current_limiter_working :
      Status

-- `M20BmsState`, as far as alarms and the charge go.
pub record BmsState : Type 0 where
  pub level : Level → ℕ
  pub flag : Flag → Bool
  pub status : Status → Bool
  pub soc_percent : ℕ

abbrev pub all_levels : List Level
all_levels =
    Level.cell_overvoltage_level ∷ Level.cell_undervoltage_level ∷ Level.cell_diff_over_level
    ∷ Level.chg_high_temp_level ∷ Level.chg_low_temp_level ∷ Level.dsg_high_temp_level
    ∷ Level.dsg_low_temp_level ∷ Level.temp_diff_over_level ∷ Level.total_overvoltage_level
    ∷ Level.total_undervoltage_level ∷ Level.chg_overcurrent_level ∷ Level.dsg_overcurrent_level
    ∷ Level.soc_low_level ∷ Level.soh_low_level ∷ Level.cell_mos_overtemp_level
    ∷ Level.thermal_runaway_level ∷ []

abbrev pub all_flags : List Flag
all_flags =
    Flag.smart_charger_failed ∷ Flag.smart_load_failed ∷ Flag.chg_mos_overtemp
    ∷ Flag.chg_mos_temp_fault ∷ Flag.dsg_mos_overtemp ∷ Flag.dsg_mos_temp_fault
    ∷ Flag.short_circuit_protect ∷ Flag.lv_chg_forbidden ∷ Flag.hv_dsg_forbidden ∷ Flag.afe_fault
    ∷ Flag.afe_comm_fault ∷ Flag.afe_sample_fault ∷ Flag.voltage_detect_fault
    ∷ Flag.voltage_sampling_line_lost ∷ Flag.total_voltage_fault ∷ Flag.current_detect_fault
    ∷ Flag.temp_detect_fault ∷ Flag.temp_sampling_line_lost ∷ Flag.eeprom_fault ∷ Flag.flash_fault
    ∷ Flag.rtc_fault ∷ Flag.chg_mos_fault ∷ Flag.dsg_mos_fault ∷ Flag.precharge_failed
    ∷ Flag.parallel_comm_failed ∷ Flag.heater_fault ∷ []

abbrev pub level_label : Level → String
level_label Level.cell_overvoltage_level = "单体过压告警"
level_label Level.cell_undervoltage_level = "单体欠压告警"
level_label Level.cell_diff_over_level = "压差过大告警"
level_label Level.chg_high_temp_level = "充电高温告警"
level_label Level.chg_low_temp_level = "充电低温告警"
level_label Level.dsg_high_temp_level = "放电高温告警"
level_label Level.dsg_low_temp_level = "放电低温告警"
level_label Level.temp_diff_over_level = "温差过大告警"
level_label Level.total_overvoltage_level = "总压过高告警"
level_label Level.total_undervoltage_level = "总压过低告警"
level_label Level.chg_overcurrent_level = "充电过流告警"
level_label Level.dsg_overcurrent_level = "放电过流告警"
level_label Level.soc_low_level = "SOC过低告警"
level_label Level.soh_low_level = "SOH过低告警"
level_label Level.cell_mos_overtemp_level = "MOS温度过高告警"
level_label Level.thermal_runaway_level = "热失控告警"

abbrev pub flag_label : Flag → String
flag_label Flag.smart_charger_failed = "智能充电器连接失败"
flag_label Flag.smart_load_failed = "智能放电设备连接失败"
flag_label Flag.chg_mos_overtemp = "充电MOS温度过高"
flag_label Flag.chg_mos_temp_fault = "充电MOS温度检测故障"
flag_label Flag.dsg_mos_overtemp = "放电MOS温度过高"
flag_label Flag.dsg_mos_temp_fault = "放电MOS温度检测故障"
flag_label Flag.short_circuit_protect = "短路保护"
flag_label Flag.lv_chg_forbidden = "低压禁止充电"
flag_label Flag.hv_dsg_forbidden = "高压禁止放电"
flag_label Flag.afe_fault = "AFE芯片故障"
flag_label Flag.afe_comm_fault = "AFE通信故障"
flag_label Flag.afe_sample_fault = "AFE采样故障"
flag_label Flag.voltage_detect_fault = "电压检测故障"
flag_label Flag.voltage_sampling_line_lost = "电压采集线掉线"
flag_label Flag.total_voltage_fault = "总压检测故障"
flag_label Flag.current_detect_fault = "电流检测故障"
flag_label Flag.temp_detect_fault = "温度检测故障"
flag_label Flag.temp_sampling_line_lost = "温度采集线掉线"
flag_label Flag.eeprom_fault = "EEPROM故障"
flag_label Flag.flash_fault = "Flash故障"
flag_label Flag.rtc_fault = "RTC故障"
flag_label Flag.chg_mos_fault = "充电MOS故障"
flag_label Flag.dsg_mos_fault = "放电MOS故障"
flag_label Flag.precharge_failed = "预充失败"
flag_label Flag.parallel_comm_failed = "并联通信失败"
flag_label Flag.heater_fault = "加热故障"

-- An entry of the array of all alarms and states.
pub data Signal : Type 0 where
  of_level : Level → Signal
  of_flag : Flag → Signal
  of_status : Status → Signal

abbrev pub signals : List Signal
signals =
    Signal.of_level Level.cell_overvoltage_level
    ∷ Signal.of_level Level.cell_undervoltage_level
    ∷ Signal.of_status Status.smart_charger_connected
    ∷ Signal.of_flag Flag.smart_charger_failed
    ∷ Signal.of_level Level.cell_diff_over_level
    ∷ Signal.of_level Level.chg_high_temp_level
    ∷ Signal.of_status Status.smart_load_connected
    ∷ Signal.of_flag Flag.smart_load_failed
    ∷ Signal.of_level Level.chg_low_temp_level
    ∷ Signal.of_level Level.dsg_high_temp_level
    ∷ Signal.of_flag Flag.chg_mos_overtemp
    ∷ Signal.of_flag Flag.chg_mos_temp_fault
    ∷ Signal.of_level Level.dsg_low_temp_level
    ∷ Signal.of_level Level.temp_diff_over_level
    ∷ Signal.of_flag Flag.dsg_mos_overtemp
    ∷ Signal.of_flag Flag.dsg_mos_temp_fault
    ∷ Signal.of_level Level.total_overvoltage_level
    ∷ Signal.of_level Level.total_undervoltage_level
    ∷ Signal.of_flag Flag.short_circuit_protect
    ∷ Signal.of_level Level.chg_overcurrent_level
    ∷ Signal.of_level Level.dsg_overcurrent_level
    ∷ Signal.of_flag Flag.lv_chg_forbidden
    ∷ Signal.of_flag Flag.hv_dsg_forbidden
    ∷ Signal.of_level Level.soc_low_level
    ∷ Signal.of_level Level.soh_low_level
    ∷ Signal.of_status Status.parallel_comm_success
    ∷ Signal.of_flag Flag.parallel_comm_failed
    ∷ Signal.of_level Level.cell_mos_overtemp_level
    ∷ Signal.of_level Level.thermal_runaway_level
    ∷ Signal.of_flag Flag.afe_fault
    ∷ Signal.of_flag Flag.afe_comm_fault
    ∷ Signal.of_flag Flag.afe_sample_fault
    ∷ Signal.of_flag Flag.voltage_detect_fault
    ∷ Signal.of_flag Flag.voltage_sampling_line_lost
    ∷ Signal.of_flag Flag.total_voltage_fault
    ∷ Signal.of_flag Flag.current_detect_fault
    ∷ Signal.of_flag Flag.temp_detect_fault
    ∷ Signal.of_flag Flag.temp_sampling_line_lost
    ∷ Signal.of_flag Flag.eeprom_fault
    ∷ Signal.of_flag Flag.flash_fault
    ∷ Signal.of_flag Flag.rtc_fault
    ∷ Signal.of_flag Flag.chg_mos_fault
    ∷ Signal.of_flag Flag.dsg_mos_fault
    ∷ Signal.of_status Status.precharge_mos_fault
    ∷ Signal.of_flag Flag.precharge_failed
    ∷ Signal.of_status Status.comm_cmd_chg_mos_off
    ∷ Signal.of_status Status.comm_cmd_dsg_mos_off
    ∷ Signal.of_status Status.switch_chg_mos_off
    ∷ Signal.of_status Status.switch_dsg_mos_off
    ∷ Signal.of_status Status.fan_working
    ∷ Signal.of_status Status.heater_working
    ∷ Signal.of_status Status.current_limiter_working
    ∷ Signal.of_flag Flag.heater_fault
    ∷ []
