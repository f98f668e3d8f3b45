-- ===== src/Types/RoundTrip/Nvme.antt =====
-- Reading back what is printed for the NVMe part of a document.
use smartmontools_go.Base.{some, ◌≡◌, refl, ◌∙◌}
use smartmontools_go.Text.{to_lower}
use smartmontools_go.Json.Decode.{IsInt64, decode_struct, find_field}
use smartmontools_go.Json.Encode.{EachIn, AllOf}
use smartmontools_go.Json.ReadBack.{
  fields_end, int_step, bool_step, int_pointer_step, int_slice_step,
}
use smartmontools_go.Types.{NvmeSmartHealth, NvmeSmartTestLog, NvmeControllerCapabilities}
use smartmontools_go.Types.Decode.Nvme.{
  decode_nvme_smart_health, zero_nvme_smart_health, nvme_smart_health_table,
  decode_nvme_smart_test_log, zero_nvme_smart_test_log, nvme_smart_test_log_table,
  decode_nvme_controller_capabilities, zero_nvme_controller_capabilities,
  nvme_controller_capabilities_table,
}
use smartmontools_go.Types.Encode.Nvme.{
  encode_nvme_smart_health, encode_nvme_smart_test_log, encode_nvme_controller_capabilities,
}

-- every number in range, and every empty slice nil
abbrev pub NvmeSmartHealthFits : NvmeSmartHealth → Type 0
NvmeSmartHealthFits a =
    (IsInt64 a.critical_warning)
    × (IsInt64 a.temperature)
    × (IsInt64 a.available_spare)
    × (IsInt64 a.available_spare_thresh)
    × (IsInt64 a.percentage_used)
    × (IsInt64 a.data_units_read)
    × (IsInt64 a.data_units_written)
    × (IsInt64 a.host_read_commands)
    × (IsInt64 a.host_write_commands)
    × (IsInt64 a.controller_busy_time)
    × (IsInt64 a.power_cycles)
    × (IsInt64 a.power_on_hours)
    × (IsInt64 a.unsafe_shutdowns)
    × (IsInt64 a.media_errors)
    × (IsInt64 a.num_err_log_entries)
    × (IsInt64 a.warning_temp_time)
    × (IsInt64 a.critical_comp_time)
    × (EachIn IsInt64 a.temperature_sensors)

pub decode_nvme_smart_health-encode_nvme_smart_health :
    (a : NvmeSmartHealth)
    → NvmeSmartHealthFits a
    → decode_nvme_smart_health (encode_nvme_smart_health a) zero_nvme_smart_health ≡ some a
unfolding decode_nvme_smart_health encode_nvme_smart_health decode_struct find_field to_lower
decode_nvme_smart_health-encode_nvme_smart_health a h =
    int_step nvme_smart_health_table _ _ "critical_warning" a.critical_warning _
      zero_nvme_smart_health refl h.0 refl
    ∙ int_step nvme_smart_health_table _ _ "temperature" a.temperature _ _ refl h.1 refl
    ∙ int_step nvme_smart_health_table _ _ "available_spare" a.available_spare _ _ refl h.2 refl
    ∙ int_step nvme_smart_health_table _ _ "available_spare_threshold" a.available_spare_thresh _ _
        refl h.3 refl
    ∙ int_step nvme_smart_health_table _ _ "percentage_used" a.percentage_used _ _ refl h.4 refl
    ∙ int_step nvme_smart_health_table _ _ "data_units_read" a.data_units_read _ _ refl h.5 refl
    ∙ int_step nvme_smart_health_table _ _ "data_units_written" a.data_units_written _ _ refl h.6
        refl
    ∙ int_step nvme_smart_health_table _ _ "host_read_commands" a.host_read_commands _ _ refl h.7
        refl
    ∙ int_step nvme_smart_health_table _ _ "host_write_commands" a.host_write_commands _ _ refl h.8
        refl
    ∙ int_step nvme_smart_health_table _ _ "controller_busy_time" a.controller_busy_time _ _ refl
        h.9 refl
    ∙ int_step nvme_smart_health_table _ _ "power_cycles" a.power_cycles _ _ refl h.10 refl
    ∙ int_step nvme_smart_health_table _ _ "power_on_hours" a.power_on_hours _ _ refl h.11 refl
    ∙ int_step nvme_smart_health_table _ _ "unsafe_shutdowns" a.unsafe_shutdowns _ _ refl h.12 refl
    ∙ int_step nvme_smart_health_table _ _ "media_errors" a.media_errors _ _ refl h.13 refl
    ∙ int_step nvme_smart_health_table _ _ "num_err_log_entries" a.num_err_log_entries _ _ refl h.14
        refl
    ∙ int_step nvme_smart_health_table _ _ "warning_temp_time" a.warning_temp_time _ _ refl h.15
        refl
    ∙ int_step nvme_smart_health_table _ _ "critical_comp_time" a.critical_comp_time _ _ refl h.16
        refl
    ∙ int_slice_step nvme_smart_health_table _ _ "temperature_sensors" a.temperature_sensors _ _
        refl h.17 refl
    ∙ fields_end nvme_smart_health_table _

-- every number in range
abbrev pub NvmeSmartTestLogFits : NvmeSmartTestLog → Type 0
NvmeSmartTestLogFits a = (AllOf IsInt64 a.current_operation) × (AllOf IsInt64 a.current_completion)

pub decode_nvme_smart_test_log-encode_nvme_smart_test_log :
    (a : NvmeSmartTestLog)
    → NvmeSmartTestLogFits a
    → decode_nvme_smart_test_log (encode_nvme_smart_test_log a) zero_nvme_smart_test_log ≡ some a
unfolding decode_nvme_smart_test_log encode_nvme_smart_test_log decode_struct find_field to_lower
decode_nvme_smart_test_log-encode_nvme_smart_test_log a h =
    int_pointer_step nvme_smart_test_log_table _ _ "current_operation" a.current_operation _
      zero_nvme_smart_test_log refl h.0 refl refl
    ∙ int_pointer_step nvme_smart_test_log_table _ _ "current_completion" a.current_completion _ _
        refl h.1 refl refl
    ∙ fields_end nvme_smart_test_log_table _

pub decode_nvme_controller_capabilities-encode_nvme_controller_capabilities :
    (a : NvmeControllerCapabilities)
    → decode_nvme_controller_capabilities
        (encode_nvme_controller_capabilities a)
        zero_nvme_controller_capabilities
      ≡ some a
unfolding decode_nvme_controller_capabilities encode_nvme_controller_capabilities decode_struct
    find_field to_lower
decode_nvme_controller_capabilities-encode_nvme_controller_capabilities a =
    bool_step nvme_controller_capabilities_table _ _ "self_test" a.self_test _
      zero_nvme_controller_capabilities refl refl
    ∙ fields_end nvme_controller_capabilities_table _
