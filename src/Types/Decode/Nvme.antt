-- ===== src/Types/Decode/Nvme.antt =====
-- The NVMe part of a document, by the struct tags of internal/types/types.go.
use smartmontools_go.Base.{pos, String, false, none, List, [], ◌∷◌}
use smartmontools_go.Json.Decode.{
  Decoder, decode_int, decode_bool, decode_pointer, decode_slice, within, decode_struct,
}
use smartmontools_go.Types.{
  NvmeSmartHealth, NvmeSmartTestLog, NvmeControllerCapabilities, NvmeOptionalAdminCommands,
}

abbrev pub zero_nvme_smart_health : NvmeSmartHealth
zero_nvme_smart_health = record {
  critical_warning = pos 0;
  temperature = pos 0;
  available_spare = pos 0;
  available_spare_thresh = pos 0;
  percentage_used = pos 0;
  data_units_read = pos 0;
  data_units_written = pos 0;
  host_read_commands = pos 0;
  host_write_commands = pos 0;
  controller_busy_time = pos 0;
  power_cycles = pos 0;
  power_on_hours = pos 0;
  unsafe_shutdowns = pos 0;
  media_errors = pos 0;
  num_err_log_entries = pos 0;
  warning_temp_time = pos 0;
  critical_comp_time = pos 0;
  temperature_sensors = none;
}

abbrev pub nvme_smart_health_table : List (String × Decoder NvmeSmartHealth)
nvme_smart_health_table =
    (
      "critical_warning",
      within (λ a. a.critical_warning) (λ b a. record a { critical_warning = b }) decode_int,
    )
    ∷ ("temperature", within (λ a. a.temperature) (λ b a. record a { temperature = b }) decode_int)
    ∷ (
      "available_spare",
      within (λ a. a.available_spare) (λ b a. record a { available_spare = b }) decode_int,
    )
    ∷ (
      "available_spare_threshold",
      within (λ a. a.available_spare_thresh) (λ b a. record a { available_spare_thresh = b })
          decode_int,
    )
    ∷ (
      "percentage_used",
      within (λ a. a.percentage_used) (λ b a. record a { percentage_used = b }) decode_int,
    )
    ∷ (
      "data_units_read",
      within (λ a. a.data_units_read) (λ b a. record a { data_units_read = b }) decode_int,
    )
    ∷ (
      "data_units_written",
      within (λ a. a.data_units_written) (λ b a. record a { data_units_written = b }) decode_int,
    )
    ∷ (
      "host_read_commands",
      within (λ a. a.host_read_commands) (λ b a. record a { host_read_commands = b }) decode_int,
    )
    ∷ (
      "host_write_commands",
      within (λ a. a.host_write_commands) (λ b a. record a { host_write_commands = b }) decode_int,
    )
    ∷ (
      "controller_busy_time",
      within (λ a. a.controller_busy_time) (λ b a. record a { controller_busy_time = b })
          decode_int,
    )
    ∷ (
      "power_cycles",
      within (λ a. a.power_cycles) (λ b a. record a { power_cycles = b }) decode_int,
    )
    ∷ (
      "power_on_hours",
      within (λ a. a.power_on_hours) (λ b a. record a { power_on_hours = b }) decode_int,
    )
    ∷ (
      "unsafe_shutdowns",
      within (λ a. a.unsafe_shutdowns) (λ b a. record a { unsafe_shutdowns = b }) decode_int,
    )
    ∷ (
      "media_errors",
      within (λ a. a.media_errors) (λ b a. record a { media_errors = b }) decode_int,
    )
    ∷ (
      "num_err_log_entries",
      within (λ a. a.num_err_log_entries) (λ b a. record a { num_err_log_entries = b }) decode_int,
    )
    ∷ (
      "warning_temp_time",
      within (λ a. a.warning_temp_time) (λ b a. record a { warning_temp_time = b }) decode_int,
    )
    ∷ (
      "critical_comp_time",
      within (λ a. a.critical_comp_time) (λ b a. record a { critical_comp_time = b }) decode_int,
    )
    ∷ (
      "temperature_sensors",
      within (λ a. a.temperature_sensors) (λ b a. record a { temperature_sensors = b })
          (decode_slice (pos 0) decode_int),
    )
    ∷ []

unfoldable pub decode_nvme_smart_health : Decoder NvmeSmartHealth
decode_nvme_smart_health j a = decode_struct nvme_smart_health_table j a

abbrev pub zero_nvme_smart_test_log : NvmeSmartTestLog
zero_nvme_smart_test_log = record { current_operation = none; current_completion = none }

abbrev pub nvme_smart_test_log_table : List (String × Decoder NvmeSmartTestLog)
nvme_smart_test_log_table =
    (
      "current_operation",
      within (λ a. a.current_operation) (λ b a. record a { current_operation = b })
          (decode_pointer (pos 0) decode_int),
    )
    ∷ (
      "current_completion",
      within (λ a. a.current_completion) (λ b a. record a { current_completion = b })
          (decode_pointer (pos 0) decode_int),
    )
    ∷ []

unfoldable pub decode_nvme_smart_test_log : Decoder NvmeSmartTestLog
decode_nvme_smart_test_log j a = decode_struct nvme_smart_test_log_table j a

abbrev pub zero_nvme_controller_capabilities : NvmeControllerCapabilities
zero_nvme_controller_capabilities = record { self_test = false }

abbrev pub nvme_controller_capabilities_table : List (String × Decoder NvmeControllerCapabilities)
nvme_controller_capabilities_table =
    ("self_test", within (λ a. a.self_test) (λ b a. record a { self_test = b }) decode_bool) ∷ []

unfoldable pub decode_nvme_controller_capabilities : Decoder NvmeControllerCapabilities
decode_nvme_controller_capabilities j a = decode_struct nvme_controller_capabilities_table j a

abbrev pub zero_nvme_optional_admin_commands : NvmeOptionalAdminCommands
zero_nvme_optional_admin_commands = record { self_test = false }

abbrev pub nvme_optional_admin_commands_table : List (String × Decoder NvmeOptionalAdminCommands)
nvme_optional_admin_commands_table =
    ("self_test", within (λ a. a.self_test) (λ b a. record a { self_test = b }) decode_bool) ∷ []

unfoldable pub decode_nvme_optional_admin_commands : Decoder NvmeOptionalAdminCommands
decode_nvme_optional_admin_commands j a = decode_struct nvme_optional_admin_commands_table j a
