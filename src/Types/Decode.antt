-- ===== src/Types/Decode.antt =====
-- The decoding of smartctl's documents: what encoding/json makes of them at the structs of
-- internal/types/types.go, by their tags, with `StatusField.UnmarshalJSON`.
pub mod Status
pub mod Ata
pub mod Nvme
pub mod Info
use smartmontools_go.Base.{
  ℕ, ℤ, pos, String, Bool, true, false, Option, none, some, List, [], ◌∷◌, GoMap, if◌then◌else◌,
}
use smartmontools_go.Json.{Json, str}
use smartmontools_go.Json.Decode.{
  Decoder, decode_int, decode_string, decode_bool, decode_pointer, decode_slice, within,
  decode_struct, decode_object,
}
use smartmontools_go.Types.{SmartInfo, CapabilitiesOutput, zero_info}
use smartmontools_go.Types.Decode.Ata.{zero_ata_smart_data, decode_ata_smart_data}
use smartmontools_go.Types.Decode.Nvme.{
  zero_nvme_smart_health, decode_nvme_smart_health, zero_nvme_smart_test_log,
  decode_nvme_smart_test_log, zero_nvme_controller_capabilities,
  decode_nvme_controller_capabilities, zero_nvme_optional_admin_commands,
  decode_nvme_optional_admin_commands,
}
use smartmontools_go.Types.Decode.Info.{
  zero_device, decode_device, zero_user_capacity, decode_user_capacity, zero_smart_status,
  decode_smart_status, zero_smart_support, decode_smart_support, zero_temperature,
  decode_temperature, zero_power_on_time, decode_power_on_time, zero_message, decode_message,
  zero_smartctl_info, decode_smartctl_info,
}

abbrev pub info_table : List (String × Decoder SmartInfo)
info_table =
    ("device", within (λ a. a.device) (λ b a. record a { device = b }) decode_device)
    ∷ (
      "model_family",
      within (λ a. a.model_family) (λ b a. record a { model_family = b }) decode_string,
    )
    ∷ ("model_name", within (λ a. a.model_name) (λ b a. record a { model_name = b }) decode_string)
    ∷ (
      "serial_number",
      within (λ a. a.serial_number) (λ b a. record a { serial_number = b }) decode_string,
    )
    ∷ (
      "firmware_version",
      within (λ a. a.firmware) (λ b a. record a { firmware = b }) decode_string,
    )
    ∷ (
      "user_capacity",
      within (λ a. a.user_capacity) (λ b a. record a { user_capacity = b })
          (decode_pointer zero_user_capacity decode_user_capacity),
    )
    ∷ (
      "rotation_rate",
      within (λ a. a.rotation_rate) (λ b a. record a { rotation_rate = b })
          (decode_pointer (pos 0) decode_int),
    )
    ∷ ("in_standby", within (λ a. a.in_standby) (λ b a. record a { in_standby = b }) decode_bool)
    ∷ (
      "smart_status",
      within (λ a. a.smart_status) (λ b a. record a { smart_status = b })
          (decode_pointer zero_smart_status decode_smart_status),
    )
    ∷ (
      "smart_support",
      within (λ a. a.smart_support) (λ b a. record a { smart_support = b })
          (decode_pointer zero_smart_support decode_smart_support),
    )
    ∷ (
      "ata_smart_data",
      within (λ a. a.ata_smart_data) (λ b a. record a { ata_smart_data = b })
          (decode_pointer zero_ata_smart_data decode_ata_smart_data),
    )
    ∷ (
      "nvme_smart_health_information_log",
      within (λ a. a.nvme_smart_health) (λ b a. record a { nvme_smart_health = b })
          (decode_pointer zero_nvme_smart_health decode_nvme_smart_health),
    )
    ∷ (
      "nvme_smart_test_log",
      within (λ a. a.nvme_smart_test_log) (λ b a. record a { nvme_smart_test_log = b })
          (decode_pointer zero_nvme_smart_test_log decode_nvme_smart_test_log),
    )
    ∷ (
      "nvme_controller_capabilities",
      within (λ a. a.nvme_controller_capabilities)
          (λ b a. record a { nvme_controller_capabilities = b })
          (decode_pointer zero_nvme_controller_capabilities decode_nvme_controller_capabilities),
    )
    ∷ (
      "temperature",
      within (λ a. a.temperature) (λ b a. record a { temperature = b })
          (decode_pointer zero_temperature decode_temperature),
    )
    ∷ (
      "power_on_time",
      within (λ a. a.power_on_time) (λ b a. record a { power_on_time = b })
          (decode_pointer zero_power_on_time decode_power_on_time),
    )
    ∷ (
      "power_cycle_count",
      within (λ a. a.power_cycle_count) (λ b a. record a { power_cycle_count = b }) decode_int,
    )
    ∷ (
      "smartctl",
      within (λ a. a.smartctl) (λ b a. record a { smartctl = b })
          (decode_pointer zero_smartctl_info decode_smartctl_info),
    )
    ∷ []

unfoldable pub decode_info : Decoder SmartInfo
decode_info j a = decode_struct info_table j a

abbrev pub zero_capabilities_output : CapabilitiesOutput
zero_capabilities_output = record {
  ata_smart_data = none;
  nvme_controller_capabilities = none;
  nvme_optional_admin_commands = none;
}

abbrev pub capabilities_output_table : List (String × Decoder CapabilitiesOutput)
capabilities_output_table =
    (
      "ata_smart_data",
      within (λ a. a.ata_smart_data) (λ b a. record a { ata_smart_data = b })
          (decode_pointer zero_ata_smart_data decode_ata_smart_data),
    )
    ∷ (
      "nvme_controller_capabilities",
      within (λ a. a.nvme_controller_capabilities)
          (λ b a. record a { nvme_controller_capabilities = b })
          (decode_pointer zero_nvme_controller_capabilities decode_nvme_controller_capabilities),
    )
    ∷ (
      "nvme_optional_admin_commands",
      within (λ a. a.nvme_optional_admin_commands)
          (λ b a. record a { nvme_optional_admin_commands = b })
          (decode_pointer zero_nvme_optional_admin_commands decode_nvme_optional_admin_commands),
    )
    ∷ []

unfoldable pub decode_capabilities_output : Decoder CapabilitiesOutput
decode_capabilities_output j a = decode_struct capabilities_output_table j a
