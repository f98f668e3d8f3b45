-- ===== src/Types/RoundTrip.antt =====
-- Reading a whole printed document back; its parts are in the children.
pub mod Status
pub mod Ata
pub mod Nvme
pub mod Info
use smartmontools_go.Base.{
  ℤ, pos, String, Bool, true, false, not, Option, none, some, List, [], ◌∷◌, if◌then◌else◌, eqbℤ,
  ◌==◌, ◌≡◌, refl, ◌∙◌,
}
use smartmontools_go.Text.{to_lower}
use smartmontools_go.Json.{Json, bool, int, str, obj, end, field}
use smartmontools_go.Json.Decode.{
  IsInt64, decode_int, decode_bool, decode_struct, decode_fields, find_field,
}
use smartmontools_go.Json.Encode.{
  omit_int, omit_string, omit_bool, omit_pointer, omit_slice, encode_elems, AllOf, Each,
}
use smartmontools_go.Json.ReadBack.{
  read_int, read_string, read_bool, fields_end, field_step, int_step, string_step, bool_step,
  pointer_step, slice_step, int_pointer_step, int_slice_step, AllOf-unit,
}
use smartmontools_go.Types.{SmartInfo, zero_info}
use smartmontools_go.Types.Decode.Ata.{
  decode_capabilities, zero_capabilities, decode_flags, zero_flags, decode_raw, zero_raw,
  decode_smart_attribute, zero_smart_attribute, decode_ata_smart_data, zero_ata_smart_data,
}
use smartmontools_go.Types.Encode.Ata.{
  encode_capabilities, encode_flags, encode_raw, encode_smart_attribute, encode_ata_smart_data,
}
use smartmontools_go.Types.RoundTrip.Ata.{
  CapabilitiesFits, decode_capabilities-encode_capabilities, FlagsFits, decode_flags-encode_flags,
  RawFits, decode_raw-encode_raw, SmartAttributeFits, decode_smart_attribute-encode_smart_attribute,
  AtaSmartDataFits, decode_ata_smart_data-encode_ata_smart_data,
}
use smartmontools_go.Types.Decode.Nvme.{
  decode_nvme_smart_health, zero_nvme_smart_health, decode_nvme_smart_test_log,
  zero_nvme_smart_test_log, decode_nvme_controller_capabilities, zero_nvme_controller_capabilities,
}
use smartmontools_go.Types.Encode.Nvme.{
  encode_nvme_smart_health, encode_nvme_smart_test_log, encode_nvme_controller_capabilities,
}
use smartmontools_go.Types.RoundTrip.Nvme.{
  NvmeSmartHealthFits, decode_nvme_smart_health-encode_nvme_smart_health, NvmeSmartTestLogFits,
  decode_nvme_smart_test_log-encode_nvme_smart_test_log,
  decode_nvme_controller_capabilities-encode_nvme_controller_capabilities,
}
use smartmontools_go.Types.Decode.Info.{
  decode_device, zero_device, decode_user_capacity, zero_user_capacity, decode_smart_status,
  zero_smart_status, decode_smart_support, zero_smart_support, decode_temperature, zero_temperature,
  decode_power_on_time, zero_power_on_time, decode_message, zero_message, decode_smartctl_info,
  zero_smartctl_info,
}
use smartmontools_go.Types.Encode.Info.{
  encode_device, encode_user_capacity, encode_smart_status, encode_smart_support,
  encode_temperature, encode_power_on_time, encode_message, encode_smartctl_info,
}
use smartmontools_go.Types.RoundTrip.Info.{
  decode_device-encode_device, UserCapacityFits, decode_user_capacity-encode_user_capacity,
  decode_smart_status-encode_smart_status, decode_smart_support-encode_smart_support,
  TemperatureFits, decode_temperature-encode_temperature, PowerOnTimeFits,
  decode_power_on_time-encode_power_on_time, decode_message-encode_message, SmartctlInfoFits,
  decode_smartctl_info-encode_smartctl_info,
}
use smartmontools_go.Types.Decode.{decode_info, info_table}
use smartmontools_go.Types.Encode.{data_fields, encode_info}

-- every number in range, and every empty slice nil
abbrev pub SmartInfoFits : SmartInfo → Type 0
SmartInfoFits a =
    (AllOf UserCapacityFits a.user_capacity)
    × (AllOf IsInt64 a.rotation_rate)
    × (AllOf AtaSmartDataFits a.ata_smart_data)
    × (AllOf NvmeSmartHealthFits a.nvme_smart_health)
    × (AllOf NvmeSmartTestLogFits a.nvme_smart_test_log)
    × (AllOf TemperatureFits a.temperature)
    × (AllOf PowerOnTimeFits a.power_on_time)
    × (IsInt64 a.power_cycle_count)
    × (AllOf SmartctlInfoFits a.smartctl)

-- what the fields before those of the data leave
abbrev first_part : SmartInfo → SmartInfo
first_part a = record zero_info {
  device = a.device;
  model_family = a.model_family;
  model_name = a.model_name;
  serial_number = a.serial_number;
  firmware = a.firmware;
  user_capacity = a.user_capacity;
  rotation_rate = a.rotation_rate;
  in_standby = a.in_standby;
  smart_status = a.smart_status;
  smart_support = a.smart_support;
}

decode_fields-data_fields :
    (a : SmartInfo)
    → SmartInfoFits a
    → decode_fields info_table (data_fields a) (first_part a)
      ≡ some (record a { disk_type = ""; exit_code_info = none })
unfolding data_fields find_field to_lower encode_ata_smart_data encode_nvme_smart_health
    encode_nvme_smart_test_log encode_nvme_controller_capabilities encode_temperature
    encode_power_on_time encode_smartctl_info
decode_fields-data_fields a h =
    pointer_step info_table _ _ zero_ata_smart_data decode_ata_smart_data AtaSmartDataFits
      encode_ata_smart_data "ata_smart_data" a.ata_smart_data _ (first_part a) refl (λ b. refl)
      (λ b fits. decode_ata_smart_data-encode_ata_smart_data b fits) h.2 refl refl
    ∙ pointer_step info_table _ _ zero_nvme_smart_health decode_nvme_smart_health
        NvmeSmartHealthFits encode_nvme_smart_health "nvme_smart_health_information_log"
        a.nvme_smart_health _ _ refl (λ b. refl)
        (λ b fits. decode_nvme_smart_health-encode_nvme_smart_health b fits) h.3 refl refl
    ∙ pointer_step info_table _ _ zero_nvme_smart_test_log decode_nvme_smart_test_log
        NvmeSmartTestLogFits encode_nvme_smart_test_log "nvme_smart_test_log" a.nvme_smart_test_log
        _ _ refl (λ b. refl)
        (λ b fits. decode_nvme_smart_test_log-encode_nvme_smart_test_log b fits) h.4 refl refl
    ∙ pointer_step info_table _ _ zero_nvme_controller_capabilities
        decode_nvme_controller_capabilities (λ _. Unit) encode_nvme_controller_capabilities
        "nvme_controller_capabilities" a.nvme_controller_capabilities _ _ refl (λ b. refl)
        (λ b fits. decode_nvme_controller_capabilities-encode_nvme_controller_capabilities b)
        (AllOf-unit a.nvme_controller_capabilities) refl refl
    ∙ pointer_step info_table _ _ zero_temperature decode_temperature TemperatureFits
        encode_temperature "temperature" a.temperature _ _ refl (λ b. refl)
        (λ b fits. decode_temperature-encode_temperature b fits) h.5 refl refl
    ∙ pointer_step info_table _ _ zero_power_on_time decode_power_on_time PowerOnTimeFits
        encode_power_on_time "power_on_time" a.power_on_time _ _ refl (λ b. refl)
        (λ b fits. decode_power_on_time-encode_power_on_time b fits) h.6 refl refl
    ∙ int_step info_table _ _ "power_cycle_count" a.power_cycle_count _ _ refl h.7 refl
    ∙ pointer_step info_table _ _ zero_smartctl_info decode_smartctl_info SmartctlInfoFits
        encode_smartctl_info "smartctl" a.smartctl _ _ refl (λ b. refl)
        (λ b fits. decode_smartctl_info-encode_smartctl_info b fits) h.8 refl refl
    ∙ fields_end info_table _

-- A SMART document that is printed and read again has every field of the info it was printed from, the
-- ATA attributes, the NVMe log and smartctl's messages among them, where each number fits in 64 bits and
-- each empty slice is nil; only the two computed fields, which have the tag "-", are at their zero values.
pub decode_info-encode_info :
    (a : SmartInfo)
    → SmartInfoFits a
    → decode_info (encode_info a) zero_info
      ≡ some (record a { disk_type = ""; exit_code_info = none })
unfolding decode_info encode_info decode_struct find_field to_lower encode_smart_status
    encode_smart_support encode_user_capacity
decode_info-encode_info a h =
    field_step info_table _ _ _ "device" (encode_device a.device) a.device _ zero_info refl
      (decode_device-encode_device a.device)
    ∙ string_step info_table _ _ "model_family" a.model_family _ _ refl refl
    ∙ string_step info_table _ _ "model_name" a.model_name _ _ refl refl
    ∙ string_step info_table _ _ "serial_number" a.serial_number _ _ refl refl
    ∙ string_step info_table _ _ "firmware_version" a.firmware _ _ refl refl
    ∙ pointer_step info_table _ _ zero_user_capacity decode_user_capacity UserCapacityFits
        encode_user_capacity "user_capacity" a.user_capacity _ _ refl (λ b. refl)
        (λ b fits. decode_user_capacity-encode_user_capacity b fits) h.0 refl refl
    ∙ int_pointer_step info_table _ _ "rotation_rate" a.rotation_rate _ _ refl h.1 refl refl
    ∙ bool_step info_table _ _ "in_standby" a.in_standby _ _ refl refl
    ∙ pointer_step info_table _ _ zero_smart_status decode_smart_status (λ _. Unit)
        encode_smart_status "smart_status" a.smart_status _ _ refl (λ b. refl)
        (λ b fits. decode_smart_status-encode_smart_status b) (AllOf-unit a.smart_status) refl refl
    ∙ pointer_step info_table _ _ zero_smart_support decode_smart_support (λ _. Unit)
        encode_smart_support "smart_support" a.smart_support _ _ refl (λ b. refl)
        (λ b fits. decode_smart_support-encode_smart_support b) (AllOf-unit a.smart_support) refl
        refl
    ∙ decode_fields-data_fields a h
