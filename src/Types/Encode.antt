-- ===== src/Types/Encode.antt =====
-- The documents that encoding/json prints for the structs of internal/types/types.go, by their tags:
-- `SmartInfo` here, its parts in the children.
pub mod Status
pub mod Ata
pub mod Nvme
pub mod Info
use smartmontools_go.Base.{
  ℤ, pos, String, Bool, true, false, not, Option, none, some, List, [], ◌∷◌, if◌then◌else◌, eqbℤ,
  ◌==◌, ◌≡◌, refl, ◌∙◌,
}
use smartmontools_go.Json.{Json, bool, int, str, obj, Fields, end, field}
use smartmontools_go.Json.Encode.{omit_int, omit_string, omit_bool, omit_pointer, omit_slice}
use smartmontools_go.Types.{SmartInfo, zero_info}
use smartmontools_go.Types.Encode.Ata.{
  encode_capabilities, encode_flags, encode_raw, encode_smart_attribute, encode_ata_smart_data,
}
use smartmontools_go.Types.Encode.Nvme.{
  encode_nvme_smart_health, encode_nvme_smart_test_log, encode_nvme_controller_capabilities,
}
use smartmontools_go.Types.Encode.Info.{
  encode_device, encode_user_capacity, encode_smart_status, encode_smart_support,
  encode_temperature, encode_power_on_time, encode_message, encode_smartctl_info,
}

-- the fields from the ATA data on
unfoldable pub data_fields : SmartInfo → Fields
data_fields a = omit_pointer encode_ata_smart_data "ata_smart_data" a.ata_smart_data (
    omit_pointer encode_nvme_smart_health "nvme_smart_health_information_log" a.nvme_smart_health (
      omit_pointer encode_nvme_smart_test_log "nvme_smart_test_log" a.nvme_smart_test_log (
        omit_pointer encode_nvme_controller_capabilities "nvme_controller_capabilities"
          a.nvme_controller_capabilities
          (omit_pointer encode_temperature "temperature" a.temperature (
            omit_pointer encode_power_on_time "power_on_time" a.power_on_time (
              omit_int "power_cycle_count" a.power_cycle_count
                (omit_pointer encode_smartctl_info "smartctl" a.smartctl end)))))))

unfoldable pub encode_info : SmartInfo → Json
encode_info a = obj (
    field "device" (encode_device a.device) (
      omit_string "model_family" a.model_family (
        omit_string "model_name" a.model_name (
          omit_string "serial_number" a.serial_number (
            omit_string "firmware_version" a.firmware (
              omit_pointer encode_user_capacity "user_capacity" a.user_capacity (
                omit_pointer int "rotation_rate" a.rotation_rate (
                  omit_bool "in_standby" a.in_standby (
                    omit_pointer encode_smart_status "smart_status" a.smart_status (
                      omit_pointer encode_smart_support "smart_support" a.smart_support
                        (data_fields a)))))))))))
