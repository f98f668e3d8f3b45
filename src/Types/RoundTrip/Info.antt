-- ===== src/Types/RoundTrip/Info.antt =====
-- Reading back what is printed for the other structs of a document.
use smartmontools_go.Base.{some, ◌≡◌, refl, ◌∙◌}
use smartmontools_go.Text.{to_lower}
use smartmontools_go.Json.{bool, int, str}
use smartmontools_go.Json.Decode.{IsInt64, decode_struct, find_field}
use smartmontools_go.Json.Encode.{EachIn}
use smartmontools_go.Json.ReadBack.{
  read_int, read_string, read_bool, fields_end, field_step, int_step, string_step, bool_step,
  slice_step, int_slice_step,
}
use smartmontools_go.Types.{
  Device, UserCapacity, SmartStatus, SmartSupport, Temperature, PowerOnTime, Message, SmartctlInfo,
}
use smartmontools_go.Types.Decode.Info.{
  decode_device, zero_device, device_table, decode_user_capacity, zero_user_capacity,
  user_capacity_table, decode_smart_status, zero_smart_status, smart_status_table,
  decode_smart_support, zero_smart_support, smart_support_table, decode_temperature,
  zero_temperature, temperature_table, decode_power_on_time, zero_power_on_time,
  power_on_time_table, decode_message, zero_message, message_table, decode_smartctl_info,
  zero_smartctl_info, smartctl_info_table,
}
use smartmontools_go.Types.Encode.Info.{
  encode_device, encode_user_capacity, encode_smart_status, encode_smart_support,
  encode_temperature, encode_power_on_time, encode_message, encode_smartctl_info,
}

pub decode_device-encode_device :
    (a : Device) → decode_device (encode_device a) zero_device ≡ some a
unfolding decode_device encode_device decode_struct find_field to_lower
decode_device-encode_device a =
    field_step device_table _ _ _ "Name" (str a.name) a.name _ zero_device refl (read_string _ _)
    ∙ field_step device_table _ _ _ "Type" (str a.type) a.type _ _ refl (read_string _ _)
    ∙ fields_end device_table _

-- every number in range
abbrev pub UserCapacityFits : UserCapacity → Type 0
UserCapacityFits a = (IsInt64 a.blocks) × (IsInt64 a.bytes)

pub decode_user_capacity-encode_user_capacity :
    (a : UserCapacity)
    → UserCapacityFits a
    → decode_user_capacity (encode_user_capacity a) zero_user_capacity ≡ some a
unfolding decode_user_capacity encode_user_capacity decode_struct find_field to_lower
decode_user_capacity-encode_user_capacity a h =
    field_step user_capacity_table _ _ _ "blocks" (int a.blocks) a.blocks _ zero_user_capacity refl
      (read_int _ _ h.0)
    ∙ field_step user_capacity_table _ _ _ "bytes" (int a.bytes) a.bytes _ _ refl (read_int _ _ h.1)
    ∙ fields_end user_capacity_table _

pub decode_smart_status-encode_smart_status :
    (a : SmartStatus) → decode_smart_status (encode_smart_status a) zero_smart_status ≡ some a
unfolding decode_smart_status encode_smart_status decode_struct find_field to_lower
decode_smart_status-encode_smart_status a =
    field_step smart_status_table _ _ _ "running" (bool a.running) a.running _ zero_smart_status
      refl (read_bool _ _)
    ∙ field_step smart_status_table _ _ _ "passed" (bool a.passed) a.passed _ _ refl (read_bool _ _)
    ∙ bool_step smart_status_table _ _ "damaged" a.damaged _ _ refl refl
    ∙ bool_step smart_status_table _ _ "critical" a.critical _ _ refl refl
    ∙ fields_end smart_status_table _

pub decode_smart_support-encode_smart_support :
    (a : SmartSupport) → decode_smart_support (encode_smart_support a) zero_smart_support ≡ some a
unfolding decode_smart_support encode_smart_support decode_struct find_field to_lower
decode_smart_support-encode_smart_support a =
    field_step smart_support_table _ _ _ "available" (bool a.available) a.available _
      zero_smart_support refl (read_bool _ _)
    ∙ field_step smart_support_table _ _ _ "enabled" (bool a.enabled) a.enabled _ _ refl
        (read_bool _ _)
    ∙ fields_end smart_support_table _

-- every number in range
abbrev pub TemperatureFits : Temperature → Type 0
TemperatureFits a = IsInt64 a.current

pub decode_temperature-encode_temperature :
    (a : Temperature)
    → TemperatureFits a
    → decode_temperature (encode_temperature a) zero_temperature ≡ some a
unfolding decode_temperature encode_temperature decode_struct find_field to_lower
decode_temperature-encode_temperature a h =
    field_step temperature_table _ _ _ "current" (int a.current) a.current _ zero_temperature refl
      (read_int _ _ h)
    ∙ fields_end temperature_table _

-- every number in range
abbrev pub PowerOnTimeFits : PowerOnTime → Type 0
PowerOnTimeFits a = IsInt64 a.hours

pub decode_power_on_time-encode_power_on_time :
    (a : PowerOnTime)
    → PowerOnTimeFits a
    → decode_power_on_time (encode_power_on_time a) zero_power_on_time ≡ some a
unfolding decode_power_on_time encode_power_on_time decode_struct find_field to_lower
decode_power_on_time-encode_power_on_time a h =
    field_step power_on_time_table _ _ _ "hours" (int a.hours) a.hours _ zero_power_on_time refl
      (read_int _ _ h)
    ∙ fields_end power_on_time_table _

pub decode_message-encode_message :
    (a : Message) → decode_message (encode_message a) zero_message ≡ some a
unfolding decode_message encode_message decode_struct find_field to_lower
decode_message-encode_message a =
    field_step message_table _ _ _ "string" (str a.string) a.string _ zero_message refl
      (read_string _ _)
    ∙ string_step message_table _ _ "severity" a.severity _ _ refl refl
    ∙ fields_end message_table _

-- every number in range, and every empty slice nil
abbrev pub SmartctlInfoFits : SmartctlInfo → Type 0
SmartctlInfoFits a =
    (EachIn IsInt64 a.version) × (EachIn (λ _. Unit) a.messages) × (IsInt64 a.exit_status)

pub decode_smartctl_info-encode_smartctl_info :
    (a : SmartctlInfo)
    → SmartctlInfoFits a
    → decode_smartctl_info (encode_smartctl_info a) zero_smartctl_info ≡ some a
unfolding decode_smartctl_info encode_smartctl_info decode_struct find_field to_lower
decode_smartctl_info-encode_smartctl_info a h =
    int_slice_step smartctl_info_table _ _ "version" a.version _ zero_smartctl_info refl h.0 refl
    ∙ slice_step smartctl_info_table _ _ zero_message decode_message (λ _. Unit) encode_message
        "messages" a.messages _ _ refl (λ b fits. decode_message-encode_message b) h.1 refl
    ∙ int_step smartctl_info_table _ _ "exit_status" a.exit_status _ _ refl h.2 refl
    ∙ fields_end smartctl_info_table _
