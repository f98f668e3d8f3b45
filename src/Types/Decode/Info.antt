-- ===== src/Types/Decode/Info.antt =====
-- The other structs of a document, by the struct tags of internal/types/types.go.
use smartmontools_go.Base.{none, pos, String, false, List, [], ◌∷◌}
use smartmontools_go.Json.Decode.{
  Decoder, decode_int, decode_string, decode_bool, decode_slice, within, decode_struct,
}
use smartmontools_go.Types.{
  Device, UserCapacity, SmartStatus, SmartSupport, Temperature, PowerOnTime, Message, SmartctlInfo,
}

abbrev pub zero_device : Device
zero_device = record { name = ""; type = "" }

abbrev pub device_table : List (String × Decoder Device)
device_table =
    ("name", within (λ a. a.name) (λ b a. record a { name = b }) decode_string)
    ∷ ("type", within (λ a. a.type) (λ b a. record a { type = b }) decode_string)
    ∷ []

unfoldable pub decode_device : Decoder Device
decode_device j a = decode_struct device_table j a

abbrev pub zero_user_capacity : UserCapacity
zero_user_capacity = record { blocks = pos 0; bytes = pos 0 }

abbrev pub user_capacity_table : List (String × Decoder UserCapacity)
user_capacity_table =
    ("blocks", within (λ a. a.blocks) (λ b a. record a { blocks = b }) decode_int)
    ∷ ("bytes", within (λ a. a.bytes) (λ b a. record a { bytes = b }) decode_int)
    ∷ []

unfoldable pub decode_user_capacity : Decoder UserCapacity
decode_user_capacity j a = decode_struct user_capacity_table j a

abbrev pub zero_smart_status : SmartStatus
zero_smart_status = record { running = false; passed = false; damaged = false; critical = false }

abbrev pub smart_status_table : List (String × Decoder SmartStatus)
smart_status_table =
    ("running", within (λ a. a.running) (λ b a. record a { running = b }) decode_bool)
    ∷ ("passed", within (λ a. a.passed) (λ b a. record a { passed = b }) decode_bool)
    ∷ ("damaged", within (λ a. a.damaged) (λ b a. record a { damaged = b }) decode_bool)
    ∷ ("critical", within (λ a. a.critical) (λ b a. record a { critical = b }) decode_bool)
    ∷ []

unfoldable pub decode_smart_status : Decoder SmartStatus
decode_smart_status j a = decode_struct smart_status_table j a

abbrev pub zero_smart_support : SmartSupport
zero_smart_support = record { available = false; enabled = false }

abbrev pub smart_support_table : List (String × Decoder SmartSupport)
smart_support_table =
    ("available", within (λ a. a.available) (λ b a. record a { available = b }) decode_bool)
    ∷ ("enabled", within (λ a. a.enabled) (λ b a. record a { enabled = b }) decode_bool)
    ∷ []

unfoldable pub decode_smart_support : Decoder SmartSupport
decode_smart_support j a = decode_struct smart_support_table j a

abbrev pub zero_temperature : Temperature
zero_temperature = record { current = pos 0 }

abbrev pub temperature_table : List (String × Decoder Temperature)
temperature_table =
    ("current", within (λ a. a.current) (λ b a. record a { current = b }) decode_int) ∷ []

unfoldable pub decode_temperature : Decoder Temperature
decode_temperature j a = decode_struct temperature_table j a

abbrev pub zero_power_on_time : PowerOnTime
zero_power_on_time = record { hours = pos 0 }

abbrev pub power_on_time_table : List (String × Decoder PowerOnTime)
power_on_time_table =
    ("hours", within (λ a. a.hours) (λ b a. record a { hours = b }) decode_int) ∷ []

unfoldable pub decode_power_on_time : Decoder PowerOnTime
decode_power_on_time j a = decode_struct power_on_time_table j a

abbrev pub zero_message : Message
zero_message = record { string = ""; severity = "" }

abbrev pub message_table : List (String × Decoder Message)
message_table =
    ("string", within (λ a. a.string) (λ b a. record a { string = b }) decode_string)
    ∷ ("severity", within (λ a. a.severity) (λ b a. record a { severity = b }) decode_string)
    ∷ []

unfoldable pub decode_message : Decoder Message
decode_message j a = decode_struct message_table j a

abbrev pub zero_smartctl_info : SmartctlInfo
zero_smartctl_info = record { version = none; messages = none; exit_status = pos 0 }

abbrev pub smartctl_info_table : List (String × Decoder SmartctlInfo)
smartctl_info_table =
    (
      "version",
      within (λ a. a.version) (λ b a. record a { version = b }) (decode_slice (pos 0) decode_int),
    )
    ∷ (
      "messages",
      within (λ a. a.messages) (λ b a. record a { messages = b })
          (decode_slice zero_message decode_message),
    )
    ∷ ("exit_status", within (λ a. a.exit_status) (λ b a. record a { exit_status = b }) decode_int)
    ∷ []

unfoldable pub decode_smartctl_info : Decoder SmartctlInfo
decode_smartctl_info j a = decode_struct smartctl_info_table j a
