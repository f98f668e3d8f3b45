-- ===== src/Types/Encode/Info.antt =====
-- What is printed for the other structs of a document.
use smartmontools_go.Json.{Json, bool, int, str, obj, end, field}
use smartmontools_go.Json.Encode.{omit_int, omit_string, omit_bool, omit_slice}
use smartmontools_go.Types.{
  Device, UserCapacity, SmartStatus, SmartSupport, Temperature, PowerOnTime, Message, SmartctlInfo,
}

unfoldable pub encode_device : Device → Json
encode_device a = obj (field "Name" (str a.name) (field "Type" (str a.type) end))

unfoldable pub encode_user_capacity : UserCapacity → Json
encode_user_capacity a = obj (field "blocks" (int a.blocks) (field "bytes" (int a.bytes) end))

unfoldable pub encode_smart_status : SmartStatus → Json
encode_smart_status a = obj (
    field "running" (bool a.running) (
      field "passed" (bool a.passed)
        (omit_bool "damaged" a.damaged (omit_bool "critical" a.critical end))))

unfoldable pub encode_smart_support : SmartSupport → Json
encode_smart_support a =
    obj (field "available" (bool a.available) (field "enabled" (bool a.enabled) end))

unfoldable pub encode_temperature : Temperature → Json
encode_temperature a = obj (field "current" (int a.current) end)

unfoldable pub encode_power_on_time : PowerOnTime → Json
encode_power_on_time a = obj (field "hours" (int a.hours) end)

unfoldable pub encode_message : Message → Json
encode_message a = obj (field "string" (str a.string) (omit_string "severity" a.severity end))

unfoldable pub encode_smartctl_info : SmartctlInfo → Json
encode_smartctl_info a = obj (
    omit_slice int "version" a.version
      (omit_slice encode_message "messages" a.messages (omit_int "exit_status" a.exit_status end)))
