-- ===== src/Types/Encode/Status.antt =====
-- What is printed for the self-test part of a document.
use smartmontools_go.Json.{Json, bool, int, str, obj, end, field}
use smartmontools_go.Json.Encode.{omit_int, omit_pointer}
use smartmontools_go.Types.{StatusField, OfflineDataCollection, PollingMinutes, SelfTest}

unfoldable pub encode_status_field : StatusField → Json
encode_status_field a = obj (
    field "value" (int a.value) (
      field "string" (str a.string) (
        omit_pointer bool "passed" a.passed
          (omit_pointer int "remaining_percent" a.remaining_percent end))))

unfoldable pub encode_offline_data_collection : OfflineDataCollection → Json
encode_offline_data_collection a = obj (
    omit_pointer encode_status_field "status" a.status
      (omit_int "completion_seconds" a.completion_seconds end))

unfoldable pub encode_polling_minutes : PollingMinutes → Json
encode_polling_minutes a = obj (
    omit_int "short" a.short
      (omit_int "extended" a.extended (omit_int "conveyance" a.conveyance end)))

unfoldable pub encode_self_test : SelfTest → Json
encode_self_test a = obj (
    omit_pointer encode_status_field "status" a.status
      (omit_pointer encode_polling_minutes "polling_minutes" a.polling_minutes end))
