-- ===== src/Types/Encode/Ata.antt =====
-- What is printed for the ATA part of a document.
use smartmontools_go.Json.{Json, bool, int, str, obj, end, field}
use smartmontools_go.Json.Encode.{omit_string, omit_bool, omit_pointer, omit_slice}
use smartmontools_go.Types.{Capabilities, Flags, Raw, SmartAttribute, AtaSmartData}
use smartmontools_go.Types.Encode.Status.{encode_offline_data_collection, encode_self_test}

unfoldable pub encode_capabilities : Capabilities → Json
encode_capabilities a = obj (
    omit_slice int "values" a.values (
      omit_bool "exec_offline_immediate_supported" a.exec_offline_immediate (
        omit_bool "self_tests_supported" a.self_tests_supported
          (omit_bool "conveyance_self_test_supported" a.conveyance_self_test_supported end))))

unfoldable pub encode_flags : Flags → Json
encode_flags a = obj (
    field "value" (int a.value) (
      field "string" (str a.string) (
        field "prefailure" (bool a.pre_failure) (
          field "updated_online" (bool a.updated_online) (
            field "performance" (bool a.performance) (
              field "error_rate" (bool a.error_rate) (
                field "event_count" (bool a.event_count)
                  (field "auto_keep" (bool a.auto_keep) end))))))))

unfoldable pub encode_raw : Raw → Json
encode_raw a = obj (field "value" (int a.value) (field "string" (str a.string) end))

unfoldable pub encode_smart_attribute : SmartAttribute → Json
encode_smart_attribute a = obj (
    field "id" (int a.id) (
      field "name" (str a.name) (
        field "value" (int a.value) (
          field "worst" (int a.worst) (
            field "thresh" (int a.thresh) (
              omit_string "when_failed" a.when_failed
                (field "flags" (encode_flags a.flags) (field "raw" (encode_raw a.raw) end))))))))

unfoldable pub encode_ata_smart_data : AtaSmartData → Json
encode_ata_smart_data a = obj (
    omit_pointer encode_offline_data_collection "offline_data_collection" a.offline_data_collection
      (omit_pointer encode_self_test "self_test" a.self_test (
        omit_pointer encode_capabilities "capabilities" a.capabilities
          (omit_slice encode_smart_attribute "table" a.table end))))
