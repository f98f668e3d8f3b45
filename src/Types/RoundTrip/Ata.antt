-- ===== src/Types/RoundTrip/Ata.antt =====
-- Reading back what is printed for the ATA part of a document.
use smartmontools_go.Base.{some, ◌≡◌, refl, ◌∙◌}
use smartmontools_go.Text.{to_lower}
use smartmontools_go.Json.{bool, int, str}
use smartmontools_go.Json.Decode.{IsInt64, decode_struct, find_field}
use smartmontools_go.Json.Encode.{AllOf, EachIn}
use smartmontools_go.Json.ReadBack.{
  read_int, read_string, read_bool, fields_end, field_step, string_step, bool_step, pointer_step,
  slice_step, int_slice_step,
}
use smartmontools_go.Types.{Capabilities, Flags, Raw, SmartAttribute, AtaSmartData}
use smartmontools_go.Types.Decode.Status.{
  decode_offline_data_collection, zero_offline_data_collection, decode_self_test, zero_self_test,
}
use smartmontools_go.Types.Encode.Status.{encode_offline_data_collection, encode_self_test}
use smartmontools_go.Types.RoundTrip.Status.{
  OfflineDataCollectionFits, decode_offline_data_collection-encode_offline_data_collection,
  SelfTestFits, decode_self_test-encode_self_test,
}
use smartmontools_go.Types.Decode.Ata.{
  decode_capabilities, zero_capabilities, capabilities_table, decode_flags, zero_flags, flags_table,
  decode_raw, zero_raw, raw_table, decode_smart_attribute, zero_smart_attribute,
  smart_attribute_table, decode_ata_smart_data, zero_ata_smart_data, ata_smart_data_table,
}
use smartmontools_go.Types.Encode.Ata.{
  encode_capabilities, encode_flags, encode_raw, encode_smart_attribute, encode_ata_smart_data,
}

-- every number in range, and every empty slice nil
abbrev pub CapabilitiesFits : Capabilities → Type 0
CapabilitiesFits a = EachIn IsInt64 a.values

pub decode_capabilities-encode_capabilities :
    (a : Capabilities)
    → CapabilitiesFits a
    → decode_capabilities (encode_capabilities a) zero_capabilities ≡ some a
unfolding decode_capabilities encode_capabilities decode_struct find_field to_lower
decode_capabilities-encode_capabilities a h =
    int_slice_step capabilities_table _ _ "values" a.values _ zero_capabilities refl h refl
    ∙ bool_step capabilities_table _ _ "exec_offline_immediate_supported" a.exec_offline_immediate _
        _ refl refl
    ∙ bool_step capabilities_table _ _ "self_tests_supported" a.self_tests_supported _ _ refl refl
    ∙ bool_step capabilities_table _ _ "conveyance_self_test_supported"
        a.conveyance_self_test_supported _ _ refl refl
    ∙ fields_end capabilities_table _

-- every number in range
abbrev pub FlagsFits : Flags → Type 0
FlagsFits a = IsInt64 a.value

pub decode_flags-encode_flags :
    (a : Flags) → FlagsFits a → decode_flags (encode_flags a) zero_flags ≡ some a
unfolding decode_flags encode_flags decode_struct find_field to_lower
decode_flags-encode_flags a h =
    field_step flags_table _ _ _ "value" (int a.value) a.value _ zero_flags refl (read_int _ _ h)
    ∙ field_step flags_table _ _ _ "string" (str a.string) a.string _ _ refl (read_string _ _)
    ∙ field_step flags_table _ _ _ "prefailure" (bool a.pre_failure) a.pre_failure _ _ refl
        (read_bool _ _)
    ∙ field_step flags_table _ _ _ "updated_online" (bool a.updated_online) a.updated_online _ _
        refl (read_bool _ _)
    ∙ field_step flags_table _ _ _ "performance" (bool a.performance) a.performance _ _ refl
        (read_bool _ _)
    ∙ field_step flags_table _ _ _ "error_rate" (bool a.error_rate) a.error_rate _ _ refl
        (read_bool _ _)
    ∙ field_step flags_table _ _ _ "event_count" (bool a.event_count) a.event_count _ _ refl
        (read_bool _ _)
    ∙ field_step flags_table _ _ _ "auto_keep" (bool a.auto_keep) a.auto_keep _ _ refl
        (read_bool _ _)
    ∙ fields_end flags_table _

-- every number in range
abbrev pub RawFits : Raw → Type 0
RawFits a = IsInt64 a.value

pub decode_raw-encode_raw : (a : Raw) → RawFits a → decode_raw (encode_raw a) zero_raw ≡ some a
unfolding decode_raw encode_raw decode_struct find_field to_lower
decode_raw-encode_raw a h =
    field_step raw_table _ _ _ "value" (int a.value) a.value _ zero_raw refl (read_int _ _ h)
    ∙ field_step raw_table _ _ _ "string" (str a.string) a.string _ _ refl (read_string _ _)
    ∙ fields_end raw_table _

-- every number in range
abbrev pub SmartAttributeFits : SmartAttribute → Type 0
SmartAttributeFits a =
    (IsInt64 a.id)
    × (IsInt64 a.value)
    × (IsInt64 a.worst)
    × (IsInt64 a.thresh)
    × (FlagsFits a.flags)
    × (RawFits a.raw)

pub decode_smart_attribute-encode_smart_attribute :
    (a : SmartAttribute)
    → SmartAttributeFits a
    → decode_smart_attribute (encode_smart_attribute a) zero_smart_attribute ≡ some a
unfolding decode_smart_attribute encode_smart_attribute decode_struct find_field to_lower
decode_smart_attribute-encode_smart_attribute a h =
    field_step smart_attribute_table _ _ _ "id" (int a.id) a.id _ zero_smart_attribute refl
      (read_int _ _ h.0)
    ∙ field_step smart_attribute_table _ _ _ "name" (str a.name) a.name _ _ refl (read_string _ _)
    ∙ field_step smart_attribute_table _ _ _ "value" (int a.value) a.value _ _ refl
        (read_int _ _ h.1)
    ∙ field_step smart_attribute_table _ _ _ "worst" (int a.worst) a.worst _ _ refl
        (read_int _ _ h.2)
    ∙ field_step smart_attribute_table _ _ _ "thresh" (int a.thresh) a.thresh _ _ refl
        (read_int _ _ h.3)
    ∙ string_step smart_attribute_table _ _ "when_failed" a.when_failed _ _ refl refl
    ∙ field_step smart_attribute_table _ _ _ "flags" (encode_flags a.flags) a.flags _ _ refl
        (decode_flags-encode_flags a.flags h.4)
    ∙ field_step smart_attribute_table _ _ _ "raw" (encode_raw a.raw) a.raw _ _ refl
        (decode_raw-encode_raw a.raw h.5)
    ∙ fields_end smart_attribute_table _

-- every number in range, and every empty slice nil
abbrev pub AtaSmartDataFits : AtaSmartData → Type 0
AtaSmartDataFits a =
    (AllOf OfflineDataCollectionFits a.offline_data_collection)
    × (AllOf SelfTestFits a.self_test)
    × (AllOf CapabilitiesFits a.capabilities)
    × (EachIn SmartAttributeFits a.table)

pub decode_ata_smart_data-encode_ata_smart_data :
    (a : AtaSmartData)
    → AtaSmartDataFits a
    → decode_ata_smart_data (encode_ata_smart_data a) zero_ata_smart_data ≡ some a
unfolding decode_ata_smart_data encode_ata_smart_data decode_struct find_field to_lower
    encode_capabilities encode_offline_data_collection encode_self_test
decode_ata_smart_data-encode_ata_smart_data a h =
    pointer_step ata_smart_data_table _ _ zero_offline_data_collection
      decode_offline_data_collection OfflineDataCollectionFits encode_offline_data_collection
      "offline_data_collection" a.offline_data_collection _ zero_ata_smart_data refl (λ b. refl)
      (λ b fits. decode_offline_data_collection-encode_offline_data_collection b fits) h.0 refl refl
    ∙ pointer_step ata_smart_data_table _ _ zero_self_test decode_self_test SelfTestFits
        encode_self_test "self_test" a.self_test _ _ refl (λ b. refl)
        (λ b fits. decode_self_test-encode_self_test b fits) h.1 refl refl
    ∙ pointer_step ata_smart_data_table _ _ zero_capabilities decode_capabilities CapabilitiesFits
        encode_capabilities "capabilities" a.capabilities _ _ refl (λ b. refl)
        (λ b fits. decode_capabilities-encode_capabilities b fits) h.2 refl refl
    ∙ slice_step ata_smart_data_table _ _ zero_smart_attribute decode_smart_attribute
        SmartAttributeFits encode_smart_attribute "table" a.table _ _ refl
        (λ b fits. decode_smart_attribute-encode_smart_attribute b fits) h.3 refl
    ∙ fields_end ata_smart_data_table _
