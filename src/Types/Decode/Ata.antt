-- ===== src/Types/Decode/Ata.antt =====
-- The ATA part of a document, by the struct tags of internal/types/types.go.
use smartmontools_go.Base.{pos, String, false, none, List, [], ◌∷◌}
use smartmontools_go.Json.Decode.{
  Decoder, decode_int, decode_string, decode_bool, decode_pointer, decode_slice, within,
  decode_struct,
}
use smartmontools_go.Types.{Capabilities, Flags, Raw, SmartAttribute, AtaSmartData}
use smartmontools_go.Types.Decode.Status.{
  zero_offline_data_collection, decode_offline_data_collection, zero_self_test, decode_self_test,
}

abbrev pub zero_capabilities : Capabilities
zero_capabilities = record {
  values = none;
  exec_offline_immediate = false;
  self_tests_supported = false;
  conveyance_self_test_supported = false;
}

abbrev pub capabilities_table : List (String × Decoder Capabilities)
capabilities_table =
    (
      "values",
      within (λ a. a.values) (λ b a. record a { values = b }) (decode_slice (pos 0) decode_int),
    )
    ∷ (
      "exec_offline_immediate_supported",
      within (λ a. a.exec_offline_immediate) (λ b a. record a { exec_offline_immediate = b })
          decode_bool,
    )
    ∷ (
      "self_tests_supported",
      within (λ a. a.self_tests_supported) (λ b a. record a { self_tests_supported = b })
          decode_bool,
    )
    ∷ (
      "conveyance_self_test_supported",
      within (λ a. a.conveyance_self_test_supported)
          (λ b a. record a { conveyance_self_test_supported = b }) decode_bool,
    )
    ∷ []

unfoldable pub decode_capabilities : Decoder Capabilities
decode_capabilities j a = decode_struct capabilities_table j a

abbrev pub zero_flags : Flags
zero_flags = record {
  value = pos 0;
  string = "";
  pre_failure = false;
  updated_online = false;
  performance = false;
  error_rate = false;
  event_count = false;
  auto_keep = false;
}

abbrev pub flags_table : List (String × Decoder Flags)
flags_table =
    ("value", within (λ a. a.value) (λ b a. record a { value = b }) decode_int)
    ∷ ("string", within (λ a. a.string) (λ b a. record a { string = b }) decode_string)
    ∷ ("prefailure", within (λ a. a.pre_failure) (λ b a. record a { pre_failure = b }) decode_bool)
    ∷ (
      "updated_online",
      within (λ a. a.updated_online) (λ b a. record a { updated_online = b }) decode_bool,
    )
    ∷ ("performance", within (λ a. a.performance) (λ b a. record a { performance = b }) decode_bool)
    ∷ ("error_rate", within (λ a. a.error_rate) (λ b a. record a { error_rate = b }) decode_bool)
    ∷ ("event_count", within (λ a. a.event_count) (λ b a. record a { event_count = b }) decode_bool)
    ∷ ("auto_keep", within (λ a. a.auto_keep) (λ b a. record a { auto_keep = b }) decode_bool)
    ∷ []

unfoldable pub decode_flags : Decoder Flags
decode_flags j a = decode_struct flags_table j a

abbrev pub zero_raw : Raw
zero_raw = record { value = pos 0; string = "" }

abbrev pub raw_table : List (String × Decoder Raw)
raw_table =
    ("value", within (λ a. a.value) (λ b a. record a { value = b }) decode_int)
    ∷ ("string", within (λ a. a.string) (λ b a. record a { string = b }) decode_string)
    ∷ []

unfoldable pub decode_raw : Decoder Raw
decode_raw j a = decode_struct raw_table j a

abbrev pub zero_smart_attribute : SmartAttribute
zero_smart_attribute = record {
  id = pos 0;
  name = "";
  value = pos 0;
  worst = pos 0;
  thresh = pos 0;
  when_failed = "";
  flags = zero_flags;
  raw = zero_raw;
}

abbrev pub smart_attribute_table : List (String × Decoder SmartAttribute)
smart_attribute_table =
    ("id", within (λ a. a.id) (λ b a. record a { id = b }) decode_int)
    ∷ ("name", within (λ a. a.name) (λ b a. record a { name = b }) decode_string)
    ∷ ("value", within (λ a. a.value) (λ b a. record a { value = b }) decode_int)
    ∷ ("worst", within (λ a. a.worst) (λ b a. record a { worst = b }) decode_int)
    ∷ ("thresh", within (λ a. a.thresh) (λ b a. record a { thresh = b }) decode_int)
    ∷ (
      "when_failed",
      within (λ a. a.when_failed) (λ b a. record a { when_failed = b }) decode_string,
    )
    ∷ ("flags", within (λ a. a.flags) (λ b a. record a { flags = b }) decode_flags)
    ∷ ("raw", within (λ a. a.raw) (λ b a. record a { raw = b }) decode_raw)
    ∷ []

unfoldable pub decode_smart_attribute : Decoder SmartAttribute
decode_smart_attribute j a = decode_struct smart_attribute_table j a

abbrev pub zero_ata_smart_data : AtaSmartData
zero_ata_smart_data = record {
  offline_data_collection = none;
  self_test = none;
  capabilities = none;
  table = none;
}

abbrev pub ata_smart_data_table : List (String × Decoder AtaSmartData)
ata_smart_data_table =
    (
      "offline_data_collection",
      within (λ a. a.offline_data_collection) (λ b a. record a { offline_data_collection = b })
          (decode_pointer zero_offline_data_collection decode_offline_data_collection),
    )
    ∷ (
      "self_test",
      within (λ a. a.self_test) (λ b a. record a { self_test = b })
          (decode_pointer zero_self_test decode_self_test),
    )
    ∷ (
      "capabilities",
      within (λ a. a.capabilities) (λ b a. record a { capabilities = b })
          (decode_pointer zero_capabilities decode_capabilities),
    )
    ∷ (
      "table",
      within (λ a. a.table) (λ b a. record a { table = b })
          (decode_slice zero_smart_attribute decode_smart_attribute),
    )
    ∷ []

unfoldable pub decode_ata_smart_data : Decoder AtaSmartData
decode_ata_smart_data j a = decode_struct ata_smart_data_table j a
