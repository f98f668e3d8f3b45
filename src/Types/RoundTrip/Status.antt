-- ===== src/Types/RoundTrip/Status.antt =====
-- Reading back what is printed for the self-test part of a document.
use smartmontools_go.Base.{false, some, ◌≡◌, refl, ◌∙◌}
use smartmontools_go.Text.{to_lower}
use smartmontools_go.Json.{bool, int, str}
use smartmontools_go.Json.Decode.{IsInt64, decode_bool, decode_struct, find_field}
use smartmontools_go.Json.Encode.{AllOf}
use smartmontools_go.Json.ReadBack.{
  read_int, read_string, read_bool, fields_end, field_step, int_step, pointer_step,
  int_pointer_step, AllOf-unit,
}
use smartmontools_go.Types.{StatusField, OfflineDataCollection, PollingMinutes, SelfTest}
use smartmontools_go.Types.Decode.Status.{
  unmarshal_status_field, zero_status_field, status_field_table, decode_offline_data_collection,
  zero_offline_data_collection, offline_data_collection_table, decode_polling_minutes,
  zero_polling_minutes, polling_minutes_table, decode_self_test, zero_self_test, self_test_table,
}
use smartmontools_go.Types.Encode.Status.{
  encode_status_field, encode_offline_data_collection, encode_polling_minutes, encode_self_test,
}

-- every number in range
abbrev pub StatusFieldFits : StatusField → Type 0
StatusFieldFits a = (IsInt64 a.value) × (AllOf IsInt64 a.remaining_percent)

-- `UnmarshalJSON` of a printed status gives this status back, whatever was there before, where its numbers
-- fit in 64 bits.
pub unmarshal_status_field-encode_status_field :
    (a old : StatusField)
    → StatusFieldFits a
    → unmarshal_status_field (encode_status_field a) old ≡ some a
unfolding unmarshal_status_field encode_status_field decode_struct find_field to_lower
unmarshal_status_field-encode_status_field a old h =
    field_step status_field_table _ _ _ "value" (int a.value) a.value _ zero_status_field refl
      (read_int _ _ h.0)
    ∙ field_step status_field_table _ _ _ "string" (str a.string) a.string _ _ refl
        (read_string _ _)
    ∙ pointer_step status_field_table _ _ false decode_bool (λ _. Unit) bool "passed" a.passed _ _
        refl (λ b. refl) (λ b fits. read_bool b false) (AllOf-unit a.passed) refl refl
    ∙ int_pointer_step status_field_table _ _ "remaining_percent" a.remaining_percent _ _ refl h.1
        refl refl
    ∙ fields_end status_field_table _

-- every number in range
abbrev pub OfflineDataCollectionFits : OfflineDataCollection → Type 0
OfflineDataCollectionFits a = (AllOf StatusFieldFits a.status) × (IsInt64 a.completion_seconds)

pub decode_offline_data_collection-encode_offline_data_collection :
    (a : OfflineDataCollection)
    → OfflineDataCollectionFits a
    → decode_offline_data_collection (encode_offline_data_collection a) zero_offline_data_collection
      ≡ some a
unfolding decode_offline_data_collection encode_offline_data_collection decode_struct find_field
    to_lower encode_status_field
decode_offline_data_collection-encode_offline_data_collection a h =
    pointer_step offline_data_collection_table _ _ zero_status_field unmarshal_status_field
      StatusFieldFits encode_status_field "status" a.status _ zero_offline_data_collection refl
      (λ b. refl) (λ b fits. unmarshal_status_field-encode_status_field b zero_status_field fits)
      h.0 refl refl
    ∙ int_step offline_data_collection_table _ _ "completion_seconds" a.completion_seconds _ _ refl
        h.1 refl
    ∙ fields_end offline_data_collection_table _

-- every number in range
abbrev pub PollingMinutesFits : PollingMinutes → Type 0
PollingMinutesFits a = (IsInt64 a.short) × (IsInt64 a.extended) × (IsInt64 a.conveyance)

pub decode_polling_minutes-encode_polling_minutes :
    (a : PollingMinutes)
    → PollingMinutesFits a
    → decode_polling_minutes (encode_polling_minutes a) zero_polling_minutes ≡ some a
unfolding decode_polling_minutes encode_polling_minutes decode_struct find_field to_lower
decode_polling_minutes-encode_polling_minutes a h =
    int_step polling_minutes_table _ _ "short" a.short _ zero_polling_minutes refl h.0 refl
    ∙ int_step polling_minutes_table _ _ "extended" a.extended _ _ refl h.1 refl
    ∙ int_step polling_minutes_table _ _ "conveyance" a.conveyance _ _ refl h.2 refl
    ∙ fields_end polling_minutes_table _

-- every number in range
abbrev pub SelfTestFits : SelfTest → Type 0
SelfTestFits a = (AllOf StatusFieldFits a.status) × (AllOf PollingMinutesFits a.polling_minutes)

pub decode_self_test-encode_self_test :
    (a : SelfTest) → SelfTestFits a → decode_self_test (encode_self_test a) zero_self_test ≡ some a
unfolding decode_self_test encode_self_test decode_struct find_field to_lower encode_polling_minutes
    encode_status_field
decode_self_test-encode_self_test a h =
    pointer_step self_test_table _ _ zero_status_field unmarshal_status_field StatusFieldFits
      encode_status_field "status" a.status _ zero_self_test refl (λ b. refl)
      (λ b fits. unmarshal_status_field-encode_status_field b zero_status_field fits) h.0 refl refl
    ∙ pointer_step self_test_table _ _ zero_polling_minutes decode_polling_minutes
        PollingMinutesFits encode_polling_minutes "polling_minutes" a.polling_minutes _ _ refl
        (λ b. refl) (λ b fits. decode_polling_minutes-encode_polling_minutes b fits) h.1 refl refl
    ∙ fields_end self_test_table _
