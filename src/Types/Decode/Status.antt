-- ===== src/Types/Decode/Status.antt =====
-- The self-test part of a document, by the struct tags of internal/types/types.go, and `UnmarshalJSON` of
-- `StatusField`.
use smartmontools_go.Base.{pos, String, false, none, some, List, [], ◌∷◌}
use smartmontools_go.Json.{str}
use smartmontools_go.Json.Decode.{
  Decoder, decode_int, decode_string, decode_bool, decode_pointer, within, decode_struct,
}
use smartmontools_go.Types.{StatusField, OfflineDataCollection, PollingMinutes, SelfTest}

abbrev pub zero_status_field : StatusField
zero_status_field = record { value = pos 0; string = ""; passed = none; remaining_percent = none }

abbrev pub status_field_table : List (String × Decoder StatusField)
status_field_table =
    ("value", within (λ a. a.value) (λ b a. record a { value = b }) decode_int)
    ∷ ("string", within (λ a. a.string) (λ b a. record a { string = b }) decode_string)
    ∷ (
      "passed",
      within (λ a. a.passed) (λ b a. record a { passed = b }) (decode_pointer false decode_bool),
    )
    ∷ (
      "remaining_percent",
      within (λ a. a.remaining_percent) (λ b a. record a { remaining_percent = b })
          (decode_pointer (pos 0) decode_int),
    )
    ∷ []

-- `UnmarshalJSON`: a text sets only the string; a document of any other kind is read as a struct of its
-- own, and all of its fields are taken over.
unfoldable pub unmarshal_status_field : Decoder StatusField
unmarshal_status_field (str s) f = some (record f { string = s })
unmarshal_status_field j f = decode_struct status_field_table j zero_status_field

abbrev pub zero_offline_data_collection : OfflineDataCollection
zero_offline_data_collection = record { status = none; completion_seconds = pos 0 }

abbrev pub offline_data_collection_table : List (String × Decoder OfflineDataCollection)
offline_data_collection_table =
    (
      "status",
      within (λ a. a.status) (λ b a. record a { status = b })
          (decode_pointer zero_status_field unmarshal_status_field),
    )
    ∷ (
      "completion_seconds",
      within (λ a. a.completion_seconds) (λ b a. record a { completion_seconds = b }) decode_int,
    )
    ∷ []

unfoldable pub decode_offline_data_collection : Decoder OfflineDataCollection
decode_offline_data_collection j a = decode_struct offline_data_collection_table j a

abbrev pub zero_polling_minutes : PollingMinutes
zero_polling_minutes = record { short = pos 0; extended = pos 0; conveyance = pos 0 }

abbrev pub polling_minutes_table : List (String × Decoder PollingMinutes)
polling_minutes_table =
    ("short", within (λ a. a.short) (λ b a. record a { short = b }) decode_int)
    ∷ ("extended", within (λ a. a.extended) (λ b a. record a { extended = b }) decode_int)
    ∷ ("conveyance", within (λ a. a.conveyance) (λ b a. record a { conveyance = b }) decode_int)
    ∷ []

unfoldable pub decode_polling_minutes : Decoder PollingMinutes
decode_polling_minutes j a = decode_struct polling_minutes_table j a

abbrev pub zero_self_test : SelfTest
zero_self_test = record { status = none; polling_minutes = none }

abbrev pub self_test_table : List (String × Decoder SelfTest)
self_test_table =
    (
      "status",
      within (λ a. a.status) (λ b a. record a { status = b })
          (decode_pointer zero_status_field unmarshal_status_field),
    )
    ∷ (
      "polling_minutes",
      within (λ a. a.polling_minutes) (λ b a. record a { polling_minutes = b })
          (decode_pointer zero_polling_minutes decode_polling_minutes),
    )
    ∷ []

unfoldable pub decode_self_test : Decoder SelfTest
decode_self_test j a = decode_struct self_test_table j a
