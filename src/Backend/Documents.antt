-- ===== src/Backend/Documents.antt =====
-- The environment of a backend whose documents encoding/json decodes: what is left of it is how
-- processes answer, the JSON document of a text, and the clock.
pub mod Computed
pub mod EndToEnd
pub mod ScanList
use smartmontools_go.Base.{some, ℕ, String, Option, List, [], ◌∷◌, GoMap}
use smartmontools_go.Types.{elements, Device, SmartInfo, CapabilitiesOutput, zero_info}
use smartmontools_go.Json.{Json}
use smartmontools_go.Json.Decode.{
  Decoder, and_then, within, decode_slice, decode_struct, decode_object,
}
use smartmontools_go.Types.Decode.{
  decode_info, decode_capabilities_output, zero_capabilities_output,
}
use smartmontools_go.Types.Decode.Info.{zero_device, decode_device}
use smartmontools_go.Backend.State.{Env, Call, Reply}

-- The struct of `ScanDevices`, which has the one field `Devices`, as that field. The tags of its elements
-- are the folded names of the fields of `Device`.
abbrev pub scan_table : List (String × Decoder (List Device))
scan_table =
    ("devices", within (λ a. some a) (λ b a. elements b) (decode_slice zero_device decode_device))
    ∷ []

unfoldable pub decode_devices : Json → Option (List Device)
decode_devices j = decode_struct scan_table j []

unfoldable pub json_env : (List Call → Call → Reply) → (String → Option Json) → (ℕ → ℕ) → Env
json_env respond parse now = record {
  respond = respond;
  unmarshal_scan = λ out. and_then (parse out) decode_devices;
  unmarshal_info = λ out. and_then (parse out) (λ j. decode_info j zero_info);
  unmarshal_caps =
      λ out. and_then (parse out) (λ j. decode_capabilities_output j zero_capabilities_output);
  unmarshal_object = λ out. and_then (parse out) decode_object;
  now = now;
}
