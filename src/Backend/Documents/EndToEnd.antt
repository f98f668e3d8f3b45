-- ===== src/Backend/Documents/EndToEnd.antt =====
-- A document that smartctl prints, from the command to the result of the operation.
use smartmontools_go.Base.{ℕ, String, Option, none, some, List, ◌≡◌}
use smartmontools_go.Types.{SmartInfo}
use smartmontools_go.Json.{Json}
use smartmontools_go.Types.Encode.{encode_info}
use smartmontools_go.Types.RoundTrip.{SmartInfoFits, decode_info-encode_info}
use smartmontools_go.Helpers.{classify}
use smartmontools_go.Backend.State.{State, Call, Reply, command}
use smartmontools_go.Backend.Info.{found, get_smart_info}
use smartmontools_go.Backend.Info.Standby.{info_call}
use smartmontools_go.Backend.Info.Result.{get_smart_info_internal-read}
use smartmontools_go.Backend.Documents.{json_env}

module _ (respond : List Call → Call → Reply) (parse : String → Option Json) (now : ℕ → ℕ) where
  -- A query whose command succeeds and prints the document of an info returns this info, classified,
  -- where each number of it fits its Go type and each empty slice is nil: all fields survive but the two
  -- that are computed.
  pub get_smart_info-encode_info :
      (i : SmartInfo) (path : String) (s : State)
      → SmartInfoFits i
      → (respond s.calls (info_call path s)).err ≡ none
      → parse (respond s.calls (info_call path s)).out ≡ some (encode_info i)
      → (get_smart_info (json_env respond parse now) path s).0
        ≡ found (classify (record i { disk_type = ""; exit_code_info = none }))
  unfolding get_smart_info command json_env
  get_smart_info-encode_info i path s fits done document =
      get_smart_info_internal-read (json_env respond parse now) path
        (record i { disk_type = ""; exit_code_info = none }) s done
        (rw document (decode_info-encode_info i fits))
