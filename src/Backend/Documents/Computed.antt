-- ===== src/Backend/Documents/Computed.antt =====
-- Whether a query over documents can log the health bits of a drive.
use smartmontools_go.Base.{ℕ, String, Option, none, some, List, ◌≡◌}
use smartmontools_go.Types.{SmartInfo, zero_info}
use smartmontools_go.Json.{Json}
use smartmontools_go.Json.Decode.{and_then}
use smartmontools_go.Json.Preserve.{and_then-some}
use smartmontools_go.Types.Decode.{decode_info}
use smartmontools_go.Types.Computed.{decode_info-Uncomputed}
use smartmontools_go.Backend.State.{State, Call, Reply, get_cached_device_type}
use smartmontools_go.Backend.Info.{get_smart_info_internal}
use smartmontools_go.Backend.Info.Standby.{info_call}
use smartmontools_go.Backend.Info.HealthWarnings.{
  ZeroStatus, get_smart_info_internal-no_health_warning,
}
use smartmontools_go.Backend.Documents.{json_env}

-- The health bits of a query over real documents: if a type is cached for the path, and a command that
-- exits with 0 prints a document with exit status 0 or none, as smartctl does, then the query records no
-- health bits, whatever the command answers: also where its exit status has health bits.
pub documents-no_health_warning :
    (respond : List Call → Call → Reply) (parse : String → Option Json) (now : ℕ → ℕ)
    (path : String) (s : State) (device_type : String)
    → get_cached_device_type path s ≡ some device_type
    → ((i : SmartInfo)
        → (respond s.calls (info_call path s)).err ≡ none
        → and_then (parse (respond s.calls (info_call path s)).out) (λ j. decode_info j zero_info)
          ≡ some i
        → ZeroStatus i.smartctl)
    → (get_smart_info_internal (json_env respond parse now) path s).1.health_bits_cache
      ≡ s.health_bits_cache
unfolding json_env
documents-no_health_warning respond parse now path s device_type cached quiet =
    get_smart_info_internal-no_health_warning (json_env respond parse now) path s device_type cached
      (λ i done read. (
        quiet i done read,
        (let (j, _, decoded) =
              and_then-some (parse (respond s.calls (info_call path s)).out)
                (λ j. decode_info j zero_info) i read in
            (decode_info-Uncomputed j i decoded).1),
      ))
