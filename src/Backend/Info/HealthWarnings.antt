-- ===== src/Backend/Info/HealthWarnings.antt =====
-- Whether a query can log the health bits of a drive.
use smartmontools_go.Base.{pos, String, Option, none, some, ◌≡◌, refl, arith, eqbℤ, ◌∙◌, ap}
use smartmontools_go.Types.{SmartInfo, SmartctlInfo, ExitCodeInfo}
use smartmontools_go.Helpers.{classify, exit_codes}
use smartmontools_go.Backend.State.{
  Env, State, Reply, command, cache_if_absent, get_cached_device_type, set_cached_device_type,
}
use smartmontools_go.Backend.Logging.{log_smartctl_messages, log_codes, log_health_bits}
use smartmontools_go.Backend.Logging.Frame.{log_smartctl_messages-health}
use smartmontools_go.Backend.Info.{Answer, get_smart_info_internal}
use smartmontools_go.Backend.Info.Ends.{
  Ends, read, unparsed, sat_read, standby_bare, standby_read, failure_read, failure_unread,
}
use smartmontools_go.Backend.Info.Rule.{get_smart_info_internal-Ends}
use smartmontools_go.Backend.Info.Effects.{between-RetryEffect}
use smartmontools_go.Backend.Info.Standby.{cached-Tried, cached-Bridged, info_call}

-- a document without an exit status, or with exit status 0
abbrev pub ZeroStatus : Option SmartctlInfo → Type 0
ZeroStatus none = Unit
ZeroStatus (some ctl) = ctl.exit_status ≡ pos 0

zero-exit_codes : (ctl : Option SmartctlInfo) → ZeroStatus ctl → exit_codes ctl none ≡ none
unfolding exit_codes eqbℤ
zero-exit_codes none h = refl
zero-exit_codes (some ctl) h = ground arith

log_codes-none :
    (path : String) (codes : Option ExitCodeInfo) (s : State)
    → codes ≡ none
    → log_codes path codes s ≡ s
unfolding log_codes
log_codes-none path none s h = refl
log_codes-none path (some codes) s h = cc

classify-quiet :
    (path : String) (i : SmartInfo) (s : State)
    → i.exit_code_info ≡ none
    → ZeroStatus i.smartctl
    → log_health_bits path (classify i) s ≡ s
unfolding log_health_bits classify
classify-quiet path i s n z =
    log_codes-none path (exit_codes i.smartctl i.exit_code_info) s
      (rw n (zero-exit_codes i.smartctl z))

cache_if_absent-health :
    (path device_type : String) (s : State)
    → (cache_if_absent path device_type s).health_bits_cache ≡ s.health_bits_cache
unfolding cache_if_absent set_cached_device_type
cache_if_absent-health path device_type s = ground arith

module _ (env : Env) (path : String) where
  module _ {s : State} {reply : Reply} {device_type : String}
      (cached : get_cached_device_type path s ≡ some device_type)
      (quiet : (i : SmartInfo)
        → reply.err ≡ none
        → env.unmarshal_info reply.out ≡ some i
        → ZeroStatus i.smartctl × (i.exit_code_info ≡ none)) where
    Ends-health :
        {t : State} {a : Answer}
        → Ends env path s reply a t
        → t.health_bits_cache ≡ s.health_bits_cache
    Ends-health (read {i} r p) =
        let s1 = log_smartctl_messages env i s in
        let q = quiet i r p in
        cache_if_absent-health path i.device.type (log_health_bits path (classify i) s1)
        ∙ ap (λ (u : State). u.health_bits_cache) (classify-quiet path i s1 q.1 q.0)
        ∙ log_smartctl_messages-health env i s
    Ends-health (unparsed r p) = refl
    Ends-health (sat_read r c absent q) = cc
    Ends-health (standby_bare r c d tried) =
        ap (λ (u : State). u.health_bits_cache) (cached-Tried env path cached tried)
    Ends-health (standby_read {t} {i} r c p tried) =
        cache_if_absent-health path i.device.type t
        ∙ ap (λ (u : State). u.health_bits_cache) (cached-Tried env path cached tried)
    Ends-health (failure_read {t} {i} r n p tried bridged) =
        let same = cached-Tried env path cached tried in
        let s1 = log_smartctl_messages env i (cache_if_absent path i.device.type t) in
        let kept = (between-RetryEffect env path i t).0.at path device_type (rw same cached) in
        ap (λ (u : State). u.health_bits_cache) (cached-Bridged env path kept bridged).1
        ∙ log_smartctl_messages-health env i (cache_if_absent path i.device.type t)
        ∙ cache_if_absent-health path i.device.type t
        ∙ ap (λ (u : State). u.health_bits_cache) same
    Ends-health (failure_unread r n d tried) =
        ap (λ (u : State). u.health_bits_cache) (cached-Tried env path cached tried)

  -- If a type is cached for the path, and a command that exits with 0 prints a document with exit status
  -- 0 or none, as smartctl does, then a query records no health bits, whatever the command answers: also
  -- where its exit status has health bits.
  pub get_smart_info_internal-no_health_warning :
      (s : State) (device_type : String)
      → get_cached_device_type path s ≡ some device_type
      → ((i : SmartInfo)
          → (env.respond s.calls (info_call path s)).err ≡ none
          → env.unmarshal_info (env.respond s.calls (info_call path s)).out ≡ some i
          → ZeroStatus i.smartctl × (i.exit_code_info ≡ none))
      → (get_smart_info_internal env path s).1.health_bits_cache ≡ s.health_bits_cache
  unfolding command
  get_smart_info_internal-no_health_warning s device_type cached quiet =
      Ends-health cached quiet (get_smart_info_internal-Ends env path s)
