-- ===== src/Backend/Info/Standby.antt =====
-- Queries of a device whose type is cached: no retry is made, so the answer is that of one command.
use smartmontools_go.Base.{
  ℤ, String, true, false, none, some, [], ◌∷◌, ◌≡◌, refl, ◌∙◌, ap, has_bits,
}
use smartmontools_go.Types.{SmartInfo, zero_info}
use smartmontools_go.Helpers.{classify}
use smartmontools_go.Backend.State.{
  Env, State, Err, exit_error, Reply, Call, command, output, build_args, get_cached_device_type,
}
use smartmontools_go.Backend.Retry.{mark_standby}
use mathlib.Core.Path.{subst}
use smartmontools_go.Backend.Info.{Answer, answer_named, get_smart_info_internal}
use smartmontools_go.Backend.Info.Effects.{cache_if_absent-calls}
use smartmontools_go.Backend.Info.Ends.{
  NotStandby, Tried, not_tried, sat_failed, Bridged, no_bridge, bridge_read, bridge_failed, Ends,
  read, unparsed, sat_read, standby_bare, standby_read, failure_read, failure_unread,
}
use smartmontools_go.Backend.Info.Rule.{get_smart_info_internal-Ends}

-- the command that a query of `path` starts in state `s`
abbrev pub info_call : String → State → Call
info_call path s = record {
  method = output;
  name = s.smartctl_path;
  args = build_args path ("-a" ∷ "-j" ∷ []) s;
}

-- an answer with an info that is marked as standby, and no error
abbrev pub SaysStandby : Answer → Type 0
SaysStandby a = (i : SmartInfo) × (a.smart_info ≡ some i) × (i.in_standby ≡ true) × (a.err ≡ none)

not_standby :
    {e : Err} {code : ℤ} (reply : Reply)
    → NotStandby e
    → reply.err ≡ some (exit_error code)
    → reply.err ≡ some e
    → has_bits code 0x02 ≡ true
    → ⊥
not_standby {e} {code} reply n h r b =
    let same : e ≡ exit_error code = cc in
    let b' : has_bits code 0x02 ≡ false = subst NotStandby same n in cc

module _ (env : Env) (path : String) where
  pub cached-Tried :
      {s t : State} {e : Err} {device_type : String}
      → get_cached_device_type path s ≡ some device_type
      → Tried env path s e t
      → t ≡ s
  cached-Tried h (not_tried n) = refl
  cached-Tried h (sat_failed c b absent e) = cc

  pub cached-Bridged :
      {s t : State} {i : SmartInfo} {a : Answer} {device_type : String}
      → get_cached_device_type path s ≡ some device_type
      → Bridged env path s i a t
      → (a ≡ answer_named (classify i)) × (t ≡ s)
  cached-Bridged h (no_bridge n) = (refl, refl)
  cached-Bridged h (bridge_read d r unknown absent chosen logs e) = cc
  cached-Bridged h (bridge_failed d r unknown absent chosen logs e) = cc

  classify-in_standby : (i : SmartInfo) → (classify (mark_standby i)).in_standby ≡ true
  unfolding classify
  classify-in_standby i = refl

  module _ {s : State} {reply : Reply} {device_type : String}
      (cached : get_cached_device_type path s ≡ some device_type) where
    Ends-standby :
        {t : State} {a : Answer} {code : ℤ}
        → reply.err ≡ some (exit_error code)
        → has_bits code 0x02 ≡ true
        → Ends env path s reply a t
        → SaysStandby a × (t.calls ≡ s.calls)
    Ends-standby e b (read r p) = cc
    Ends-standby e b (unparsed r p) = cc
    Ends-standby e b (sat_read r c absent q) = cc
    Ends-standby e b (standby_bare r c d tried) =
        let same = cached-Tried cached tried in
        (
          (record zero_info { in_standby = true }, refl, refl, refl),
          ap (λ (u : State). u.calls) same,
        )
    Ends-standby e b (standby_read {i} r c p tried) =
        let same = cached-Tried cached tried in
        (
          (classify (mark_standby i), refl, classify-in_standby i, refl),
          cache_if_absent-calls env path i.device.type _ ∙ ap (λ (u : State). u.calls) same,
        )
    Ends-standby e b (failure_read r n p tried bridged) = absurd (not_standby reply n e r b)
    Ends-standby e b (failure_unread r n d tried) = absurd (not_standby reply n e r b)

  -- If a type is cached for the path and the command exits with bit 1, then the query reports a device
  -- in standby with no error, and has started one command only.
  pub get_smart_info_internal-standby :
      (s : State) (device_type : String) (code : ℤ)
      → get_cached_device_type path s ≡ some device_type
      → (env.respond s.calls (info_call path s)).err ≡ some (exit_error code)
      → has_bits code 0x02 ≡ true
      → let (a, t) = get_smart_info_internal env path s in
        SaysStandby a × (t.calls ≡ info_call path s ∷ s.calls)
  unfolding command
  get_smart_info_internal-standby s device_type code cached e b =
      Ends-standby cached e b (get_smart_info_internal-Ends env path s)
