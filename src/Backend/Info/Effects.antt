-- ===== src/Backend/Info/Effects.antt =====
-- What `getSMARTInfoInternal` leaves behind: the device types that are cached, and the commands that
-- were started.
use smartmontools_go.Base.{
  ℕ, ◌+◌, ◌≤◌, String, Option, none, some, ◌≡◌, refl, arith, ◌∙◌, ap, length,
}
use smartmontools_go.Types.{SmartInfo}
use smartmontools_go.Helpers.{classify}
use smartmontools_go.Backend.State.{
  Err, Env, State, Reply, Call, log, command, cache_if_absent, get_cached_device_type,
  set_cached_device_type,
}
use smartmontools_go.Backend.State.Cache.{
  Keeps, Keeps-refl, Keeps-trans, Keeps-of_eq, cache_if_absent-Keeps, set_cached_device_type-Keeps,
}
use smartmontools_go.Backend.Logging.{log_smartctl_messages, log_health_bits}
use smartmontools_go.Backend.Logging.Frame.{
  SameDevices, log_smartctl_messages-SameDevices, log_health_bits-SameDevices,
}
use smartmontools_go.Backend.Retry.{retry_with_device_type, retry_sat_fallback, sat_entry}
use smartmontools_go.Backend.Retry.Accepts.{retry_with_device_type-effect, types_after}
use smartmontools_go.Backend.Info.{Answer, get_smart_info_internal}
use smartmontools_go.Backend.Info.Ends.{
  Tried, not_tried, sat_failed, LogsOnly, more_logs, Bridged, no_bridge, bridge_read, bridge_failed,
  Ends, read, unparsed, sat_read, standby_bare, standby_read, failure_read, failure_unread,
}
use smartmontools_go.Backend.Info.Rule.{get_smart_info_internal-Ends}

-- `n` more commands at most were started on the way from `s` to `t`
abbrev AtMost : ℕ → State → State → Type 0
AtMost n s t = length t.calls ≤ n + length s.calls

-- what one retry with an uncached type does
pub record RetryEffect (s t : State) : Type 0 where
  pub keeps : Keeps s t
  pub one_call : AtMost 1 s t

module _ (env : Env) (device_path : String) where
  types_after-Keeps :
      (device_type : String) (o : Option SmartInfo) (s : State)
      → get_cached_device_type device_path s ≡ none
      → Keeps s (types_after device_path device_type o s)
  types_after-Keeps device_type none s absent = Keeps-refl s
  types_after-Keeps device_type (some i) s absent =
      set_cached_device_type-Keeps device_path device_type s absent

  retry-RetryEffect :
      (device_type : String) (o : Option SmartInfo) (s t : State)
      → get_cached_device_type device_path s ≡ none
      → retry_with_device_type env device_path device_type s ≡ (o, t)
      → RetryEffect s t
  retry-RetryEffect device_type o s t absent e =
      let r = retry_with_device_type env device_path device_type s in
      let h = retry_with_device_type-effect env device_path device_type s in
      let k : RetryEffect s r.1 = record {
        keeps = Keeps-trans (types_after-Keeps device_type r.0 s absent) (Keeps-of_eq h.0);
        one_call = omega (arith, ap (length {A = Call}) h.1);
      } in
      rw e at k

  SameDevices-RetryEffect : {s t : State} → SameDevices s t → RetryEffect s t
  SameDevices-RetryEffect h = record {
    keeps = Keeps-of_eq h.device_types;
    one_call = omega (arith, ap (length {A = Call}) h.calls);
  }

  LogsOnly-SameDevices : {s t : State} → LogsOnly s t → SameDevices s t
  LogsOnly-SameDevices (more_logs e) = record {
    device_types = ap (λ (u : State). u.device_type_cache) e;
    calls = ap (λ (u : State). u.calls) e;
    smartctl_path = ap (λ (u : State). u.smartctl_path) e;
  }

  bridge_retry-RetryEffect :
      (device_type : String) (r : State) {s t : State} (o : Option SmartInfo)
      → get_cached_device_type device_path s ≡ none
      → LogsOnly s r
      → retry_with_device_type env device_path device_type r ≡ (o, t)
      → RetryEffect s t
  bridge_retry-RetryEffect device_type r {s} {t} o absent logs e =
      let h = LogsOnly-SameDevices logs in
      let k = retry-RetryEffect device_type o r t (rw h.device_types absent) e in
      record {
        keeps = Keeps-trans (Keeps-of_eq h.device_types) k.keeps;
        one_call = omega (arith, k.one_call, ap (length {A = Call}) h.calls);
      }

  Bridged-RetryEffect :
      {s t : State} {i : SmartInfo} {a : Answer} → Bridged env device_path s i a t → RetryEffect s t
  Bridged-RetryEffect {s} (no_bridge n) = record { keeps = Keeps-refl s; one_call = omega arith }
  Bridged-RetryEffect (bridge_read device_type r unknown absent chosen logs e) =
      bridge_retry-RetryEffect device_type r (some _) absent logs e
  Bridged-RetryEffect (bridge_failed device_type r unknown absent chosen logs e) =
      let k = bridge_retry-RetryEffect device_type r none absent logs e in
      record {
        keeps = Keeps-trans k.keeps (Keeps-of_eq (unfold log in refl));
        one_call = unfold log in k.one_call;
      }

  sat-RetryEffect :
      (o : Option SmartInfo) {s t : State}
      → get_cached_device_type device_path s ≡ none
      → retry_sat_fallback env device_path s ≡ (o, t)
      → RetryEffect s t
  sat-RetryEffect o {s} absent e =
      bridge_retry-RetryEffect "sat" (log (sat_entry device_path) s) o absent
        (more_logs (unfold log in refl)) (unfold retry_sat_fallback in e)

  Tried-RetryEffect : {s t : State} {e : Err} → Tried env device_path s e t → RetryEffect s t
  Tried-RetryEffect {s} (not_tried n) = record { keeps = Keeps-refl s; one_call = omega arith }
  Tried-RetryEffect (sat_failed c b absent e) = sat-RetryEffect none absent e

  pub cache_if_absent-calls :
      (device_type : String) (s : State)
      → (cache_if_absent device_path device_type s).calls ≡ s.calls
  unfolding cache_if_absent set_cached_device_type
  cache_if_absent-calls device_type s = ground arith

  -- what the whole call does behind its first command
  pub record Effect (s t : State) : Type 0 where
    pub keeps : Keeps s t
    pub two_calls : AtMost 2 s t

  -- caching and logging between two retries
  pub between-RetryEffect :
      (i : SmartInfo) (s : State)
      → (Keeps s (log_smartctl_messages env i (cache_if_absent device_path i.device.type s)))
        × ((log_smartctl_messages env i (cache_if_absent device_path i.device.type s)).calls
            ≡ s.calls)
  between-RetryEffect i s =
      let h =
        log_smartctl_messages-SameDevices env i (cache_if_absent device_path i.device.type s) in
      (
        Keeps-trans (cache_if_absent-Keeps device_path i.device.type s)
            (Keeps-of_eq h.device_types),
        h.calls ∙ cache_if_absent-calls i.device.type s,
      )

  Ends-Effect :
      {s t : State} {reply : Reply} {a : Answer} → Ends env device_path s reply a t → Effect s t
  Ends-Effect {s} (read {i} e p) =
      let s1 = log_smartctl_messages env i s in
      let h = log_smartctl_messages-SameDevices env i s in
      let k = log_health_bits-SameDevices device_path (classify i) s1 in
      let s2 = log_health_bits device_path (classify i) s1 in
      record {
        keeps =
            Keeps-trans (Keeps-of_eq (k.device_types ∙ h.device_types))
              (cache_if_absent-Keeps device_path i.device.type s2);
        two_calls = omega (
          arith,
          ap (length {A = Call}) (cache_if_absent-calls i.device.type s2 ∙ k.calls ∙ h.calls),
        );
      }
  Ends-Effect {s} (unparsed e p) = record { keeps = Keeps-refl s; two_calls = omega arith }
  Ends-Effect (sat_read {j} e b absent r) =
      let k = sat-RetryEffect (some j) absent r in
      record { keeps = k.keeps; two_calls = omega (arith, k.one_call) }
  Ends-Effect (standby_bare e b d tried) =
      let k = Tried-RetryEffect tried in
      record { keeps = k.keeps; two_calls = omega (arith, k.one_call) }
  Ends-Effect (standby_read {t} {i} e b p tried) =
      let k = Tried-RetryEffect tried in
      record {
        keeps = Keeps-trans k.keeps (cache_if_absent-Keeps device_path i.device.type t);
        two_calls =
            omega
              (arith, k.one_call, ap (length {A = Call}) (cache_if_absent-calls i.device.type t));
      }
  Ends-Effect (failure_read {t} {i} e n p tried bridged) =
      let k = Tried-RetryEffect tried in
      let (kept, same) = between-RetryEffect i t in
      let b = Bridged-RetryEffect bridged in
      record {
        keeps = Keeps-trans k.keeps (Keeps-trans kept b.keeps);
        two_calls = omega (arith, k.one_call, b.one_call, ap (length {A = Call}) same);
      }
  Ends-Effect (failure_unread e n d tried) =
      let k = Tried-RetryEffect tried in
      record { keeps = k.keeps; two_calls = omega (arith, k.one_call) }

  -- A query never changes or removes a device type that is cached, of any path, and it starts at most
  -- three commands: its own, the SAT probe and the bridge retry.
  pub get_smart_info_internal-effect :
      (s : State)
      → let t = (get_smart_info_internal env device_path s).1 in
        ((path device_type : String)
          → get_cached_device_type path s ≡ some device_type
          → get_cached_device_type path t ≡ some device_type)
        × (length t.calls ≤ 3 + length s.calls)
  unfolding command
  get_smart_info_internal-effect s =
      let e = Ends-Effect (get_smart_info_internal-Ends env device_path s) in
      (e.keeps.at, omega (arith, e.two_calls))
