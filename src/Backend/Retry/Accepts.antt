-- ===== src/Backend/Retry/Accepts.antt =====
-- What a retry guarantees: its verdict, what it caches, and how many commands it starts.
use smartmontools_go.Base.{
  ℤ, String, Option, none, some, ◌∷◌, Bool-cases, inl, inr, ◌≡◌, refl, ◌==◌, ◌∙◌, has_bits,
}
use smartmontools_go.Types.{SmartInfo}
use smartmontools_go.Helpers.{classify}
use smartmontools_go.Backend.State.{
  Env, State, Err, exit_error, Call, LogEntry, output, command, log, set_cached_device_type,
}
use smartmontools_go.Backend.Logging.Frame.{
  SameDevices, log_smartctl_messages-SameDevices, log_health_bits-SameDevices,
}
use smartmontools_go.Backend.Retry.{
  retry_accept, retry_parse, retry_exit, retry_dispatch, retry_with_device_type, retry_args,
  parse_output,
}

-- the device types after a retry with the verdict `o`: cached on success, untouched on failure
abbrev pub types_after : String → String → Option SmartInfo → State → State
types_after device_path device_type none s = s
types_after device_path device_type (some _) s = set_cached_device_type device_path device_type s

SameDevices-trans : {s t u : State} → SameDevices s t → SameDevices t u → SameDevices s u
SameDevices-trans h k = record {
  device_types = k.device_types ∙ h.device_types;
  calls = k.calls ∙ h.calls;
  smartctl_path = k.smartctl_path ∙ h.smartctl_path;
}

SameDevices-refl : (s : State) → SameDevices s s
SameDevices-refl s = record { device_types = refl; calls = refl; smartctl_path = refl }

SameDevices-log : (e : LogEntry) (s : State) → SameDevices s (log e s)
unfolding log
SameDevices-log e s = record { device_types = refl; calls = refl; smartctl_path = refl }

module _ (env : Env) (device_path device_type : String) where
  -- the result of a retry that began at `s`, as the later state sees it
  abbrev Settled : State → Option SmartInfo × State → Type 0
  Settled s (o, t) = SameDevices (types_after device_path device_type o s) t

  retry_accept-Settled :
      (i : SmartInfo) (s : State) → Settled s (retry_accept env device_path device_type i s)
  retry_accept-Settled i s = elim (Bool-cases (i.device.name == "")) [
    | inl empty ↦ unfold retry_accept in rw empty (SameDevices-refl s)
    | inr named ↦
        unfold retry_accept in
        rw named (
          SameDevices-trans (SameDevices-log _ (set_cached_device_type device_path device_type s)) (
            SameDevices-trans (log_health_bits-SameDevices device_path (classify i) _)
              (log_smartctl_messages-SameDevices env (classify i) _)))
  ]

  retry_parse-Settled :
      (o : Option SmartInfo) (s : State) → Settled s (retry_parse env device_path device_type o s)
  unfolding retry_parse
  retry_parse-Settled none s = SameDevices-refl s
  retry_parse-Settled (some i) s = retry_accept-Settled i s

  retry_exit-Settled :
      (code : ℤ) (out : String) (s : State)
      → Settled s (retry_exit env device_path device_type code out s)
  retry_exit-Settled code out s = elim (Bool-cases (has_bits code 0x05)) [
    | inl b ↦ unfold retry_exit in rw b (SameDevices-refl s)
    | inr b ↦ elim (Bool-cases (has_bits code 0x02)) [
      | inl c ↦
          unfold retry_exit in
          rw (b, c) (SameDevices-refl (set_cached_device_type device_path device_type s))
      | inr c ↦
          unfold retry_exit in
          rw (b, c) (retry_parse-Settled (parse_output env device_path device_type out) s)
    ]
  ]

  retry_dispatch-Settled :
      (e : Option Err) (out : String) (s : State)
      → Settled s (retry_dispatch env device_path device_type e out s)
  retry_dispatch-Settled none out s =
      unfold retry_dispatch in retry_parse-Settled (parse_output env device_path device_type out) s
  retry_dispatch-Settled (some (exit_error code)) out s =
      unfold retry_dispatch in retry_exit-Settled code out s
  retry_dispatch-Settled (some _) out s = unfold retry_dispatch in SameDevices-refl s

  abbrev pub retry_call : State → Call
  retry_call s = record {
    method = output;
    name = s.smartctl_path;
    args = retry_args device_path device_type;
  }

  types_after-command :
      (o : Option SmartInfo) (s : State)
      → let s' = (command env output (retry_args device_path device_type) s).1 in
        ((types_after device_path device_type o s').device_type_cache
          ≡ (types_after device_path device_type o s).device_type_cache)
        × ((types_after device_path device_type o s').calls ≡ retry_call s ∷ s.calls)
  unfolding command set_cached_device_type
  types_after-command none s = (refl, refl)
  types_after-command (some i) s = (refl, refl)

  -- A retry starts one command, caches its type exactly if it has a usable result, and else leaves
  -- every cached type alone.
  pub retry_with_device_type-effect :
      (s : State)
      → let (result, t) = retry_with_device_type env device_path device_type s in
        (t.device_type_cache ≡ (types_after device_path device_type result s).device_type_cache)
        × (t.calls ≡ retry_call s ∷ s.calls)
  retry_with_device_type-effect s =
      let (reply, s') = command env output (retry_args device_path device_type) s in
      let h = retry_dispatch-Settled reply.err reply.out s' in
      let k =
        types_after-command (retry_dispatch env device_path device_type reply.err reply.out s').0
          s in
      unfold retry_with_device_type in (h.device_types ∙ k.0, h.calls ∙ k.1)
