-- ===== src/Backend/Retry.antt =====
-- `retryWithDeviceType` and `retrySATFallback`. `none` is the result (nil, false).
pub mod Accepts
use smartmontools_go.Base.{
  ℕ, ℤ, String, Bool, true, false, Option, none, some, List, [], ◌∷◌, if◌then◌else◌, has_bits, ◌==◌,
}
use smartmontools_go.Types.{SmartInfo, SmartSupport, Device, zero_info}
use smartmontools_go.Helpers.{classify}
use smartmontools_go.Backend.State.{
  Env, State, Err, exit_error, other_error, json_error, plain, wrapped, output, Reply, LogEntry,
  info, text, log, command, set_cached_device_type,
}
use smartmontools_go.Backend.Logging.{log_smartctl_messages, log_health_bits}

-- the arguments of every retry
abbrev pub retry_args : String → String → List String
retry_args device_path device_type =
    "-a" ∷ "-j" ∷ "--nocheck=standby" ∷ "-d" ∷ device_type ∷ device_path ∷ []

-- the reply where no standby output can be parsed
abbrev pub standby_info : String → String → SmartInfo
standby_info device_path device_type = record zero_info {
  device = record { name = device_path; type = device_type };
  in_standby = true;
  smart_support = some (record { available = true; enabled = true });
}

abbrev pub mark_standby : SmartInfo → SmartInfo
mark_standby i = record i { in_standby = true }

module _ (env : Env) (device_path device_type : String) where
  unfoldable pub standby_result : Option SmartInfo → SmartInfo
  standby_result none = standby_info device_path device_type
  standby_result (some i) = classify (mark_standby i)

  -- the output is parsed only if there is some
  unfoldable pub parse_output : String → Option SmartInfo
  parse_output out = if out == "" then none else env.unmarshal_info out

  retry_accept : SmartInfo → State → Option SmartInfo × State
  retry_accept i s =
      if i.device.name == ""
      then (none, s)
      else let j = classify i in
        let s1 = set_cached_device_type device_path device_type s in
        let s2 =
          log
            (record {
              level = info;
              message = "Device type retry succeeded";
              attrs = ("devicePath", text device_path) ∷ ("deviceType", text device_type) ∷ [];
            })
            s1 in
        (some j, log_smartctl_messages env j (log_health_bits device_path j s2))

  -- the part after the error tests
  retry_parse : Option SmartInfo → State → Option SmartInfo × State
  unfolding retry_accept
  retry_parse none s = (none, s)
  retry_parse (some i) s = retry_accept i s

  retry_exit : ℤ → String → State → Option SmartInfo × State
  unfolding standby_result retry_parse parse_output
  retry_exit code out s =
      if has_bits code 0x05
      then (none, s)
      else if has_bits code 0x02
      then (
        some (standby_result (parse_output out)),
        set_cached_device_type device_path device_type s,
      )
      else retry_parse (parse_output out) s

  retry_dispatch : Option Err → String → State → Option SmartInfo × State
  unfolding retry_exit
  retry_dispatch none out s = retry_parse (parse_output out) s
  retry_dispatch (some (exit_error code)) out s = retry_exit code out s
  retry_dispatch (some _) out s = (none, s)

  unfoldable pub retry_with_device_type : State → Option SmartInfo × State
  unfolding retry_dispatch
  retry_with_device_type s =
      let (reply, s') = command env output (retry_args device_path device_type) s in
      retry_dispatch reply.err reply.out s'

abbrev pub sat_entry : String → LogEntry
sat_entry device_path = record {
  level = info;
  message = "execution failure with default protocol, retrying with -d sat";
  attrs = ("devicePath", text device_path) ∷ [];
}

unfoldable pub retry_sat_fallback : Env → String → State → Option SmartInfo × State
retry_sat_fallback env device_path s =
    retry_with_device_type env device_path "sat" (log (sat_entry device_path) s)
