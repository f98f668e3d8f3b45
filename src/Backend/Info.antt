-- ===== src/Backend/Info.antt =====
-- `getSMARTInfoInternal` and `GetSMARTInfo`. An `Answer` is the three results of the former, a nil
-- pointer or a nil error being `none`.
pub mod Ends
pub mod Rule
pub mod Effects
pub mod Standby
pub mod HealthWarnings
pub mod Result
use smartmontools_go.Base.{
  ℕ, ℤ, String, Bool, true, false, not, ◌&&◌, ◌||◌, Option, none, some, List, [], ◌∷◌, ◌++◌,
  if◌then◌else◌, is_some, has_bits, ◌==◌,
}
use smartmontools_go.Types.{SmartInfo, zero_info, SmartctlInfo, Message}
use smartmontools_go.Helpers.{classify}
use smartmontools_go.Drivedb.Bridge.{is_unknown_usb_bridge, extract_usb_bridge_id}
use smartmontools_go.Backend.State.{
  Env, State, Err, exit_error, plain, json_error, wrapped, output, info, error, text, log, command,
  get_cached_device_type, cache_if_absent, build_args, LogEntry,
}
use smartmontools_go.Backend.Logging.{log_smartctl_messages, log_health_bits}
use smartmontools_go.Backend.Retry.{retry_with_device_type, retry_sat_fallback, mark_standby}

pub record Answer : Type 0 where
  pub smart_info : Option SmartInfo
  pub sat_fallback : Bool
  pub err : Option Err

abbrev pub found : SmartInfo → Answer
found i = record { smart_info = some i; sat_fallback = false; err = none }

abbrev pub failed : Err → Answer
failed e = record { smart_info = none; sat_fallback = false; err = some e }

-- If the device name is empty, SMART is likely not supported.
unfoldable pub answer_named : SmartInfo → Answer
answer_named i =
    if i.device.name == ""
    then record {
      smart_info = some i;
      sat_fallback = false;
      err = some (plain "SMART Not Supported");
    }
    else found i

-- A type from the drive database for a known bridge, else sat.
unfoldable pub bridge_type : Option String → String
bridge_type none = "sat"
bridge_type (some known) = known

unfoldable pub bridge_lookup : String → State → Option String
bridge_lookup bridge_id s = if bridge_id == "" then none else get_cached_device_type bridge_id s

abbrev known_bridge_entry : String → String → LogEntry
known_bridge_entry bridge_id device_type = record {
  level = info;
  message = "Found USB bridge in drivedb";
  attrs = ("usbBridgeID", text bridge_id) ∷ ("deviceType", text device_type) ∷ [];
}

abbrev unknown_bridge_entry : String → LogEntry
unknown_bridge_entry device_path = record {
  level = info;
  message = "Unknown USB bridge detected, retrying with -d sat";
  attrs = ("devicePath", text device_path) ∷ [];
}

abbrev retry_failed_entry : String → String → LogEntry
retry_failed_entry device_path device_type = record {
  level = error;
  message = "Retry with device type failed";
  attrs = ("devicePath", text device_path) ∷ ("deviceType", text device_type) ∷ [];
}

log_known_bridge : String → Option String → State → State
log_known_bridge bridge_id none s = s
log_known_bridge bridge_id (some known) s = log (known_bridge_entry bridge_id known) s

log_choice : String → String → Option String → State → State
unfolding log_known_bridge log
log_choice device_path bridge_id known s =
    let s1 = log_known_bridge bridge_id known s in
    if bridge_type known == "sat" then log (unknown_bridge_entry device_path) s1 else s1

module _ (env : Env) (device_path : String) where
  parse_if_any : String → Option SmartInfo
  parse_if_any out = if out == "" then none else env.unmarshal_info out

  -- the result of the bridge retry, or the rest of the handler
  after_bridge_retry : SmartInfo → String → Option SmartInfo → State → Answer × State
  unfolding answer_named
  after_bridge_retry i device_type (some j) s = (found j, s)
  after_bridge_retry i device_type none s =
      (answer_named (classify i), log (retry_failed_entry device_path device_type) s)

  retry_bridge : SmartInfo → State → Answer × State
  unfolding after_bridge_retry log_choice bridge_type bridge_lookup
  retry_bridge i s =
      let bridge_id = extract_usb_bridge_id i in
      let known = bridge_lookup bridge_id s in
      let device_type = bridge_type known in
      let (retried, s') =
        retry_with_device_type env device_path device_type
          (log_choice device_path bridge_id known s) in
      after_bridge_retry i device_type retried s'

  -- the output of a failed command that is valid JSON
  parsed_failure : SmartInfo → State → Answer × State
  unfolding retry_bridge answer_named
  parsed_failure i s =
      let s1 = log_smartctl_messages env i (cache_if_absent device_path i.device.type s) in
      if is_unknown_usb_bridge i && not (is_some (get_cached_device_type device_path s1))
      then retry_bridge i s1
      else (answer_named (classify i), s1)

  parse_failure : Err → Option SmartInfo → State → Answer × State
  unfolding parsed_failure
  parse_failure e none s = (failed (wrapped "failed to get SMART info" e ""), s)
  parse_failure e (some i) s = parsed_failure i s

  -- bit 1: the device is in standby
  standby : Option SmartInfo → State → Answer × State
  standby none s = (found (record zero_info { in_standby = true }), s)
  standby (some i) s =
      (found (classify (mark_standby i)), cache_if_absent device_path i.device.type s)

  after_sat : ℤ → String → Option SmartInfo → State → Answer × State
  unfolding standby parse_failure parse_if_any
  after_sat code out (some j) s =
      (record { smart_info = some j; sat_fallback = true; err = none }, s)
  after_sat code out none s =
      if has_bits code 0x02
      then standby (parse_if_any out) s
      else parse_failure (exit_error code) (parse_if_any out) s

  exit_failure : ℤ → String → State → Answer × State
  unfolding after_sat
  exit_failure code out s =
      if has_bits code 0x05 && not (is_some (get_cached_device_type device_path s))
      then (let (retried, s') = retry_sat_fallback env device_path s in
          after_sat code out retried s')
      else after_sat code out none s

  success : Option SmartInfo → State → Answer × State
  success none s = (failed (wrapped "failed to parse SMART info" json_error ""), s)
  success (some i) s =
      let j = classify i in
      (
        found j,
        cache_if_absent device_path i.device.type
            (log_health_bits device_path j (log_smartctl_messages env i s)),
      )

  info_dispatch : Option Err → String → State → Answer × State
  unfolding exit_failure success
  info_dispatch none out s = success (env.unmarshal_info out) s
  info_dispatch (some (exit_error code)) out s = exit_failure code out s
  info_dispatch (some e) out s = parse_failure e (parse_if_any out) s

  unfoldable pub get_smart_info_internal : State → Answer × State
  unfolding info_dispatch
  get_smart_info_internal s =
      let (reply, s') = command env output (build_args device_path ("-a" ∷ "-j" ∷ []) s) s in
      info_dispatch reply.err reply.out s'

  unfoldable pub get_smart_info : State → Answer × State
  get_smart_info s = get_smart_info_internal s
