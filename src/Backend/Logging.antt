-- ===== src/Backend/Logging.antt =====
-- `logSmartctlMessages` and `logHealthBits`.
pub mod Frame
pub mod HealthBits
use smartmontools_go.Base.{
  ℕ, String, Bool, true, false, not, ◌&&◌, Option, none, some, List, [], ◌∷◌, if◌then◌else◌, eqb,
  ◌==◌, GoMap, lookup, insert, has_bits, pos,
}
use smartmontools_go.Types.{elements, SmartInfo, Message, SmartctlInfo, ExitCodeInfo}
use smartmontools_go.MessageCache.{should_log}
use smartmontools_go.Backend.State.{
  Env, State, Level, debug, info, warn, error, LogEntry, text, num, flag, log, read_clock,
}

-- `severity := msg.Severity`, "default" where it is empty
severity_of : Message → String
severity_of msg = if msg.severity == "" then "default" else msg.severity

level_of : String → Level
level_of severity =
    if severity == "error" then error else if severity == "warning" then warn else info

-- nothing to log where there is no `smartctl` object
messages_of : Option SmartctlInfo → List Message
messages_of none = []
messages_of (some ctl) = elements ctl.messages

module _ (env : Env) where
  -- one round of the loop
  log_message : Message → State → State
  unfolding severity_of level_of log read_clock
  log_message msg s =
      let severity = severity_of msg in
      let (now, s') = read_clock env s in
      let (fresh, messages') = should_log now msg.string severity s.messages in
      let s'' = record s' { messages = messages' } in
      if fresh
      then log (record { level = level_of severity; message = msg.string; attrs = [] }) s''
      else s''

  log_messages : List Message → State → State
  unfolding log_message
  log_messages [] s = s
  log_messages (msg ∷ msgs) s = log_messages msgs (log_message msg s)

  unfoldable pub log_smartctl_messages : SmartInfo → State → State
  unfolding log_messages messages_of
  log_smartctl_messages smart_info s = log_messages (messages_of smart_info.smartctl) s

abbrev pub health_message : String
health_message = "SMART health flags detected"

abbrev health_entry : String → ℕ → LogEntry
health_entry device_path bits = record {
  level = warn;
  message = health_message;
  attrs =
      ("devicePath", text device_path)
      ∷ ("healthBits", num bits)
      ∷ ("diskFailing", flag (has_bits (pos bits) 0x08))
      ∷ ("prefailAttr", flag (has_bits (pos bits) 0x10))
      ∷ ("pastPrefail", flag (has_bits (pos bits) 0x20))
      ∷ ("errorLog", flag (has_bits (pos bits) 0x40))
      ∷ ("selfTestLog", flag (has_bits (pos bits) 0x80))
      ∷ [];
}

-- seen && prev == bits
unfoldable pub same_bits : Option ℕ → ℕ → Bool
same_bits none bits = false
same_bits (some prev) bits = eqb prev bits

unfoldable pub log_bits : String → ℕ → State → State
unfolding log same_bits
log_bits device_path bits s =
    if same_bits (lookup device_path s.health_bits_cache) bits
    then s
    else log (health_entry device_path bits)
        (record s { health_bits_cache = insert device_path bits s.health_bits_cache })

unfoldable pub log_codes : String → Option ExitCodeInfo → State → State
unfolding log_bits
log_codes device_path none s = s
log_codes device_path (some codes) s =
    if eqb codes.health_bits 0 then s else log_bits device_path codes.health_bits s

unfoldable pub log_health_bits : String → SmartInfo → State → State
unfolding log_codes
log_health_bits device_path smart_info s = log_codes device_path smart_info.exit_code_info s
