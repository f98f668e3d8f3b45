-- ===== src/Backend/Logging/Frame.antt =====
-- Logging changes no device type and starts no command.
use smartmontools_go.Base.{String, Option, none, some, List, [], ◌∷◌, ◌≡◌, refl, arith, ◌∙◌}
use smartmontools_go.Types.{SmartInfo, Message, ExitCodeInfo}
use smartmontools_go.Backend.State.{Env, State}
use smartmontools_go.Backend.Logging.{
  messages_of, log_message, log_messages, log_smartctl_messages, log_codes, log_health_bits,
}

-- the parts of the state that no logging touches
pub record SameDevices (s t : State) : Type 0 where
  pub device_types : t.device_type_cache ≡ s.device_type_cache
  pub calls : t.calls ≡ s.calls
  pub smartctl_path : t.smartctl_path ≡ s.smartctl_path

log_codes-SameDevices :
    (path : String) (codes : Option ExitCodeInfo) (s : State)
    → SameDevices s (log_codes path codes s)
unfolding log_codes
log_codes-SameDevices path none s = record {
  device_types = refl;
  calls = refl;
  smartctl_path = refl;
}
log_codes-SameDevices path (some codes) s = ground arith

pub log_health_bits-SameDevices :
    (path : String) (i : SmartInfo) (s : State) → SameDevices s (log_health_bits path i s)
unfolding log_health_bits
log_health_bits-SameDevices path i s = log_codes-SameDevices path i.exit_code_info s

module _ (env : Env) where
  log_message-SameDevices : (m : Message) (s : State) → SameDevices s (log_message env m s)
  unfolding log_message
  log_message-SameDevices m s = ground arith

  log_messages-SameDevices : (ms : List Message) (s : State) → SameDevices s (log_messages env ms s)
  unfolding log_messages
  log_messages-SameDevices [] s = record { device_types = refl; calls = refl; smartctl_path = refl }
  log_messages-SameDevices (m ∷ ms) s =
      let h = log_message-SameDevices m s in
      let k = log_messages-SameDevices ms (log_message env m s) in
      record {
        device_types = k.device_types ∙ h.device_types;
        calls = k.calls ∙ h.calls;
        smartctl_path = k.smartctl_path ∙ h.smartctl_path;
      }

  pub log_smartctl_messages-SameDevices :
      (i : SmartInfo) (s : State) → SameDevices s (log_smartctl_messages env i s)
  unfolding log_smartctl_messages
  log_smartctl_messages-SameDevices i s = log_messages-SameDevices (messages_of i.smartctl) s

  log_message-health :
      (m : Message) (s : State) → (log_message env m s).health_bits_cache ≡ s.health_bits_cache
  unfolding log_message
  log_message-health m s = ground arith

  log_messages-health :
      (ms : List Message) (s : State)
      → (log_messages env ms s).health_bits_cache ≡ s.health_bits_cache
  unfolding log_messages
  log_messages-health [] s = refl
  log_messages-health (m ∷ ms) s =
      log_messages-health ms (log_message env m s) ∙ log_message-health m s

  pub log_smartctl_messages-health :
      (i : SmartInfo) (s : State)
      → (log_smartctl_messages env i s).health_bits_cache ≡ s.health_bits_cache
  unfolding log_smartctl_messages
  log_smartctl_messages-health i s = log_messages-health (messages_of i.smartctl) s
