-- ===== src/Backend/Info/Ends.antt =====
-- The ways in which `getSMARTInfoInternal` ends, as a relation.
use smartmontools_go.Base.{ℤ, String, true, false, none, some, ◌≡◌, ◌⊎◌, ◌==◌, has_bits}
use smartmontools_go.Types.{SmartInfo, zero_info}
use smartmontools_go.Helpers.{classify}
use smartmontools_go.Drivedb.Bridge.{is_unknown_usb_bridge, extract_usb_bridge_id}
use smartmontools_go.Backend.State.{
  Env, State, Err, exit_error, json_error, wrapped, Reply, log, get_cached_device_type,
  cache_if_absent,
}
use smartmontools_go.Backend.Logging.{log_smartctl_messages, log_health_bits}
use smartmontools_go.Backend.Retry.{retry_with_device_type, retry_sat_fallback, mark_standby}
use smartmontools_go.Backend.Info.{Answer, found, failed, answer_named, retry_failed_entry}

-- an error that does not say by bit 1 of an exit code that the device is asleep
abbrev pub NotStandby : Err → Type 0
NotStandby (exit_error code) = has_bits code 0x02 ≡ false
NotStandby _ = Unit

-- `t` is `s` with more entries in the log
pub data LogsOnly (s : State) (t : State) : Type 0 where
  more_logs : t ≡ record s { logs = t.logs } → LogsOnly s t

-- no SAT retry is due for an error: it is not an exit with bit 0 or 2, or a type is cached
abbrev pub NoSat : String → Err → State → Type 0
NoSat device_path (exit_error code) s =
    (has_bits code 0x05 ≡ false)
    ⊎ ((known : String) × (get_cached_device_type device_path s ≡ some known))
NoSat device_path _ s = Unit

-- The type of the bridge retry: that of the drive database for the bridge's identifier, or "sat" where the
-- messages hold no identifier or the database does not have it.
pub data BridgeType (s : State) (i : SmartInfo) : String → Type 0 where
  in_database :
      {known : String}
      → (extract_usb_bridge_id i == "") ≡ false
      → get_cached_device_type (extract_usb_bridge_id i) s ≡ some known
      → BridgeType s i known
  no_identifier : (extract_usb_bridge_id i == "") ≡ true → BridgeType s i "sat"
  not_in_database :
      (extract_usb_bridge_id i == "") ≡ false
      → get_cached_device_type (extract_usb_bridge_id i) s ≡ none
      → BridgeType s i "sat"

module _ (env : Env) (device_path : String) where
  -- the output holds the document of an info
  abbrev pub HasDocument : String → SmartInfo → Type 0
  HasDocument out i = ((out == "") ≡ false) × (env.unmarshal_info out ≡ some i)

  -- the output is empty or is not decoded
  abbrev pub NoDocument : String → Type 0
  NoDocument out = ((out == "") ≡ true) ⊎ (env.unmarshal_info out ≡ none)

  -- the state in which the output of a command that failed with an error is acted on: no SAT retry was
  -- due, or one was and failed
  pub data Tried (s : State) (e : Err) : State → Type 0 where
    not_tried : NoSat device_path e s → Tried s e s
    sat_failed :
        {code : ℤ} {t : State}
        → e ≡ exit_error code
        → has_bits code 0x05 ≡ true
        → get_cached_device_type device_path s ≡ none
        → retry_sat_fallback env device_path s ≡ (none, t)
        → Tried s e t

  -- the state in which the answer to a parsed failure is given
  pub data Bridged (s : State) (i : SmartInfo) : Answer → State → Type 0 where
    no_bridge :
        (is_unknown_usb_bridge i ≡ false)
          ⊎ ((known : String) × (get_cached_device_type device_path s ≡ some known))
        → Bridged s i (answer_named (classify i)) s
    bridge_read :
        (device_type : String) (r : State) {t : State} {j : SmartInfo}
        → is_unknown_usb_bridge i ≡ true
        → get_cached_device_type device_path s ≡ none
        → BridgeType s i device_type
        → LogsOnly s r
        → retry_with_device_type env device_path device_type r ≡ (some j, t)
        → Bridged s i (found j) t
    bridge_failed :
        (device_type : String) (r : State) {t : State}
        → is_unknown_usb_bridge i ≡ true
        → get_cached_device_type device_path s ≡ none
        → BridgeType s i device_type
        → LogsOnly s r
        → retry_with_device_type env device_path device_type r ≡ (none, t)
        → Bridged s i
            (answer_named (classify i))
            (log (retry_failed_entry device_path device_type) t)

  -- how the call ends, from the state after the command
  pub data Ends (s : State) (reply : Reply) : Answer → State → Type 0 where
    read :
        {i : SmartInfo}
        → reply.err ≡ none
        → env.unmarshal_info reply.out ≡ some i
        → Ends s reply (found (classify i)) (
            cache_if_absent device_path i.device.type
              (log_health_bits device_path (classify i) (log_smartctl_messages env i s)))
    unparsed :
        reply.err ≡ none
        → env.unmarshal_info reply.out ≡ none
        → Ends s reply (failed (wrapped "failed to parse SMART info" json_error "")) s
    sat_read :
        {code : ℤ} {t : State} {j : SmartInfo}
        → reply.err ≡ some (exit_error code)
        → has_bits code 0x05 ≡ true
        → get_cached_device_type device_path s ≡ none
        → retry_sat_fallback env device_path s ≡ (some j, t)
        → Ends s reply (record { smart_info = some j; sat_fallback = true; err = none }) t
    standby_bare :
        {code : ℤ} {t : State}
        → reply.err ≡ some (exit_error code)
        → has_bits code 0x02 ≡ true
        → NoDocument reply.out
        → Tried s (exit_error code) t
        → Ends s reply (found (record zero_info { in_standby = true })) t
    standby_read :
        {code : ℤ} {t : State} {i : SmartInfo}
        → reply.err ≡ some (exit_error code)
        → has_bits code 0x02 ≡ true
        → HasDocument reply.out i
        → Tried s (exit_error code) t
        → Ends s reply
            (found (classify (mark_standby i)))
            (cache_if_absent device_path i.device.type t)
    failure_read :
        {e : Err} {t u : State} {i : SmartInfo} {a : Answer}
        → reply.err ≡ some e
        → NotStandby e
        → HasDocument reply.out i
        → Tried s e t
        → Bridged (log_smartctl_messages env i (cache_if_absent device_path i.device.type t)) i a u
        → Ends s reply a u
    failure_unread :
        {e : Err} {t : State}
        → reply.err ≡ some e
        → NotStandby e
        → NoDocument reply.out
        → Tried s e t
        → Ends s reply (failed (wrapped "failed to get SMART info" e "")) t
