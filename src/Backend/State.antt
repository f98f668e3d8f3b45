-- ===== src/Backend/State.antt =====
-- The backend's state, the processes that it starts, and the operations on its device-type cache.
--
-- `State` is `ExecBackend` together with what its methods reach outside it: the package's message
-- cache, the log that the handler has received, the commands started so far and the number of clock
-- readings. The two mutexes guard single map accesses, which are single steps here.
pub mod Cache
pub mod Effects
pub mod Concurrent
use smartmontools_go.Base.{
  ℕ, ℤ, String, Bool, true, false, Option, none, some, List, [], ◌∷◌, ◌++◌, if◌then◌else◌, suc,
  ◌==◌, GoMap, lookup, insert,
}
use smartmontools_go.Json.{Json}
use smartmontools_go.Types.{Device, SmartInfo, CapabilitiesOutput}
use smartmontools_go.MessageCache.{MessageCache}
use smartmontools_go.Helpers.{is_ata_device}

-- Go error values. `wrapped before e after` is `fmt.Errorf("<before>: %w<after>", e)`, `plain` any
-- error without a cause, and `exit_error` an `*exec.ExitError` with its exit code (-1 where the
-- process was killed by a signal, or has no state). `unsupported_version` is the error with the two numbers
-- in its text. `panic` is no error value: it marks the run-time panic
-- of a nil dereference.
pub data Err : Type 0 where
  exit_error : ℤ → Err
  other_error : String → Err
  json_error : Err
  plain : String → Err
  wrapped : String → Err → String → Err
  unsupported_version : ℕ → ℕ → Err
  panic : Err

pub data Method : Type 0 where
  output run combined_output : Method

-- `b.commander.Command(ctx, b.logHandler, name, args...)` and the method called on the result
pub record Call : Type 0 where
  pub method : Method
  pub name : String
  pub args : List String

pub record Reply : Type 0 where
  pub out : String
  pub err : Option Err

-- What the program does not implement: how started processes answer, depending on all that were
-- started before (so on the device too), what encoding/json makes of an output at each of the types
-- in use, and the clock.
pub record Env : Type 0 where
  pub respond : List Call → Call → Reply
  pub unmarshal_scan : String → Option (List Device)
  pub unmarshal_info : String → Option SmartInfo
  pub unmarshal_caps : String → Option CapabilitiesOutput
  pub unmarshal_object : String → Option (GoMap Json)
  pub now : ℕ → ℕ

pub data Level : Type 0 where
  debug info warn error : Level

-- A value of a log attribute.
pub data Attr : Type 0 where
  text : String → Attr
  num : ℕ → Attr
  flag : Bool → Attr
  failure : Err → Attr

pub record LogEntry : Type 0 where
  pub level : Level
  pub message : String
  pub attrs : List (String × Attr)

pub record State : Type 0 where
  pub smartctl_path : String
  pub default_commander : Bool
  pub device_type_cache : GoMap String
  pub health_bits_cache : GoMap ℕ
  pub messages : MessageCache
  pub logs : List LogEntry  -- the latest entry first
  pub calls : List Call  -- the latest call first
  pub clock_reads : ℕ

unfoldable pub log : LogEntry → State → State
log entry s = record s { logs = entry ∷ s.logs }

module _ (env : Env) where
  unfoldable pub command : Method → List String → State → Reply × State
  command method args s =
      let c : Call = record { method = method; name = s.smartctl_path; args = args } in
      (env.respond s.calls c, record s { calls = c ∷ s.calls })

  -- time.Now()
  unfoldable pub read_clock : State → ℕ × State
  read_clock s = (env.now s.clock_reads, record s { clock_reads = suc s.clock_reads })

abbrev pub get_cached_device_type : String → State → Option String
get_cached_device_type device_path s = lookup device_path s.device_type_cache

unfoldable pub set_cached_device_type : String → String → State → State
unfolding log
set_cached_device_type device_path device_type s =
    log
      (record {
        level = debug;
        message = "Cached device type";
        attrs = ("devicePath", text device_path) ∷ ("deviceType", text device_type) ∷ [];
      })
      (record s { device_type_cache = insert device_path device_type s.device_type_cache })

-- Cache a type that the device reported, if it reported one and none is cached.
unfoldable pub cache_if_absent : String → String → State → State
cache_if_absent device_path device_type s = elim (get_cached_device_type device_path s) [
  | none ↦ if device_type == "" then s else set_cached_device_type device_path device_type s
  | some _ ↦ s
]

-- the arguments for a cached type, or for none
unfoldable pub args_for : String → List String → Option String → List String
args_for device_path flags none = flags ++ "--nocheck=standby" ∷ device_path ∷ []
args_for device_path flags (some cached_type) =
    flags
    ++ (if is_ata_device cached_type then "--nocheck=standby" ∷ [] else [])
    ++ "-d" ∷ cached_type ∷ device_path ∷ []

unfoldable pub build_args : String → List String → State → List String
unfolding args_for
build_args device_path flags s = args_for device_path flags (get_cached_device_type device_path s)
