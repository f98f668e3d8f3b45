-- ===== src/Backend/Session.antt =====
-- The public methods of `ExecBackend`, `SetDeviceTypeHint`, `DeviceTypeHint`, `SmartctlPath`, `Name` and
-- `Close` among them, as operations, and a session: a sequence of them on one backend.
pub mod Effects
pub mod Whole
use smartmontools_go.Base.{
  String, Bool, true, false, ◌||◌, Option, none, some, List, [], ◌∷◌, GoMap, ◌==◌,
}
use smartmontools_go.Json.{Json}
use smartmontools_go.Types.{Device, SelfTestInfo, DiscoveryResult}
use smartmontools_go.Backend.State.{Env, State, Err, get_cached_device_type, set_cached_device_type}
use smartmontools_go.Backend.Info.{Answer, get_smart_info}
use smartmontools_go.Backend.Devices.{Result, scan_devices, discover_devices}
use smartmontools_go.Backend.Commands.{
  check_health, get_device_info, get_available_self_tests, run_self_test, enable_smart,
  disable_smart, abort_self_test,
}

unfoldable pub set_device_type_hint : String → String → State → State
set_device_type_hint path device_type s = set_cached_device_type path device_type s

unfoldable pub device_type_hint : String → State → Option String
device_type_hint path s = get_cached_device_type path s

unfoldable pub smartctl_path_of : State → String
smartctl_path_of s = s.smartctl_path

abbrev pub backend_name : String
backend_name = "exec"

-- A call of a method; the strings are the device path and what else the method takes.
pub data Op : Type 0 where
  name_op path_op close_op scan_op discover_op : Op
  set_hint : String → String → Op
  hint info health device_info self_tests enable disable abort : String → Op
  start_test : String → String → Op

-- what a method returns
pub data Outcome : Type 0 where
  text : String → Outcome
  devices : Result (List Device) → Outcome
  discovered : Result (List DiscoveryResult) → Outcome
  hinted : Option String → Outcome
  answered : Answer → Outcome
  healthy : Result Bool → Outcome
  described : Result (GoMap Json) → Outcome
  tests : Result SelfTestInfo → Outcome
  started : Option Err → Outcome
  disabled : Option Err → Outcome
  ended : Option Err → Outcome
  nothing : Outcome

tagged {ℓ} : {A : Type ℓ} → (A → Outcome) → A × State → Outcome × State
tagged f (a, s) = (f a, s)

module _ (env : Env) where
  unfoldable pub perform : Op → State → Outcome × State
  unfolding tagged smartctl_path_of set_device_type_hint device_type_hint
  perform name_op s = (text backend_name, s)
  perform path_op s = (text (smartctl_path_of s), s)
  perform close_op s = (ended none, s)
  perform scan_op s = tagged devices (scan_devices env s)
  perform discover_op s = tagged discovered (discover_devices env s)
  perform (set_hint path device_type) s = (nothing, set_device_type_hint path device_type s)
  perform (hint path) s = (hinted (device_type_hint path s), s)
  perform (info path) s = tagged answered (get_smart_info env path s)
  perform (health path) s = tagged healthy (check_health env path s)
  perform (device_info path) s = tagged described (get_device_info env path s)
  perform (self_tests path) s = tagged tests (get_available_self_tests env path s)
  perform (enable path) s = tagged ended (enable_smart env path s)
  perform (disable path) s = tagged disabled (disable_smart env path s)
  perform (abort path) s = tagged ended (abort_self_test env path s)
  perform (start_test path test_type) s = tagged started (run_self_test env path test_type s)

  unfoldable pub session : List Op → State → List Outcome × State
  session [] s = ([], s)
  session (op ∷ ops) s =
      let (outcome, s1) = perform op s in
      let (outcomes, s2) = session ops s1 in (outcome ∷ outcomes, s2)

-- the operation gives a hint for the path
unfoldable pub hints : String → Op → Bool
hints path (set_hint other _) = other == path
hints path _ = false

unfoldable pub discovers : Op → Bool
discovers discover_op = true
discovers _ = false

unfoldable pub any_op : (Op → Bool) → List Op → Bool
any_op p [] = false
any_op p (op ∷ ops) = p op || any_op p ops
