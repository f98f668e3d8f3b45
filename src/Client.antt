-- ===== src/Client.antt =====
-- client.go: `NewClient` and the operations that are more than a call of the backend. The methods that
-- only call the backend of the same name are the fields of `Backend` themselves, without the context
-- that they pass on.
pub mod Support
pub mod Progress
use smartmontools_go.Base.{
  String, Bool, true, false, not, ◌||◌, is_some, Option, none, some, List, [], ◌∷◌, ◌++◌,
  if◌then◌else◌, GoMap,
}
use smartmontools_go.Types.{Device, SmartInfo, SmartSupport, SelfTestInfo, DiscoveryResult}
use smartmontools_go.Types.SelfTests.{
  contains, valid_self_test_types, populate_self_test_info, empty_self_test_info,
}
use smartmontools_go.MessageCache.{MessageCache}
use smartmontools_go.Backend.State.{Env, State, Err, plain, wrapped, panic}
use smartmontools_go.Backend.Setup.{
  Host, Opt, with_smartctl_path, with_commander, with_log_handler, Built, backend, refused, new,
}
use smartmontools_go.Backend.Info.{Answer, get_smart_info}
use smartmontools_go.Backend.Devices.{
  Result, ok, err, scan_devices, discover_devices, model_of, unread, read_result,
}
use smartmontools_go.Backend.Commands.{run_self_test, get_available_self_tests, invalid_test_type}
use smartmontools_go.Text.{concat}

-- What the client calls of a backend with states `S`. The discovery is there for a `DiscoveryBackend` only;
-- of an `Answer` the client reads the info and the error.
pub record Backend (S : Type 0) : Type 0 where
  pub scan : S → Result (List Device) × S
  pub info : String → S → Answer × S
  pub self_tests : String → S → Result SelfTestInfo × S
  pub start_test : String → String → S → Option Err × S
  pub discovery : Option (S → Result (List DiscoveryResult) × S)

unfoldable pub exec_backend : Env → Backend State
exec_backend env = record {
  scan = scan_devices env;
  info = get_smart_info env;
  self_tests = get_available_self_tests env;
  start_test = run_self_test env;
  discovery = some (discover_devices env);
}

-- `ClientOption`; `B` is a backend given by the user, or nil, and `C` a context, or nil
pub data ClientOption (B C : Type 0) : Type 0 where
  client_smartctl_path : String → ClientOption B C
  client_log_handler : ClientOption B C
  client_commander : ClientOption B C
  client_context : Option C → ClientOption B C
  client_backend : Option B → ClientOption B C

pub record Client (B C : Type 0) : Type 0 where
  pub backend : Option B
  pub default_ctx : Option C
  pub pending_exec_opts : List Opt

-- what `NewClient` returns: a client of a user's backend or of what `New` builds, with its default
-- context, or the error of `New`
pub data NewResult (B C : Type 0) : Type 0 where
  given : B → Option C → NewResult B C
  made : State → Option C → NewResult B C
  not_made : Err → NewResult B C

module _ {B C : Type 0} where
  unfoldable pub apply_client_option : ClientOption B C → Client B C → Client B C
  apply_client_option (client_smartctl_path path) c = record c {
    pending_exec_opts = c.pending_exec_opts ++ with_smartctl_path path ∷ [];
  }
  apply_client_option client_commander c = record c {
    pending_exec_opts = c.pending_exec_opts ++ with_commander ∷ [];
  }
  apply_client_option (client_backend b) c = record c { backend = b }
  apply_client_option (client_context ctx) c = record c { default_ctx = ctx }
  apply_client_option client_log_handler c = c

  unfoldable pub apply_client_options : List (ClientOption B C) → Client B C → Client B C
  unfolding apply_client_option
  apply_client_options [] c = c
  apply_client_options (o ∷ os) c = apply_client_options os (apply_client_option o c)

  unfoldable pub accept_built : Built → Option C → NewResult B C
  accept_built (backend b) ctx = made b ctx
  accept_built (refused e) ctx = not_made e

  unfoldable pub finish_client :
      Host → GoMap String → MessageCache → Option B → Option C → List Opt → NewResult B C
  unfolding accept_built
  finish_client host db messages (some b) ctx opts = given b ctx
  finish_client host db messages none ctx opts =
      accept_built (new host db messages (with_log_handler ∷ opts)) ctx

  -- `background` is context.Background()
  unfoldable pub new_client :
      C → Host → GoMap String → MessageCache → List (ClientOption B C) → NewResult B C
  unfolding apply_client_options finish_client
  new_client background host db messages opts =
      let c =
        apply_client_options opts
          (record { backend = none; default_ctx = some background; pending_exec_opts = [] }) in
      finish_client host db messages c.backend c.default_ctx c.pending_exec_opts

-- of the context of a call and the client's default context
resolve_ctx : {C : Type 0} → Option C → Option C → Option C
resolve_ctx none default_ctx = default_ctx
resolve_ctx (some ctx) default_ctx = some ctx

abbrev supported : SmartSupport
supported = record { available = true; enabled = true }

support_by_data : Bool → SmartSupport
support_by_data b = if b then supported else record { available = false; enabled = false }

unfoldable pub support_or : Option SmartSupport → SmartInfo → SmartSupport
unfolding support_by_data
support_or (some s) i = s
support_or none i = support_by_data (is_some i.ata_smart_data || is_some i.nvme_smart_health)

unfoldable pub get_smart_support_from_info : SmartInfo → SmartSupport
unfolding support_or
get_smart_support_from_info i = support_or i.smart_support i

unfoldable pub get_available_self_tests_from_info : Option SmartInfo → SelfTestInfo
get_available_self_tests_from_info none = empty_self_test_info
get_available_self_tests_from_info (some i) =
    populate_self_test_info empty_self_test_info i.ata_smart_data i.nvme_controller_capabilities
      none

-- `GetSMARTSupportFromInfo` reads through its pointer
unfoldable pub support_of_answer : Option Err → Option SmartInfo → Result SmartSupport
unfolding get_smart_support_from_info
support_of_answer (some e) i = err (wrapped "failed to get SMART info" e "")
support_of_answer none none = err panic
support_of_answer none (some i) = ok (get_smart_support_from_info i)

unfoldable pub no_such_test : String → Err
no_such_test test_type =
    plain (concat "test type " (concat test_type " is not available for this device"))

module _ {S : Type 0} (b : Backend S) where
  unfoldable pub is_smart_supported : String → S → Result SmartSupport × S
  unfolding support_of_answer
  is_smart_supported device_path s =
      let (answer, s') = b.info device_path s in
      (support_of_answer answer.err answer.smart_info, s')

  -- one round of the generic discovery
  unfoldable pub generic_result : Device → Option Err → Option SmartInfo → DiscoveryResult
  generic_result dev none (some i) = read_result dev i.device.type false i
  generic_result dev none none = unread dev
  generic_result dev (some e) i = unread dev

  unfoldable pub generic_all : List Device → S → List DiscoveryResult × S
  unfolding generic_result
  generic_all [] s = ([], s)
  generic_all (dev ∷ devs) s =
      let (answer, s1) = b.info dev.name s in
      let (results, s2) = generic_all devs s1 in
      (generic_result dev answer.err answer.smart_info ∷ results, s2)

  unfoldable pub generic_scanned : Result (List Device) → S → Result (List DiscoveryResult) × S
  unfolding generic_all
  generic_scanned (err e) s = (err (wrapped "failed to scan devices for discovery" e ""), s)
  generic_scanned (ok devs) s = (let (results, s') = generic_all devs s in (ok results, s'))

  unfoldable pub discover_by :
      Option (S → Result (List DiscoveryResult) × S) → S → Result (List DiscoveryResult) × S
  unfolding generic_scanned
  discover_by (some discovery) s = discovery s
  discover_by none s = (let (scanned, s') = b.scan s in generic_scanned scanned s')

  unfoldable pub client_discover_devices : S → Result (List DiscoveryResult) × S
  unfolding discover_by
  client_discover_devices s = discover_by b.discovery s
