-- ===== src/Backend/Commands.antt =====
-- The operations that run one smartctl command: `CheckHealth`, `GetDeviceInfo`, `RunSelfTest`,
-- `GetAvailableSelfTests`, `EnableSMART`, `DisableSMART` and `AbortSelfTest`.
pub mod Health
pub mod Control
pub mod Effects
use smartmontools_go.Base.{
  ℕ, ℤ, pos, negsuc, eqbℤ, String, Bool, true, false, not, ◌&&◌, Option, none, some, List, [], ◌∷◌,
  GoMap, if◌then◌else◌, has_bits, ◌==◌,
}
use smartmontools_go.Json.{Json}
use smartmontools_go.Text.{concat, contains_text, to_lower}
use smartmontools_go.Types.{SmartInfo, SelfTestInfo, CapabilitiesOutput}
use smartmontools_go.Types.SelfTests.{
  valid_self_test_types, contains, populate_self_test_info, empty_self_test_info,
}
use smartmontools_go.Helpers.{determine_disk_type}
use smartmontools_go.Backend.State.{
  Env, State, Err, exit_error, json_error, plain, wrapped, panic, output, run, combined_output,
  Reply, debug, text, log, command, get_cached_device_type, build_args,
}
use smartmontools_go.Backend.Info.{Answer, get_smart_info}
use smartmontools_go.Backend.Devices.{Result, ok, err}

abbrev pub minus_one : ℤ
minus_one = negsuc 0

health_of_output : String → Result Bool
health_of_output out = ok (contains_text out "PASSED")

health_exit : String → ℤ → String → State → Result Bool × State
unfolding health_of_output log
health_exit device_path code out s =
    if not (eqbℤ code minus_one) && has_bits code 0x02
    then (
      ok false,
      log
          (record {
            level = debug;
            message = "Device in standby mode, cannot check health";
            attrs = ("devicePath", text device_path) ∷ [];
          })
          s,
    )
    else if out == ""
    then (err (wrapped "failed to check health" (exit_error code) ""), s)
    else (health_of_output out, s)

health_dispatch : String → Option Err → String → State → Result Bool × State
unfolding health_exit
health_dispatch device_path none out s = (health_of_output out, s)
health_dispatch device_path (some (exit_error code)) out s = health_exit device_path code out s
health_dispatch device_path (some e) out s = (err (wrapped "failed to check health" e ""), s)

-- the error of a failed `-i` or `-c` command
query_error : String → Err → Err
query_error message (exit_error code) =
    if has_bits code 0x02
    then plain "device in standby mode"
    else wrapped message (exit_error code) ""
query_error message e = wrapped message e ""

decoded {ℓ} : {A : Type ℓ} → String → Option A → Result A
decoded message none = err (wrapped message json_error "")
decoded message (some a) = ok a

query_result {ℓ} : {A : Type ℓ} → String → String → Reply → Option A → Result A
unfolding query_error decoded
query_result failed unparsed reply parsed = elim reply.err [
  | some e ↦ err (query_error failed e)
  | none ↦ decoded unparsed parsed
]

-- the result of an operation that returns only an error
done : String → Option Err → Option Err
done message none = none
done message (some e) = some (wrapped message e "")

self_tests_of : CapabilitiesOutput → SelfTestInfo
self_tests_of caps =
    populate_self_test_info empty_self_test_info caps.ata_smart_data
      caps.nvme_controller_capabilities caps.nvme_optional_admin_commands

map_ok {ℓ κ} : {A : Type ℓ} {B : Type κ} → (A → B) → Result A → Result B
map_ok f (ok a) = ok (f a)
map_ok f (err e) = err e

abbrev pub nvme_disable_error : Err
nvme_disable_error =
    plain "cannot disable SMART: NVMe devices do not support SMART disable operation"

-- the part of the message behind the cause
unfoldable pub run_suffix : String → String → String → String
run_suffix device_path test_type out = concat " (devicePath: " (
    concat device_path
      (concat ", testType: " (concat test_type (concat ", output: " (concat out ")")))))

unfoldable pub invalid_test_type : String → Err
invalid_test_type test_type = plain (
    concat "invalid test type: "
      (concat test_type " (must be one of: short, long, conveyance, offline)"))

module _ (env : Env) where
  unfoldable pub check_health : String → State → Result Bool × State
  unfolding health_dispatch
  check_health device_path s =
      let (reply, s') = command env output (build_args device_path ("-H" ∷ []) s) s in
      health_dispatch device_path reply.err reply.out s'

  unfoldable pub get_device_info : String → State → Result (GoMap Json) × State
  unfolding query_result
  get_device_info device_path s =
      let (reply, s') = command env output (build_args device_path ("-i" ∷ "-j" ∷ []) s) s in
      (
        query_result "failed to get device info" "failed to parse device info" reply
            (env.unmarshal_object reply.out),
        s',
      )

  unfoldable pub get_available_self_tests : String → State → Result SelfTestInfo × State
  unfolding query_result map_ok self_tests_of
  get_available_self_tests device_path s =
      let (reply, s') = command env output (build_args device_path ("-c" ∷ "-j" ∷ []) s) s in
      (
        map_ok self_tests_of (
            query_result "failed to get capabilities" "failed to parse capabilities" reply
              (env.unmarshal_caps reply.out)),
        s',
      )

  -- `cmd.CombinedOutput()` on the command whose `cmd.Run()` has failed with the error. A `Cmd` of os/exec
  -- starts one process only: where a process was started, and exited with an error, a second start is
  -- refused and yields no output. Where none was started, and with another commander, it may answer.
  second_output : List String → Err → State → String × State
  second_output args (exit_error code) s =
      if s.default_commander
      then ("", s)
      else (let (reply, s') = command env combined_output args s in (reply.out, s'))
  second_output args _ s = let (reply, s') = command env combined_output args s in (reply.out, s')

  run_failed : String → String → List String → Option Err → State → Option Err × State
  unfolding second_output
  run_failed device_path test_type args none s = (none, s)
  run_failed device_path test_type args (some e) s =
      let (out, s') = second_output args e s in
      (some (wrapped "failed to run self-test" e (run_suffix device_path test_type out)), s')

  unfoldable pub run_self_test : String → String → State → Option Err × State
  unfolding run_failed
  run_self_test device_path test_type s =
      let args : List String = "-t" ∷ test_type ∷ device_path ∷ [] in
      let (reply, s') = command env run args s in
      if contains valid_self_test_types test_type
      then run_failed device_path test_type args reply.err s'
      else (some (invalid_test_type test_type), s)

  unfoldable pub enable_smart : String → State → Option Err × State
  unfolding done
  enable_smart device_path s =
      let (reply, s') = command env run ("-s" ∷ "on" ∷ device_path ∷ []) s in
      (done "failed to enable SMART" reply.err, s')

  disable_run : String → State → Option Err × State
  unfolding done
  disable_run device_path s =
      let (reply, s') = command env run ("-s" ∷ "off" ∷ device_path ∷ []) s in
      (done "failed to disable SMART" reply.err, s')

  disable_checked : String → SmartInfo → State → Option Err × State
  unfolding disable_run
  disable_checked device_path i s =
      if determine_disk_type i == "NVMe"
      then (some nvme_disable_error, s)
      else disable_run device_path s

  -- the error and the info of the query; `determineDiskType` reads through the pointer
  disable_probed : String → Option Err → Option SmartInfo → State → Option Err × State
  unfolding disable_checked
  disable_probed device_path (some e) smart_info s =
      (some (wrapped "failed to check device type" e ""), s)
  disable_probed device_path none none s = (some panic, s)
  disable_probed device_path none (some i) s = disable_checked device_path i s

  -- by the cached type, if there is one
  disable_by : String → Option String → State → Option Err × State
  unfolding disable_probed
  disable_by device_path (some cached_type) s =
      if to_lower cached_type == "nvme"
      then (some nvme_disable_error, s)
      else disable_run device_path s
  disable_by device_path none s =
      let (answer, s') = get_smart_info env device_path s in
      disable_probed device_path answer.err answer.smart_info s'

  unfoldable pub disable_smart : String → State → Option Err × State
  unfolding disable_by
  disable_smart device_path s = disable_by device_path (get_cached_device_type device_path s) s

  unfoldable pub abort_self_test : String → State → Option Err × State
  unfolding done
  abort_self_test device_path s =
      let (reply, s') = command env run ("-X" ∷ device_path ∷ []) s in
      (done "failed to abort self-test" reply.err, s')
