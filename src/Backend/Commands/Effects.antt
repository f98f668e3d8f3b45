-- ===== src/Backend/Commands/Effects.antt =====
-- What the operations of one command do to the state: they keep every cached device type, and start
-- one command, or two or four where they fail or ask first.
use smartmontools_go.Base.{
  ℤ, String, Option, none, some, List, [], ◌∷◌, ◌≡◌, refl, arith, ◌==◌, ◌∙◌, eqbℤ, not, ◌&&◌,
  has_bits,
}
use smartmontools_go.Text.{to_lower}
use smartmontools_go.Types.{SmartInfo}
use smartmontools_go.Types.SelfTests.{contains, valid_self_test_types}
use smartmontools_go.Helpers.{determine_disk_type}
use smartmontools_go.Backend.State.{
  Env, State, Err, exit_error, output, run, combined_output, log, command, build_args,
  get_cached_device_type,
}
use smartmontools_go.Backend.State.Effects.{
  Within, Within-refl, Within-trans, Within-weaken, log-Within, command-Within, if_Within,
}
use smartmontools_go.Backend.Info.{get_smart_info}
use smartmontools_go.Backend.Info.Effects.{get_smart_info_internal-effect}
use smartmontools_go.Backend.Commands.{
  minus_one, health_exit, health_dispatch, check_health, get_device_info, get_available_self_tests,
  second_output, run_failed, run_self_test, enable_smart, disable_run, disable_checked,
  disable_probed, disable_by, disable_smart, abort_self_test,
}

health_exit-Within :
    (device_path : String) (code : ℤ) (out : String) (s : State)
    → Within 0 s (health_exit device_path code out s).1
health_exit-Within device_path code out s =
    unfold health_exit in
    if_Within (not (eqbℤ code minus_one) && has_bits code 0x02) _ _ (log-Within _ s)
      (if_Within (out == "") _ _ (Within-refl s) (Within-refl s))

health_dispatch-Within :
    (device_path : String) (e : Option Err) (out : String) (s : State)
    → Within 0 s (health_dispatch device_path e out s).1
unfolding health_dispatch
health_dispatch-Within device_path none out s = Within-refl s
health_dispatch-Within device_path (some (exit_error code)) out s =
    health_exit-Within device_path code out s
health_dispatch-Within device_path (some _) out s = Within-refl s

health_dispatch-calls :
    (device_path : String) (e : Option Err) (out : String) (s : State)
    → (health_dispatch device_path e out s).1.calls ≡ s.calls
unfolding health_dispatch health_exit log
health_dispatch-calls device_path none out s = refl
health_dispatch-calls device_path (some (exit_error code)) out s = ground arith
health_dispatch-calls device_path (some _) out s = refl

module _ (env : Env) (device_path : String) where
  pub check_health-Within : (s : State) → Within 1 s (check_health env device_path s).1
  check_health-Within s =
      let args = build_args device_path ("-H" ∷ []) s in
      let (reply, s') = command env output args s in
      unfold check_health in
      Within-trans 1 0 (command-Within env output args s)
        (health_dispatch-Within device_path reply.err reply.out s')

  pub check_health-calls :
      (s : State)
      → (check_health env device_path s).1.calls
        ≡ record {
          method = output;
          name = s.smartctl_path;
          args = build_args device_path ("-H" ∷ []) s;
        }
          ∷ s.calls
  check_health-calls s =
      let (reply, s') = command env output (build_args device_path ("-H" ∷ []) s) s in
      unfold check_health in
      health_dispatch-calls device_path reply.err reply.out s' ∙ (unfold command in refl)

  pub get_device_info-Within : (s : State) → Within 1 s (get_device_info env device_path s).1
  get_device_info-Within s =
      unfold get_device_info in
      command-Within env output (build_args device_path ("-i" ∷ "-j" ∷ []) s) s

  pub get_available_self_tests-Within :
      (s : State) → Within 1 s (get_available_self_tests env device_path s).1
  get_available_self_tests-Within s =
      unfold get_available_self_tests in
      command-Within env output (build_args device_path ("-c" ∷ "-j" ∷ []) s) s

  second_output-Within :
      (args : List String) (e : Err) (s : State) → Within 1 s (second_output env args e s).1
  second_output-Within args (exit_error code) s =
      unfold second_output in
      if_Within s.default_commander _ _ (Within-weaken (omega arith) (Within-refl s))
        (command-Within env combined_output args s)
  second_output-Within args _ s = unfold second_output in command-Within env combined_output args s

  run_failed-Within :
      (test_type : String) (args : List String) (e : Option Err) (s : State)
      → Within 1 s (run_failed env device_path test_type args e s).1
  run_failed-Within test_type args none s =
      unfold run_failed in Within-weaken (omega arith) (Within-refl s)
  run_failed-Within test_type args (some e) s = unfold run_failed in second_output-Within args e s

  pub run_self_test-Within :
      (test_type : String) (s : State) → Within 2 s (run_self_test env device_path test_type s).1
  run_self_test-Within test_type s =
      let args : List String = "-t" ∷ test_type ∷ device_path ∷ [] in
      let (reply, s') = command env run args s in
      unfold run_self_test in
      if_Within (contains valid_self_test_types test_type) _ _
        (Within-trans 1 1 (command-Within env run args s)
          (run_failed-Within test_type args reply.err s'))
        (Within-weaken (omega arith) (Within-refl s))

  pub enable_smart-Within : (s : State) → Within 1 s (enable_smart env device_path s).1
  enable_smart-Within s =
      unfold enable_smart in command-Within env run ("-s" ∷ "on" ∷ device_path ∷ []) s

  pub abort_self_test-Within : (s : State) → Within 1 s (abort_self_test env device_path s).1
  abort_self_test-Within s =
      unfold abort_self_test in command-Within env run ("-X" ∷ device_path ∷ []) s

  pub get_smart_info-Within : (s : State) → Within 3 s (get_smart_info env device_path s).1
  get_smart_info-Within s =
      let (keeps, calls) = get_smart_info_internal-effect env device_path s in
      record {
        keeps = record { at = unfold get_smart_info in keeps };
        calls = unfold get_smart_info in calls;
      }

  disable_run-Within : (s : State) → Within 1 s (disable_run env device_path s).1
  disable_run-Within s =
      unfold disable_run in command-Within env run ("-s" ∷ "off" ∷ device_path ∷ []) s

  disable_checked-Within :
      (i : SmartInfo) (s : State) → Within 1 s (disable_checked env device_path i s).1
  disable_checked-Within i s =
      unfold disable_checked in
      if_Within (determine_disk_type i == "NVMe") _ _ (Within-weaken (omega arith) (Within-refl s))
        (disable_run-Within s)

  disable_probed-Within :
      (e : Option Err) (o : Option SmartInfo) (s : State)
      → Within 1 s (disable_probed env device_path e o s).1
  unfolding disable_probed
  disable_probed-Within (some e) o s = Within-weaken (omega arith) (Within-refl s)
  disable_probed-Within none none s = Within-weaken (omega arith) (Within-refl s)
  disable_probed-Within none (some i) s = disable_checked-Within i s

  disable_by-Within :
      (o : Option String) (s : State) → Within 4 s (disable_by env device_path o s).1
  disable_by-Within (some cached_type) s =
      unfold disable_by in
      if_Within (to_lower cached_type == "nvme") _ _ (Within-weaken (omega arith) (Within-refl s))
        (Within-weaken (omega arith) (disable_run-Within s))
  disable_by-Within none s =
      let (answer, s') = get_smart_info env device_path s in
      unfold disable_by in
      Within-trans 3 1 (get_smart_info-Within s)
        (disable_probed-Within answer.err answer.smart_info s')

  pub disable_smart-Within : (s : State) → Within 4 s (disable_smart env device_path s).1
  disable_smart-Within s =
      unfold disable_smart in disable_by-Within (get_cached_device_type device_path s) s
