-- ===== src/Witnesses/Commands.antt =====
-- The commands at concrete inputs.
use smartmontools_go.Base.{◌⊎◌, String, pos, true, false, none, some, [], ◌∷◌, ◌≡◌, ◌≢◌, refl}
use smartmontools_go.Types.SelfTests.{contains, valid_self_test_types}
use smartmontools_go.Backend.State.{Err, exit_error, plain, wrapped, panic}
use smartmontools_go.Backend.Devices.{err}
use smartmontools_go.Backend.Commands.{
  check_health, get_device_info, run_self_test, disable_smart, minus_one, invalid_test_type,
}
use smartmontools_go.Backend.Commands.Health.{killed_command}
use smartmontools_go.Backend.Commands.Control.{
  self_test_call, run_self_test-guard, disable_smart-no_panic,
}
use smartmontools_go.Witnesses.{always, exited, killed, known}

killed_command_example :
    ((check_health (always killed) "/dev/sda" known).0
      ≡ err (wrapped "failed to check health" (exit_error minus_one) ""))
    × ((get_device_info (always killed) "/dev/sda" known).0 ≡ err (plain "device in standby mode"))
killed_command_example = killed_command (always killed) "/dev/sda" known refl refl refl

run_self_test-guard_example :
    ((contains valid_self_test_types "long" ≡ false)
      × (run_self_test (always killed) "/dev/sda" "long" known
          ≡ (some (invalid_test_type "long"), known)))
    ⊎ ((contains valid_self_test_types "long" ≡ true)
        × (some (exit_error minus_one) ≡ none)
        × (run_self_test (always killed) "/dev/sda" "long" known
            ≡ (none, record known { calls = self_test_call "/dev/sda" "long" known ∷ [] })))
    ⊎ ((e : Err) × (suffix : String) × (contains valid_self_test_types "long" ≡ true)
        × (some (exit_error minus_one) ≡ some e)
        × ((run_self_test (always killed) "/dev/sda" "long" known).0
            ≡ some (wrapped "failed to run self-test" e suffix)))
run_self_test-guard_example = run_self_test-guard (always killed) "/dev/sda" "long" known

disable_smart-no_panic_example :
    (disable_smart (always (exited (pos 6))) "/dev/sdc" known).0 ≢ some panic
disable_smart-no_panic_example = disable_smart-no_panic (always (exited (pos 6))) "/dev/sdc" known
