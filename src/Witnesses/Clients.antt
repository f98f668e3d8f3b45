-- ===== src/Witnesses/Clients.antt =====
-- The client at concrete inputs.
use smartmontools_go.Base.{
  ℕ, pos, true, false, none, some, List, [], ◌∷◌, lookup, lebℤ, ltbℤ, eqbℤ, ◌-ℤ◌, wrap64, quot, ◌^◌,
  ◌≡◌, ◌≢◌, ◌⊎◌, refl, arith,
}
use smartmontools_go.Types.{Device, SelfTestInfo, zero_info}
use smartmontools_go.Types.SelfTests.{contains, valid_self_test_types}
use smartmontools_go.Helpers.{self_test_status}
use smartmontools_go.Backend.State.{State, Err, exit_error, panic}
use smartmontools_go.Backend.Setup.{with_log_handler, with_smartctl_path, backend, refused, new}
use smartmontools_go.Backend.Devices.{ok, err}
use smartmontools_go.Client.{
  Backend, exec_backend, is_smart_supported, ClientOption, client_smartctl_path, client_context,
  new_client, made, not_made,
}
use smartmontools_go.Client.Support.{new_client_options, is_smart_supported-no_panic}
use smartmontools_go.Client.Progress.{
  expected_minutes, poll_interval_secs, run_self_test_with_progress, poll, Event, tick, watch,
  waiting, returned, crashed, total_secs,
}
use smartmontools_go.Client.Progress.Start.{run_self_test_with_progress_started}
use smartmontools_go.Client.Progress.Finish.{last_progress, poll-IsComplete, Reports, by_ata}
use smartmontools_go.Client.Progress.Watch.{
  AllReport, no_event, one_tick, watch_ends, AllSilent, watch_never_ends, nothing_said, failing,
}
use smartmontools_go.Witnesses.{always, printed, known, ssd_info, running_status}
use smartmontools_go.Witnesses.Construction.{a_host, a_table}

abbrev some_options : List (ClientOption ℕ ℕ)
some_options = client_smartctl_path "/opt/smartctl" ∷ client_context (some 1) ∷ []

new_client_options_example :
    ((s : State) × (new a_host a_table []
          (with_log_handler ∷ with_smartctl_path "/opt/smartctl" ∷ [])
        ≡ backend s)
      × (new_client 0 a_host a_table [] some_options ≡ made s (some 1)))
    ⊎ ((e : Err) × (new a_host a_table []
            (with_log_handler ∷ with_smartctl_path "/opt/smartctl" ∷ [])
          ≡ refused e)
        × (new_client 0 a_host a_table [] some_options ≡ not_made e))
new_client_options_example = new_client_options 0 a_host a_table [] some_options

abbrev some_tests : SelfTestInfo
some_tests = record { available = "short" ∷ "long" ∷ []; durations = ("short", pos 1) ∷ [] }

abbrev two_devices : List Device
two_devices =
    record { name = "/dev/sda"; type = "sat" } ∷ record { name = "/dev/sdb"; type = "sat" } ∷ []

-- a backend of a user, whose state is a number
abbrev a_backend : Backend ℕ
a_backend = record {
  scan = λ n. (ok two_devices, n);
  info = λ path n. (record { smart_info = some ssd_info; sat_fallback = false; err = none }, n);
  self_tests = λ path n. (ok some_tests, n);
  start_test = λ path test_type n. (none, n);
  discovery = none;
}

run_self_test_with_progress_started_example :
    (contains valid_self_test_types "short" ≡ true)
    × (((a_backend.self_tests "/dev/sda" 0).0 ≡ ok some_tests)
        × ((contains some_tests.available "short" ≡ true)
            × ((a_backend.start_test "/dev/sda" "short" (a_backend.self_tests "/dev/sda" 0).1).0
                ≡ none)))
unfolding contains run_self_test_with_progress
run_self_test_with_progress_started_example =
    run_self_test_with_progress_started a_backend "/dev/sda" "short" 0 some_tests refl

poll-IsComplete_example : last_progress (poll (pos 60) 60 ssd_info).reports ≡ some (pos 100)
unfolding poll self_test_status lebℤ ltbℤ ◌-ℤ◌ wrap64 quot
poll-IsComplete_example = poll-IsComplete (pos 60) 60 ssd_info refl

-- the test of one minute, queried every five seconds
abbrev twelve : List Event
twelve =
    tick (ok ssd_info)
    ∷ tick (ok ssd_info)
    ∷ tick (ok ssd_info)
    ∷ tick (ok ssd_info)
    ∷ tick (ok ssd_info)
    ∷ tick (ok ssd_info)
    ∷ tick (ok ssd_info)
    ∷ tick (ok ssd_info)
    ∷ tick (ok ssd_info)
    ∷ tick (ok ssd_info)
    ∷ tick (ok ssd_info)
    ∷ tick (ok ssd_info)
    ∷ []

reporting : Reports ssd_info
reporting = by_ata running_status (unfold self_test_status in refl)

all_reporting : AllReport twelve
all_reporting = one_tick _ _ reporting (
    one_tick _ _ reporting (
      one_tick _ _ reporting (
        one_tick _ _ reporting (
          one_tick _ _ reporting (
            one_tick _ _ reporting (
              one_tick _ _ reporting (
                one_tick _ _ reporting (
                  one_tick _ _ reporting (
                    one_tick _ _ reporting
                      (one_tick _ _ reporting (one_tick _ _ reporting no_event)))))))))))

watch_ends_example : (watch "short" some_tests twelve).1 ≡ returned
unfolding expected_minutes poll_interval_secs lookup ltbℤ wrap64 quot
watch_ends_example =
    watch_ends "short" some_tests twelve (unfold contains in refl) all_reporting (ground arith)
      (ground arith)

abbrev two_silent : List Event
two_silent = tick (err (exit_error (pos 1))) ∷ tick (ok zero_info) ∷ []

watch_never_ends_example :
    ((watch "short" some_tests two_silent).1 ≡ waiting)
    ⊎ ((total_secs (expected_minutes "short" some_tests.durations) ≡ pos 0)
        × ((watch "short" some_tests two_silent).1 ≡ crashed))
watch_never_ends_example = watch_never_ends "short" some_tests two_silent (
    AllSilent.one_tick _ _ (failing (exit_error (pos 1))) (
      AllSilent.one_tick _ _ (nothing_said zero_info (unfold self_test_status in refl) refl refl)
        AllSilent.no_event))

-- a duration of 2^62 minutes is 0 seconds as an int
crash_test :
    (watch "short" (record some_tests { durations = ("short", pos (2 ^ 62)) ∷ [] }) two_silent).1
    ≡ crashed
unfolding watch lookup ltbℤ eqbℤ wrap64 quot
crash_test = refl

is_smart_supported-no_panic_example :
    (is_smart_supported (exec_backend (always (printed "ssd"))) "/dev/sda" known).0 ≢ err panic
is_smart_supported-no_panic_example =
    is_smart_supported-no_panic (always (printed "ssd")) "/dev/sda" known
