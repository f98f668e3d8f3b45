-- ===== src/Client/Progress.antt =====
-- client.go: `RunSelfTestWithProgress`. The part that returns to the caller is a function of the state; the
-- goroutine is a loop over what its `select` receives, with what the callback is told. Where the
-- callback is nil the loop is the same and nothing is told.
pub mod Start
pub mod Finish
pub mod Watch
use smartmontools_go.Base.{
  ℕ, ◌+◌, ◌*◌, max, min, ℤ, pos, ◌-ℤ◌, wrap64, quot, ltbℤ, lebℤ, eqbℤ, pos_part, String, Bool, true,
  false, ◌&&◌, ◌||◌, not, Option, none, some, List, [], ◌∷◌, ◌++◌, GoMap, lookup, if◌then◌else◌,
  ◌==◌,
}
use smartmontools_go.Types.{SmartInfo, SelfTestInfo, StatusField, NvmeSmartTestLog, NvmeSmartHealth}
use smartmontools_go.Types.SelfTests.{contains, valid_self_test_types}
use smartmontools_go.Helpers.{self_test_status}
use smartmontools_go.Backend.State.{Err, plain, wrapped}
use smartmontools_go.Backend.Devices.{Result, ok, err}
use smartmontools_go.Backend.Commands.{invalid_test_type}
use smartmontools_go.Client.{Backend, no_such_test}

-- the map literal; a missing key is 0
unfoldable pub default_minutes : String → ℕ
default_minutes test_type =
    if test_type == "short"
    then 2
    else if test_type == "long"
    then 120
    else if test_type == "conveyance"
    then 5
    else if test_type == "offline"
    then 10
    else 0

unfoldable pub minutes_or : ℕ → Option ℤ → ℕ
minutes_or minutes none = minutes
minutes_or minutes (some duration) = if ltbℤ (pos 0) duration then pos_part duration else minutes

unfoldable pub expected_minutes : String → GoMap ℤ → ℕ
unfolding minutes_or default_minutes
expected_minutes test_type durations =
    minutes_or (default_minutes test_type) (lookup test_type durations)

-- expectedMinutes*60
unfoldable pub total_secs : ℕ → ℤ
total_secs minutes = wrap64 (pos (minutes * 60))

-- a quotient below 0 counts as 0, since the interval is 5 then as well
unfoldable pub poll_interval_secs : ℕ → ℕ
unfolding total_secs
poll_interval_secs minutes = max 5 (min 60 (pos_part (quot (total_secs minutes) (pos 24))))

-- the result of the call, and the info that the goroutine is started with, if it is
pub data Launch : Type 0 where
  started : SelfTestInfo → Launch
  failed : Err → Launch

module _ {S : Type 0} (b : Backend S) (device_path test_type : String) where
  unfoldable pub launched : SelfTestInfo → Option Err → Launch
  launched tests none = started tests
  launched tests (some e) = failed e

  -- len(selfTestInfo.Available) == 0
  unfoldable pub is_empty : List String → Bool
  is_empty [] = true
  is_empty (_ ∷ _) = false

  unfoldable pub launch_with : Result SelfTestInfo → S → Launch × S
  unfolding launched is_empty
  launch_with (err e) s = (failed (wrapped "failed to get self-test info" e ""), s)
  launch_with (ok tests) s =
      let (e, s') = b.start_test device_path test_type s in
      if is_empty tests.available
      then (failed (plain "self-tests are not supported by this device"), s)
      else if contains tests.available test_type
      then (launched tests e, s')
      else (failed (no_such_test test_type), s)

  unfoldable pub run_self_test_with_progress : S → Launch × S
  unfolding launch_with
  run_self_test_with_progress s =
      let (tests, s') = b.self_tests device_path s in
      if contains valid_self_test_types test_type
      then launch_with tests s'
      else (failed (invalid_test_type test_type), s)

-- the text that the callback gets, without the path and the test type that most of the texts name
pub data Note : Type 0 where
  test_started : Note
  error_checking : Err → Note
  ata_status : String → Note
  test_completed : Note
  test_in_progress : Note
  test_cancelled : Note

-- callback(progress, text)
pub record Report : Type 0 where
  pub progress : ℤ
  pub note : Note

-- how far a round has come: the progress, what was reported, and whether the goroutine returned
pub record Round : Type 0 where
  pub progress : ℤ
  pub reports : List Report
  pub ended : Bool

-- the elapsed time as a percentage of the expected one, at most 100; `total` is not 0
unfoldable pub time_progress : ℤ → ℕ → ℤ
time_progress total elapsed =
    let progress = quot (wrap64 (pos (elapsed * 100))) total in
    if ltbℤ (pos 100) progress then pos 100 else progress

unfoldable pub by_remaining : Option ℤ → ℤ → ℤ
by_remaining none progress = progress
by_remaining (some remaining) progress =
    let calculated = wrap64 (pos 100 -ℤ remaining) in
    if ltbℤ progress calculated then calculated else progress

unfoldable pub ata_part : Option StatusField → ℤ → Round
unfolding by_remaining
ata_part none progress = record { progress = progress; reports = []; ended = false }
ata_part (some st) progress =
    let p = by_remaining st.remaining_percent progress in
    if lebℤ st.value (pos 240) || lebℤ (pos 100) p
    then record {
      progress = p;
      reports =
          record { progress = p; note = ata_status st.string }
          ∷ record { progress = pos 100; note = ata_status st.string }
          ∷ [];
      ended = true;
    }
    else record {
      progress = p;
      reports = record { progress = p; note = ata_status st.string } ∷ [];
      ended = false;
    }

-- the last report of a test that is complete
unfoldable pub complete : Round → Round
complete r = record {
  progress = pos 100;
  reports = r.reports ++ record { progress = pos 100; note = test_completed } ∷ [];
  ended = true;
}

unfoldable pub report_progress : ℤ → Round → Round
report_progress p r = record {
  progress = p;
  reports = r.reports ++ record { progress = p; note = test_in_progress } ∷ [];
  ended = false;
}

unfoldable pub is_zero : Option ℤ → Bool
is_zero none = false
is_zero (some n) = eqbℤ n (pos 0)

unfoldable pub completion_part : Option ℤ → Round → Round
unfolding report_progress
completion_part none r = r
completion_part (some p) r = report_progress p r

unfoldable pub nvme_log_part : Option NvmeSmartTestLog → Round → Round
unfolding is_zero complete completion_part
nvme_log_part none r = r
nvme_log_part (some log) r =
    if is_zero log.current_operation then complete r else completion_part log.current_completion r

unfoldable pub nvme_health_part : Bool → Option NvmeSmartHealth → Round → Round
unfolding complete report_progress
nvme_health_part time_over none r = r
nvme_health_part time_over (some h) r =
    if time_over then complete r else report_progress r.progress r

-- what follows in a round, unless the goroutine has returned
unfoldable pub unless_ended : (Round → Round) → Round → Round
unless_ended f r = if r.ended then r else f r

-- a tick at which the query succeeds, `elapsed` counting this interval
unfoldable pub poll : ℤ → ℕ → SmartInfo → Round
unfolding time_progress ata_part nvme_log_part nvme_health_part unless_ended
poll total elapsed i =
    unless_ended (nvme_health_part (lebℤ total (pos elapsed)) i.nvme_smart_health) (
      unless_ended (nvme_log_part i.nvme_smart_test_log)
        (ata_part (self_test_status i) (time_progress total elapsed)))

-- what the `select` receives: a tick with the answer to its query, or the end of the context
pub data Event : Type 0 where
  tick : Result SmartInfo → Event
  done : Event

-- What has become of the goroutine by the end of the events: it waits for another, it has returned, or
-- a division by an expected time of 0 has panicked.
pub data Ending : Type 0 where
  waiting returned crashed : Ending

-- the reports and the ending
unfoldable pub loop : ℤ → ℕ → ℕ → List Event → List Report × Ending
unfolding poll
loop total interval elapsed [] = ([], waiting)
loop total interval elapsed (done ∷ _) =
    (record { progress = pos 0; note = test_cancelled } ∷ [], returned)
loop total interval elapsed (tick (err e) ∷ events) =
    let later = elapsed + interval in
    let (reports, ending) = loop total interval later events in
    if eqbℤ total (pos 0) then ([], crashed) else (
      record { progress = time_progress total later; note = error_checking e } ∷ reports,
      ending,
    )
loop total interval elapsed (tick (ok i) ∷ events) =
    let later = elapsed + interval in
    let r = poll total later i in
    let (reports, ending) = loop total interval later events in
    if eqbℤ total (pos 0)
    then ([], crashed)
    else if r.ended
    then (r.reports, returned)
    else (r.reports ++ reports, ending)

-- the goroutine
unfoldable pub watch : String → SelfTestInfo → List Event → List Report × Ending
unfolding loop expected_minutes poll_interval_secs total_secs
watch test_type tests events =
    let minutes = expected_minutes test_type tests.durations in
    let (reports, ending) = loop (total_secs minutes) (poll_interval_secs minutes) 0 events in
    (record { progress = pos 0; note = test_started } ∷ reports, ending)
