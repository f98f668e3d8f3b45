-- ===== src/Client/Progress/Watch.antt =====
-- Whether the watching goroutine ends.
use mathlib.Core.Path.{subst}
use smartmontools_go.Base.{
  ltb→lt, ℕ, ◌+◌, ◌*◌, ◌^◌, ◌≤◌, ◌<◌, ltb, ℤ, pos, eqbℤ, eqbℤ_iff, wrap64_small, String, true,
  false, none, List, [], ◌∷◌, length, ◌≡◌, ◌⊎◌, refl, sym, ◌∙◌, inl, inr, arith, Bool-cases,
}
use smartmontools_go.Types.{SmartInfo, SelfTestInfo}
use smartmontools_go.Types.SelfTests.{contains, valid_self_test_types}
use smartmontools_go.Helpers.{self_test_status}
use smartmontools_go.Backend.State.{Err}
use smartmontools_go.Backend.Devices.{ok, err}
use smartmontools_go.Client.Progress.{
  ata_part, nvme_log_part, nvme_health_part, unless_ended, poll, Event, tick, Ending, waiting,
  returned, crashed, loop, watch, expected_minutes, total_secs, poll_interval_secs,
}
use smartmontools_go.Client.Progress.Start.{expected_minutes_bounds}
use smartmontools_go.Client.Progress.Finish.{Reports, poll-over}

-- every event is a tick whose query succeeds and reports on the test
pub data AllReport : List Event → Type 0 where
  no_event : AllReport []
  one_tick :
      (i : SmartInfo) (events : List Event)
      → Reports i
      → AllReport events
      → AllReport (tick (ok i) ∷ events)

module _ (total interval : ℕ) where
  not_zero : 0 < total → eqbℤ (pos total) (pos 0) ≡ false
  unfolding eqbℤ
  not_zero z = ground arith

  still_early :
      (later : ℕ) (i : SmartInfo)
      → 0 < total
      → later * 100 < 2 ^ 63
      → Reports i
      → (poll (pos total) later i).ended ≡ false
      → later < total
  still_early later i z fits r e = elim (Bool-cases (ltb later total)) [
    | inl h ↦ ltb→lt later total h
    | inr h ↦ absurd (
        let q : true ≡ false =
          sym (poll-over total later i z (omega (arith, not_lt h)) fits r) ∙ e in
        cc)
  ]
    where
      not_lt : ltb later total ≡ false → total ≤ later
      not_lt h = ground arith

  loop-ends :
      (elapsed : ℕ) (events : List Event)
      → AllReport events
      → interval ≤ 60
      → (total + 60) * 100 < 2 ^ 63
      → elapsed < total
      → total ≤ elapsed + length events * interval
      → (loop (pos total) interval elapsed events).1 ≡ returned
  unfolding loop
  loop-ends elapsed _ no_event i fits low high = absurd (omega arith)
  loop-ends elapsed _ (one_tick i events r rs) short fits low high =
      rw (not_zero (omega arith))
        (elim (Bool-cases (poll (pos total) (elapsed + interval) i).ended) [
          | inl e ↦ rw e refl
          | inr e ↦ rw e (
              loop-ends (elapsed + interval) events rs short fits
                (still_early (elapsed + interval) i (omega arith) (omega arith) r e) (omega arith))
        ])

from_zero : {a b : ℕ} → a ≤ b → a ≤ 0 + b
from_zero h = omega (arith, h)

-- Once the queries since the start span the expected time, the goroutine has returned, if every one of
-- them succeeds and reports on an ATA self-test or has NVMe health data, for an expected time below 2^50
-- minutes, whose seconds fit in an int a hundred times.
pub watch_ends :
    (test_type : String) (tests : SelfTestInfo) (events : List Event)
    → contains valid_self_test_types test_type ≡ true
    → AllReport events
    → expected_minutes test_type tests.durations < 2 ^ 50
    → expected_minutes test_type tests.durations * 60
      ≤ length events * poll_interval_secs (expected_minutes test_type tests.durations)
    → (watch test_type tests events).1 ≡ returned
watch_ends t tests events v rs fits h =
    let m = expected_minutes t tests.durations in
    let (positive, (_, short)) = expected_minutes_bounds t tests.durations v in
    let seconds : total_secs m ≡ pos (m * 60) =
      unfold total_secs in wrap64_small (m * 60) (omega arith) in
    unfold watch in
    subst (λ (n : ℤ). (loop n (poll_interval_secs m) 0 events).1 ≡ returned) (sym seconds)
      (loop-ends (m * 60) (poll_interval_secs m) 0 events rs short (omega arith)
        (omega (arith, positive)) (from_zero h))

-- a tick whose query fails, or whose info says nothing of a self-test and is not an NVMe one
pub data Silent : Event → Type 0 where
  failing : (e : Err) → Silent (tick (err e))
  nothing_said :
      (i : SmartInfo)
      → self_test_status i ≡ none
      → i.nvme_smart_test_log ≡ none
      → i.nvme_smart_health ≡ none
      → Silent (tick (ok i))

pub data AllSilent : List Event → Type 0 where
  no_event : AllSilent []
  one_tick :
      (e : Event) (events : List Event) → Silent e → AllSilent events → AllSilent (e ∷ events)

poll-silent :
    (total : ℤ) (elapsed : ℕ) (i : SmartInfo)
    → self_test_status i ≡ none
    → i.nvme_smart_test_log ≡ none
    → i.nvme_smart_health ≡ none
    → (poll total elapsed i).ended ≡ false
poll-silent total elapsed i s l h =
    unfold poll in
    rw (s, l, h) (unfold ata_part nvme_log_part nvme_health_part unless_ended in refl)

-- the goroutine waits, or the expected time is 0 and it has crashed
abbrev StillThere : ℤ → Ending → Type 0
StillThere total ending = (ending ≡ waiting) ⊎ ((total ≡ pos 0) × (ending ≡ crashed))

loop-silent :
    (total : ℤ) (interval elapsed : ℕ) (events : List Event)
    → AllSilent events
    → StillThere total (loop total interval elapsed events).1
unfolding loop
loop-silent total interval elapsed _ no_event = inl refl
loop-silent total interval elapsed _ (one_tick _ events (failing e) rs) =
    elim (Bool-cases (eqbℤ total (pos 0))) [
      | inl z ↦ inr ((eqbℤ_iff total (pos 0)).0 z, rw z refl)
      | inr z ↦ rw z (loop-silent total interval (elapsed + interval) events rs)
    ]
loop-silent total interval elapsed _ (one_tick _ events (nothing_said i s l h) rs) =
    elim (Bool-cases (eqbℤ total (pos 0))) [
      | inl z ↦ inr ((eqbℤ_iff total (pos 0)).0 z, rw z refl)
      | inr z ↦
          rw (z, poll-silent total (elapsed + interval) i s l h)
            (loop-silent total interval (elapsed + interval) events rs)
    ]

-- The watch of a device that reports on no self-test and is no NVMe one does not end of itself, however
-- many queries are made: the goroutine waits on, unless the expected time in seconds is 0 as an int, in
-- which case it may have panicked.
pub watch_never_ends :
    (test_type : String) (tests : SelfTestInfo) (events : List Event)
    → AllSilent events
    → ((watch test_type tests events).1 ≡ waiting)
      ⊎ ((total_secs (expected_minutes test_type tests.durations) ≡ pos 0)
          × ((watch test_type tests events).1 ≡ crashed))
watch_never_ends t tests events h =
    let m = expected_minutes t tests.durations in
    unfold watch in loop-silent (total_secs m) (poll_interval_secs m) 0 events h
