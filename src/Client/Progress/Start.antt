-- ===== src/Client/Progress/Start.antt =====
-- When a self-test is started, and the numbers with which its progress is watched.
use mathlib.Core.Path.{subst}
use smartmontools_go.Base.{
  ℕ, ◌≤◌, ℤ, ltbℤ, String, Bool, true, false, Option, none, some, GoMap, lookup, if◌then◌else◌, ◌≡◌,
  refl, arith, eq_iff, Bool-cases, inl, inr,
}
use smartmontools_go.Types.{SelfTestInfo}
use smartmontools_go.Types.SelfTests.{contains, valid_self_test_types}
use smartmontools_go.Backend.State.{Err}
use smartmontools_go.Backend.Devices.{Result, ok, err}
use smartmontools_go.Client.{Backend}
use smartmontools_go.Client.Progress.{
  default_minutes, minutes_or, expected_minutes, poll_interval_secs, Launch, started, failed,
  launched, is_empty, launch_with, run_self_test_with_progress,
}

default_minutes-pos : (t : String) → contains valid_self_test_types t ≡ true → 1 ≤ default_minutes t
unfolding default_minutes contains
default_minutes-pos t h = ground (
  arith,
  eq_iff t "short",
  eq_iff "short" t,
  eq_iff t "long",
  eq_iff "long" t,
  eq_iff t "conveyance",
  eq_iff "conveyance" t,
  eq_iff t "offline",
  eq_iff "offline" t,
)

minutes_or-pos : (m : ℕ) (d : Option ℤ) → 1 ≤ m → 1 ≤ minutes_or m d
unfolding minutes_or ltbℤ
minutes_or-pos m none h = h
minutes_or-pos m (some d) h = ground arith

-- For a valid test type, whatever durations the device reports, the expected time is at least a minute,
-- and the queries are between 5 and 60 seconds apart.
pub expected_minutes_bounds :
    (test_type : String) (durations : GoMap ℤ)
    → contains valid_self_test_types test_type ≡ true
    → let minutes = expected_minutes test_type durations in
      (1 ≤ minutes) × ((5 ≤ poll_interval_secs minutes) × (poll_interval_secs minutes ≤ 60))
expected_minutes_bounds t d h = (
  unfold expected_minutes in
      minutes_or-pos (default_minutes t) (lookup t d) (default_minutes-pos t h),
  (interval_low (expected_minutes t d), interval_high (expected_minutes t d)),
)
  where
    interval_low : (m : ℕ) → 5 ≤ poll_interval_secs m
    interval_low m = unfold poll_interval_secs in omega arith

    interval_high : (m : ℕ) → poll_interval_secs m ≤ 60
    interval_high m = unfold poll_interval_secs in omega arith

module _ {S : Type 0} (b : Backend S) (path test_type : String) where
  abbrev Sound : Result SelfTestInfo → S → Launch → Type 0
  Sound r s (started tests) =
      (contains valid_self_test_types test_type ≡ true)
      × ((r ≡ ok tests)
          × ((contains tests.available test_type ≡ true)
              × ((b.start_test path test_type s).0 ≡ none)))
  Sound r s (failed e) = Unit

  launched-Sound :
      (tests : SelfTestInfo) (e : Option Err) (s : S)
      → contains valid_self_test_types test_type ≡ true
      → contains tests.available test_type ≡ true
      → (b.start_test path test_type s).0 ≡ e
      → Sound (ok tests) s (launched b path test_type tests e)
  launched-Sound tests none s v h k = unfold launched in (v, (refl, (h, k)))
  launched-Sound tests (some e) s v h k = unfold launched in tt

  if_Sound :
      (r : Result SelfTestInfo) (s : S) (c : Bool) (x y : Launch × S)
      → (c ≡ true → Sound r s x.0)
      → (c ≡ false → Sound r s y.0)
      → Sound r s (if◌then◌else◌ {A = Launch × S} c x y).0
  if_Sound r s true x y h k = h refl
  if_Sound r s false x y h k = k refl

  launch_with-Sound :
      (r : Result SelfTestInfo) (s : S)
      → contains valid_self_test_types test_type ≡ true
      → Sound r s (launch_with b path test_type r s).0
  launch_with-Sound (err e) s v = unfold launch_with in tt
  launch_with-Sound (ok tests) s v = elim (Bool-cases (is_empty b path test_type tests.available)) [
    | inl e ↦ unfold launch_with in rw e tt
    | inr e ↦
        unfold launch_with in
        rw e (
          if_Sound (ok tests) s (contains tests.available test_type) _ (_, s)
            (λ c. launched-Sound tests _ s v c refl) (λ c. tt))
  ]

  launch-Sound :
      (s : S)
      → Sound
          (b.self_tests path s).0
          (b.self_tests path s).1
          (run_self_test_with_progress b path test_type s).0
  launch-Sound s = elim (Bool-cases (contains valid_self_test_types test_type)) [
    | inl v ↦
        unfold run_self_test_with_progress in
        rw v (launch_with-Sound (b.self_tests path s).0 (b.self_tests path s).1 v)
    | inr v ↦ unfold run_self_test_with_progress in rw v tt
  ]

  -- The progress of a test is watched only if its type is valid, the backend offers it for the device, and
  -- the backend started it.
  pub run_self_test_with_progress_started :
      (s : S) (tests : SelfTestInfo)
      → (run_self_test_with_progress b path test_type s).0 ≡ started tests
      → (contains valid_self_test_types test_type ≡ true)
        × (((b.self_tests path s).0 ≡ ok tests)
            × ((contains tests.available test_type ≡ true)
                × ((b.start_test path test_type (b.self_tests path s).1).0 ≡ none)))
  run_self_test_with_progress_started s tests h =
      subst (Sound (b.self_tests path s).0 (b.self_tests path s).1) h (launch-Sound s)
