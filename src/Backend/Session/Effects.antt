-- ===== src/Backend/Session/Effects.antt =====
-- What each operation of a session leaves of the cached device types, and how many commands it starts.
use smartmontools_go.Base.{
  ℕ, ◌+◌, ◌*◌, ◌≤◌, String, true, false, some, List, [], ◌∷◌, ◌≡◌, ◌⊎◌, inl, inr, refl, arith,
  length,
}
use smartmontools_go.Backend.State.{Env, State, get_cached_device_type, set_cached_device_type}
use smartmontools_go.Backend.State.Cache.{lookup-set_cached_device_type}
use smartmontools_go.Backend.State.Effects.{Within}
use smartmontools_go.Backend.Devices.Effects.{
  scan_devices-Within, discover_devices-Settling, found_count,
}
use smartmontools_go.Backend.Commands.Effects.{
  check_health-Within, get_device_info-Within, get_available_self_tests-Within,
  run_self_test-Within, enable_smart-Within, disable_smart-Within, abort_self_test-Within,
  get_smart_info-Within,
}
use smartmontools_go.Backend.Session.{
  Op, name_op, path_op, close_op, scan_op, discover_op, set_hint, hint, info, health, device_info,
  self_tests, enable, disable, abort, start_test, Outcome, text, devices, discovered, hinted,
  answered, healthy, described, tests, started, disabled, ended, nothing, tagged, perform, hints,
  discovers, set_device_type_hint,
}

-- the most commands that an operation starts, by what it returned
abbrev pub cost : Outcome → ℕ
cost (text _) = 0
cost (devices _) = 2
cost (discovered r) = 2 + 4 * found_count r
cost (hinted _) = 0
cost (answered _) = 3
cost (healthy _) = 1
cost (described _) = 1
cost (tests _) = 1
cost (started _) = 2
cost (disabled _) = 4
cost (ended _) = 1
cost nothing = 0

abbrev pub total_cost : List Outcome → ℕ
total_cost [] = 0
total_cost (o ∷ os) = cost o + total_cost os

-- what one operation does to the type of one path
abbrev pub Kept : Op → String → String → State → Type 0
Kept op path device_type t =
    (get_cached_device_type path t ≡ some device_type)
    ⊎ ((discovers op ≡ true) × (get_cached_device_type path t ≡ some "sat"))

pub record Effect (op : Op) (s : State) (r : Outcome × State) : Type 0 where
  pub kept :
      (path device_type : String)
      → hints path op ≡ false
      → get_cached_device_type path s ≡ some device_type
      → Kept op path device_type r.1
  pub calls : length r.1.calls ≤ cost r.0 + length s.calls

Effect-of_Within {ℓ} :
    {A : Type ℓ} {n : ℕ} {op : Op} {s : State} (f : A → Outcome) (r : A × State)
    → cost (f r.0) ≡ n
    → Within n s r.1
    → Effect op s (tagged f r)
unfolding tagged
Effect-of_Within f (a, t) e h = record {
  kept = λ path device_type _ c. inl (h.keeps.at path device_type c);
  calls = omega (arith, h.calls, e);
}

Effect-still : {op : Op} {s : State} (o : Outcome) → Effect op s (o, s)
Effect-still o = record { kept = λ path device_type _ c. inl c; calls = omega arith }

Effect-hint :
    (path device_type : String) (s : State)
    → Effect (set_hint path device_type) s (nothing, set_device_type_hint path device_type s)
unfolding set_device_type_hint hints
Effect-hint path device_type s = record {
  kept = λ key other h c. inl (rw (lookup-set_cached_device_type path device_type key s, h) c);
  calls = unfold set_cached_device_type in omega arith;
}

module _ (env : Env) where
  Effect-discover : (s : State) → Effect discover_op s (perform env discover_op s)
  unfolding perform tagged discovers
  Effect-discover s =
      let h = discover_devices-Settling env s in
      record {
        kept = λ path device_type _ c. elim (h.settles.at path device_type c) [
          | inl same ↦ inl same
          | inr sat ↦ inr (refl, sat)
        ];
        calls = h.calls;
      }

  pub perform-Effect : (op : Op) (s : State) → Effect op s (perform env op s)
  perform-Effect name_op s = unfold perform in Effect-still _
  perform-Effect path_op s = unfold perform in Effect-still _
  perform-Effect close_op s = unfold perform in Effect-still _
  perform-Effect scan_op s =
      unfold perform in Effect-of_Within devices _ refl (scan_devices-Within env s)
  perform-Effect discover_op s = Effect-discover s
  perform-Effect (set_hint path device_type) s = unfold perform in Effect-hint path device_type s
  perform-Effect (hint path) s = unfold perform in Effect-still _
  perform-Effect (info path) s =
      unfold perform in Effect-of_Within answered _ refl (get_smart_info-Within env path s)
  perform-Effect (health path) s =
      unfold perform in Effect-of_Within healthy _ refl (check_health-Within env path s)
  perform-Effect (device_info path) s =
      unfold perform in Effect-of_Within described _ refl (get_device_info-Within env path s)
  perform-Effect (self_tests path) s =
      unfold perform in Effect-of_Within tests _ refl (get_available_self_tests-Within env path s)
  perform-Effect (enable path) s =
      unfold perform in Effect-of_Within ended _ refl (enable_smart-Within env path s)
  perform-Effect (disable path) s =
      unfold perform in Effect-of_Within disabled _ refl (disable_smart-Within env path s)
  perform-Effect (abort path) s =
      unfold perform in Effect-of_Within ended _ refl (abort_self_test-Within env path s)
  perform-Effect (start_test path test_type) s =
      unfold perform in Effect-of_Within started _ refl (run_self_test-Within env path test_type s)
