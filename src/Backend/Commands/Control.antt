-- ===== src/Backend/Commands/Control.antt =====
-- The operations that change a device: which commands they start, and when they refuse.
use smartmontools_go.Base.{
  Bool-cases, Option-cases, ◌⊎◌, inl, inr, String, true, false, Option, none, some, [], ◌∷◌, ◌≡◌,
  ◌≢◌, refl, arith, is_some,
}
use smartmontools_go.Text.{to_lower}
use smartmontools_go.Types.{SmartInfo}
use smartmontools_go.Types.SelfTests.{valid_self_test_types, contains}
use smartmontools_go.Helpers.{determine_disk_type}
use smartmontools_go.Backend.State.{
  Env, State, Err, wrapped, panic, Call, run, command, get_cached_device_type,
}
use smartmontools_go.Backend.Info.{get_smart_info}
use smartmontools_go.Backend.Info.Result.{get_smart_info_internal-info}
use smartmontools_go.Backend.Commands.{
  run_failed, second_output, nvme_disable_error, run_suffix, invalid_test_type, run_self_test,
  disable_run, disable_checked, disable_probed, disable_by, disable_smart, done,
}

-- the command that starts a self-test
abbrev pub self_test_call : String → String → State → Call
self_test_call path test_type s = record {
  method = run;
  name = s.smartctl_path;
  args = "-t" ∷ test_type ∷ path ∷ [];
}

done-no_panic : (message : String) (e : Option Err) → done message e ≢ some panic
unfolding done
done-no_panic message none h = cc
done-no_panic message (some e) h = cc

module _ (env : Env) (path : String) where
  -- A test type that is not one of the four is refused, and no command is started. One of the four is
  -- handed to smartctl: the call succeeds, with that one command, if the command does, and else it
  -- returns an error that wraps the command's.
  pub run_self_test-guard :
      (test_type : String) (s : State)
      → let valid = contains valid_self_test_types test_type in
        let call = self_test_call path test_type s in
        ((valid ≡ false)
          × (run_self_test env path test_type s ≡ (some (invalid_test_type test_type), s)))
        ⊎ ((valid ≡ true)
            × ((env.respond s.calls call).err ≡ none)
            × (run_self_test env path test_type s ≡ (none, record s { calls = call ∷ s.calls })))
        ⊎ ((e : Err) × (suffix : String) × (valid ≡ true)
            × ((env.respond s.calls call).err ≡ some e)
            × ((run_self_test env path test_type s).0
                ≡ some (wrapped "failed to run self-test" e suffix)))
  unfolding run_self_test command run_failed
  run_self_test-guard test_type s = elim (Bool-cases (contains valid_self_test_types test_type)) [
    | inl valid ↦ (elim (Option-cases (env.respond s.calls (self_test_call path test_type s)).err) [
      | inl no_error ↦ inr (inl (valid, no_error, rw (valid, no_error) refl))
      | inr (e, failed) ↦ inr (
          inr (
            e,
            run_suffix path test_type
                (second_output env (self_test_call path test_type s).args e
                  (record s { calls = self_test_call path test_type s ∷ s.calls })).0,
            valid,
            failed,
            rw (valid, failed) refl,
          ))
    ])
    | inr other ↦ inl (other, rw other refl)
  ]

  -- Disabling SMART on a device whose cached type is nvme, in any case of letters, is refused, and no
  -- command is started.
  disable_smart-nvme :
      (device_type : String) (s : State)
      → get_cached_device_type path s ≡ some device_type
      → to_lower device_type ≡ "nvme"
      → disable_smart env path s ≡ (some nvme_disable_error, s)
  disable_smart-nvme device_type s cached h = unfold disable_smart disable_by in rw (cached, h)

  -- Where no type is cached, disabling SMART on a device that the query shows to be an NVMe one is
  -- refused, and no command is started behind the query.
  disable_smart-nvme_probed :
      (i : SmartInfo) (s : State)
      → get_cached_device_type path s ≡ none
      → (get_smart_info env path s).0.err ≡ none
      → (get_smart_info env path s).0.smart_info ≡ some i
      → determine_disk_type i ≡ "NVMe"
      → disable_smart env path s ≡ (some nvme_disable_error, (get_smart_info env path s).1)
  disable_smart-nvme_probed i s cold e p h =
      unfold disable_smart disable_by in rw cold (rw (e, p) (unfold disable_probed in rw h))

  disable_run-no_panic : (s : State) → (disable_run env path s).0 ≢ some panic
  unfolding disable_run
  disable_run-no_panic s h =
      done-no_panic "failed to disable SMART" (command env run ("-s" ∷ "off" ∷ path ∷ []) s).0.err h

  disable_checked-no_panic :
      (i : SmartInfo) (s : State) → (disable_checked env path i s).0 ≢ some panic
  unfolding disable_checked
  disable_checked-no_panic i s h = ground (arith, disable_run-no_panic s)

  disable_probed-no_panic :
      (e : Option Err) (o : Option SmartInfo) (s : State)
      → (e ≡ none → is_some o ≡ true)
      → (disable_probed env path e o s).0 ≢ some panic
  disable_probed-no_panic (some e) o s k h = unfold disable_probed in cc
  disable_probed-no_panic none none s k h = absurd (let q : false ≡ true = k refl in cc)
  disable_probed-no_panic none (some i) s k h =
      disable_checked-no_panic i s (unfold disable_probed in h)

  disable_by-no_panic :
      (cached : Option String) (s : State) → (disable_by env path cached s).0 ≢ some panic
  disable_by-no_panic (some t) s h = unfold disable_by in ground (arith, disable_run-no_panic s)
  disable_by-no_panic none s h =
      let (answer, s') = get_smart_info env path s in
      unfold disable_by in
      disable_probed-no_panic answer.err answer.smart_info s'
        (unfold get_smart_info in get_smart_info_internal-info env path s) h

  -- Disabling SMART never reads through a nil info.
  pub disable_smart-no_panic : (s : State) → (disable_smart env path s).0 ≢ some panic
  disable_smart-no_panic s =
      unfold disable_smart in disable_by-no_panic (get_cached_device_type path s) s
