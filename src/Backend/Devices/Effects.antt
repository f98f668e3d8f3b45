-- ===== src/Backend/Devices/Effects.antt =====
-- What a scan and a discovery do to the state: a scan keeps every cached type and starts two commands
-- at most; a discovery may put "sat" in the place of a type, and starts four more for each device.
use smartmontools_go.Base.{
  ℕ, ◌+◌, ◌*◌, ◌≤◌, String, Bool, Option, none, some, List, [], ◌∷◌, ◌≡◌, refl, arith, ap, length,
  ◌==◌, inl, inr, Bool-cases,
}
use smartmontools_go.Types.{Device, SmartInfo, DiscoveryResult}
use smartmontools_go.Backend.State.{
  Env, State, Call, Err, output, log, command, set_cached_device_type,
}
use smartmontools_go.Backend.State.Cache.{Keeps-refl, Keeps-of_eq, lookup-set_cached_device_type}
use smartmontools_go.Backend.State.Effects.{
  Within, Within-refl, Within-trans, Within-weaken, Settles, Settles-of_Keeps, Settles-trans,
  log-Within, command-Within,
}
use smartmontools_go.Backend.Retry.{retry_with_device_type}
use smartmontools_go.Backend.Retry.Accepts.{retry_with_device_type-effect, types_after}
use smartmontools_go.Backend.Info.{get_smart_info_internal}
use smartmontools_go.Backend.Info.Effects.{get_smart_info_internal-effect}
use smartmontools_go.Backend.Devices.{
  Result, ok, err, cache_devices, scan_parse, scan_second, scan_fallback, scan_open_failed,
  scan_first, scan_devices, usable, probe_sat, probe_dispatch, probe, probe_all, discover_scanned,
  discover_devices,
}
use smartmontools_go.Backend.Devices.Scan.{cache_devices-Keeps, cache_devices-calls}

-- a step that may also put "sat" in the place of a type
pub record Settling (n : ℕ) (s t : State) : Type 0 where
  pub settles : Settles s t
  pub calls : length t.calls ≤ n + length s.calls

Settling-of_Within : {n : ℕ} {s t : State} → Within n s t → Settling n s t
Settling-of_Within h = record { settles = Settles-of_Keeps h.keeps; calls = h.calls }

Settling-trans : (m n : ℕ) {s t u : State} → Settling m s t → Settling n t u → Settling (m + n) s u
Settling-trans m n h k = record {
  settles = Settles-trans h.settles k.settles;
  calls = omega (arith, h.calls, k.calls);
}

cache_devices-Within : (ds : List Device) (s : State) → Within 0 s (cache_devices ds s)
cache_devices-Within ds s = record {
  keeps = cache_devices-Keeps ds s;
  calls = omega (arith, ap (length {A = Call}) (cache_devices-calls ds s));
}

module _ (env : Env) where
  scan_parse-Within : (o : Option (List Device)) (s : State) → Within 0 s (scan_parse env o s).1
  unfolding scan_parse
  scan_parse-Within none s = Within-refl s
  scan_parse-Within (some ds) s = cache_devices-Within ds s

  scan_second-Within :
      (e : Option Err) (out : String) (s : State) → Within 0 s (scan_second env e out s).1
  unfolding scan_second
  scan_second-Within none out s = scan_parse-Within (env.unmarshal_scan out) s
  scan_second-Within (some e) out s = Within-refl s

  scan_fallback-Within : (s : State) → Within 1 s (scan_fallback env s).1
  scan_fallback-Within s =
      let args : List String = "--scan" ∷ "--json" ∷ [] in
      let (reply, s') = command env output args s in
      unfold scan_fallback in
      Within-trans 1 0 (command-Within env output args s)
        (scan_second-Within reply.err reply.out s')

  scan_first-Within :
      (e : Option Err) (out : String) (s : State) → Within 1 s (scan_first env e out s).1
  scan_first-Within none out s =
      unfold scan_first in
      Within-weaken (omega arith) (scan_parse-Within (env.unmarshal_scan out) s)
  scan_first-Within (some e) out s =
      unfold scan_first in
      Within-trans 0 1 (log-Within (scan_open_failed e) s)
        (scan_fallback-Within (log (scan_open_failed e) s))

  pub scan_devices-Within : (s : State) → Within 2 s (scan_devices env s).1
  scan_devices-Within s =
      let args : List String = "--scan-open" ∷ "--json" ∷ [] in
      let (reply, s') = command env output args s in
      unfold scan_devices in
      Within-trans 1 1 (command-Within env output args s) (scan_first-Within reply.err reply.out s')

  set_sat-Settles : (path : String) (s : State) → Settles s (set_cached_device_type path "sat" s)
  set_sat-Settles path s = record {
    at = λ key device_type h. elim (Bool-cases (path == key)) [
      | inl same ↦ inr (rw (lookup-set_cached_device_type path "sat" key s, same) refl)
      | inr other ↦ inl (rw (lookup-set_cached_device_type path "sat" key s, other) h)
    ];
  }

  types_after-Settles :
      (path : String) (o : Option SmartInfo) (s : State) → Settles s (types_after path "sat" o s)
  types_after-Settles path none s = Settles-of_Keeps (Keeps-refl s)
  types_after-Settles path (some i) s = set_sat-Settles path s

  probe_sat-state : (dev : Device) (p : Option SmartInfo × State) → (probe_sat env dev p).1 ≡ p.1
  unfolding probe_sat
  probe_sat-state dev (none, s) = refl
  probe_sat-state dev (some i, s) = refl

  retry_sat-Settling :
      (path : String) (s : State) → Settling 1 s (retry_with_device_type env path "sat" s).1
  retry_sat-Settling path s =
      let (o, t) = retry_with_device_type env path "sat" s in
      let h = retry_with_device_type-effect env path "sat" s in
      record {
        settles = Settles-trans (types_after-Settles path o s) (Settles-of_Keeps (Keeps-of_eq h.0));
        calls = omega (arith, ap (length {A = Call}) h.1);
      }

  probe_dispatch-Settling :
      (dev : Device) (sat : Bool) (o : Option SmartInfo) (s : State)
      → Settling 1 s (probe_dispatch env dev sat o s).1
  probe_dispatch-Settling dev sat (some i) s =
      unfold probe_dispatch in Settling-of_Within (Within-weaken (omega arith) (Within-refl s))
  probe_dispatch-Settling dev sat none s =
      unfold probe_dispatch in
      rw (probe_sat-state dev (retry_with_device_type env dev.name "sat" s))
        (retry_sat-Settling dev.name s)

  query-Within : (path : String) (s : State) → Within 3 s (get_smart_info_internal env path s).1
  query-Within path s =
      let (keeps, calls) = get_smart_info_internal-effect env path s in
      record { keeps = record { at = keeps }; calls = calls }

  probe-Settling : (dev : Device) (s : State) → Settling 4 s (probe env dev s).1
  probe-Settling dev s =
      let (answer, s') = get_smart_info_internal env dev.name s in
      unfold probe in
      Settling-trans 3 1 (Settling-of_Within (query-Within dev.name s))
        (probe_dispatch-Settling dev answer.sat_fallback (usable answer) s')

  probe_all-Settling :
      (devs : List Device) (s : State)
      → Settling (4 * length (probe_all env devs s).0) s (probe_all env devs s).1
  unfolding probe_all
  probe_all-Settling [] s = Settling-of_Within (Within-refl s)
  probe_all-Settling (dev ∷ devs) s =
      let s1 = (probe env dev s).1 in
      let h =
        Settling-trans 4 (4 * length (probe_all env devs s1).0) (probe-Settling dev s)
          (probe_all-Settling devs s1) in
      record { settles = h.settles; calls = omega (arith, h.calls) }

-- the number of results of a discovery
abbrev pub found_count : Result (List DiscoveryResult) → ℕ
found_count (ok rs) = length rs
found_count (err e) = 0

module _ (env : Env) where
  discover_scanned-Settling :
      (r : Result (List Device)) (s : State)
      → let (found, t) = discover_scanned env r s in Settling (4 * found_count found) s t
  unfolding discover_scanned
  discover_scanned-Settling (err e) s = Settling-of_Within (Within-refl s)
  discover_scanned-Settling (ok devs) s = probe_all-Settling env devs s

  pub discover_devices-Settling :
      (s : State)
      → let (found, t) = discover_devices env s in Settling (2 + 4 * found_count found) s t
  discover_devices-Settling s =
      let (r, s') = scan_devices env s in
      let n = found_count (discover_scanned env r s').0 in
      unfold discover_devices in
      Settling-trans 2 (4 * n) (Settling-of_Within (scan_devices-Within env s))
        (discover_scanned-Settling r s')
