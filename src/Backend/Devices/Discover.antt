-- ===== src/Backend/Devices/Discover.antt =====
-- What the results of a discovery say.
use smartmontools_go.Base.{
  String, Bool, true, false, Option, none, some, List, [], ◌∷◌, ◌≡◌, ◌⊎◌, inl, inr, refl, sym, ◌∙◌,
  arith, Option-cases, ◌==◌, if◌then◌else◌,
}
use smartmontools_go.Types.{Device, SmartInfo, DiscoveryResult}
use smartmontools_go.Backend.State.{
  Env, State, Err, Reply, output, build_args, get_cached_device_type, wrapped,
}
use smartmontools_go.Backend.State.Cache.{command-Keeps}
use smartmontools_go.Backend.Retry.{retry_with_device_type}
use smartmontools_go.Backend.Info.{Answer, answer_named, get_smart_info_internal}
use smartmontools_go.Backend.Info.Ends.{
  Bridged, no_bridge, bridge_read, bridge_failed, Ends, read, unparsed, sat_read, standby_bare,
  standby_read, failure_read, failure_unread,
}
use smartmontools_go.Backend.Info.Rule.{asked, get_smart_info_internal-Ends}
use smartmontools_go.Helpers.{classify}
use smartmontools_go.Backend.Devices.{
  Result, ok, err, scan_devices, read_result, model_of, usable, probe_sat, probe_dispatch, probe,
  probe_all, discover_scanned, discover_devices,
}

-- the answer has an error, or no info
abbrev pub NotUsable : Answer → Type 0
NotUsable a = ((e : Err) × (a.err ≡ some e)) ⊎ ((a.err ≡ none) × (a.smart_info ≡ none))

usable-some :
    (a : Answer) {i : SmartInfo} → usable a ≡ some i → (a.err ≡ none) × (a.smart_info ≡ some i)
unfolding usable
usable-some a h = ground arith

usable-none : (a : Answer) → usable a ≡ none → NotUsable a
unfolding usable
usable-none a h = elim (Option-cases a.err) [
  | inl e ↦ inr (e, rw e at h)
  | inr (e, failed) ↦ inl (e, failed)
]

module _ (env : Env) where
  -- What a discovery reports of a device, from the state before its query to that after it: what the
  -- query found; else, where it gave no info, what a retry as "sat" found; else that the device could
  -- not be read.
  pub data Reported (dev : Device) (s : State) : DiscoveryResult → State → Type 0 where
    by_default :
        {a : Answer} {i : SmartInfo} {t : State}
        → get_smart_info_internal env dev.name s ≡ (a, t)
        → a.err ≡ none
        → a.smart_info ≡ some i
        → Reported dev s
            (record {
              device_path = dev.name;
              detected_protocol = i.device.type;
              smart_readable = true;
              sat_fallback_required = a.sat_fallback;
              model = if i.model_name == "" then i.model_family else i.model_name;
              serial = i.serial_number;
            })
            t
    by_sat :
        {a : Answer} {i : SmartInfo} {r t : State}
        → get_smart_info_internal env dev.name s ≡ (a, r)
        → NotUsable a
        → retry_with_device_type env dev.name "sat" r ≡ (some i, t)
        → Reported dev s
            (record {
              device_path = dev.name;
              detected_protocol = "sat";
              smart_readable = true;
              sat_fallback_required = true;
              model = if i.model_name == "" then i.model_family else i.model_name;
              serial = i.serial_number;
            })
            t
    unreadable :
        {a : Answer} {r t : State}
        → get_smart_info_internal env dev.name s ≡ (a, r)
        → NotUsable a
        → retry_with_device_type env dev.name "sat" r ≡ (none, t)
        → Reported dev s
            (record {
              device_path = dev.name;
              detected_protocol = dev.type;
              smart_readable = false;
              sat_fallback_required = false;
              model = "";
              serial = "";
            })
            t

  probe_sat-Reported :
      (dev : Device) (s r t : State) (a : Answer) (o : Option SmartInfo)
      → get_smart_info_internal env dev.name s ≡ (a, r)
      → NotUsable a
      → retry_with_device_type env dev.name "sat" r ≡ (o, t)
      → Reported dev s (probe_sat env dev (o, t)).0 (probe_sat env dev (o, t)).1
  unfolding probe_sat read_result model_of
  probe_sat-Reported dev s r t a none q n h = unreadable q n h
  probe_sat-Reported dev s r t a (some i) q n h = by_sat q n h

  probe_dispatch-Reported :
      (dev : Device) (s r : State) (a : Answer) (o : Option SmartInfo)
      → get_smart_info_internal env dev.name s ≡ (a, r)
      → usable a ≡ o
      → Reported dev s
          (probe_dispatch env dev a.sat_fallback o r).0
          (probe_dispatch env dev a.sat_fallback o r).1
  unfolding probe_dispatch read_result model_of
  probe_dispatch-Reported dev s r a none q u =
      probe_sat-Reported dev s r _ a _ q (usable-none a u) refl
  probe_dispatch-Reported dev s r a (some i) q u =
      let (no_error, has_info) = usable-some a u in by_default q no_error has_info

  probe-Reported :
      (dev : Device) (s : State) → Reported dev s (probe env dev s).0 (probe env dev s).1
  probe-Reported dev s =
      let (answer, s') = get_smart_info_internal env dev.name s in
      unfold probe in probe_dispatch-Reported dev s s' answer (usable answer) refl refl

  -- results and devices, one to one in order, each from the state that the one before leaves
  pub data AllReported : List Device → State → List DiscoveryResult → State → Type 0 where
    nil : {s : State} → AllReported [] s [] s
    cons :
        {dev : Device} {r : DiscoveryResult} {devs : List Device} {rs : List DiscoveryResult}
        {s t u : State}
        → Reported dev s r t
        → AllReported devs t rs u
        → AllReported (dev ∷ devs) s (r ∷ rs) u

  probe_all-AllReported :
      (devs : List Device) (s : State)
      → AllReported devs s (probe_all env devs s).0 (probe_all env devs s).1
  unfolding probe_all
  probe_all-AllReported [] s = nil
  probe_all-AllReported (dev ∷ devs) s =
      cons (probe-Reported dev s) (probe_all-AllReported devs (probe env dev s).1)

  discover_scanned-cases :
      (r : Result (List Device)) (s : State)
      → ((e : Err) × (r ≡ err e)
          × ((discover_scanned env r s).0
              ≡ err (wrapped "failed to scan devices for discovery" e "")))
        ⊎ ((devs : List Device) × (rs : List DiscoveryResult) × (r ≡ ok devs)
            × ((discover_scanned env r s).0 ≡ ok rs)
            × AllReported devs s rs (discover_scanned env r s).1)
  unfolding discover_scanned
  discover_scanned-cases (err e) s = inl (e, refl, refl)
  discover_scanned-cases (ok devs) s =
      inr (devs, (probe_all env devs s).0, refl, refl, probe_all-AllReported devs s)

  -- A discovery fails exactly as its scan does; else it has one result for each device found, in the
  -- order of the scan, each made from the state that the one before leaves: with the device's path and
  -- what its query found, if that returned an info and no error; else with what a retry as "sat" found;
  -- else the untouched result of a device that could not be read either way.
  pub discover_devices-AllReported :
      (s : State)
      → ((e : Err) × ((scan_devices env s).0 ≡ err e)
          × ((discover_devices env s).0
              ≡ err (wrapped "failed to scan devices for discovery" e "")))
        ⊎ ((devs : List Device) × (rs : List DiscoveryResult) × ((scan_devices env s).0 ≡ ok devs)
            × ((discover_devices env s).0 ≡ ok rs)
            × AllReported devs (scan_devices env s).1 rs (discover_devices env s).1)
  discover_devices-AllReported s =
      unfold discover_devices in
      discover_scanned-cases (scan_devices env s).0 (scan_devices env s).1

  answer_named-no_sat : (i : SmartInfo) → (answer_named i).sat_fallback ≡ false
  unfolding answer_named
  answer_named-no_sat i = ground arith

  Bridged-no_sat :
      {path : String} {s t : State} {i : SmartInfo} {a : Answer}
      → Bridged env path s i a t
      → a.sat_fallback ≡ false
  Bridged-no_sat {i} (no_bridge n) = answer_named-no_sat (classify i)
  Bridged-no_sat (bridge_read d r unknown absent chosen logs e) = refl
  Bridged-no_sat {i} (bridge_failed d r unknown absent chosen logs e) =
      answer_named-no_sat (classify i)

  Ends-no_sat :
      {path device_type : String} {s t : State} {reply : Reply} {a : Answer}
      → get_cached_device_type path s ≡ some device_type
      → Ends env path s reply a t
      → a.sat_fallback ≡ false
  Ends-no_sat h (read e p) = refl
  Ends-no_sat h (unparsed e p) = refl
  Ends-no_sat h (sat_read e b absent r) = cc
  Ends-no_sat h (standby_bare e b d tried) = refl
  Ends-no_sat h (standby_read e b p tried) = refl
  Ends-no_sat h (failure_read e n p tried bridged) = Bridged-no_sat bridged
  Ends-no_sat h (failure_unread e n d tried) = refl

  probe_sat-protocol :
      (dev : Device) (p : Option SmartInfo × State)
      → (probe_sat env dev p).0.sat_fallback_required ≡ true
      → ((probe_sat env dev p).0.detected_protocol ≡ "sat")
        × ((probe_sat env dev p).0.smart_readable ≡ true)
  unfolding probe_sat
  probe_sat-protocol dev (none, s) h = cc
  probe_sat-protocol dev (some i, s) h = (refl, refl)

  probe_dispatch-protocol :
      (dev : Device) (sat : Bool) (o : Option SmartInfo) (s : State)
      → sat ≡ false
      → (probe_dispatch env dev sat o s).0.sat_fallback_required ≡ true
      → ((probe_dispatch env dev sat o s).0.detected_protocol ≡ "sat")
        × ((probe_dispatch env dev sat o s).0.smart_readable ≡ true)
  probe_dispatch-protocol dev sat none s e h =
      unfold probe_dispatch in
      probe_sat-protocol dev (retry_with_device_type env dev.name "sat" s) h
  probe_dispatch-protocol dev sat (some i) s e h =
      unfold probe_dispatch read_result in (let q : true ≡ false = sym h ∙ e in cc)

  -- For a device whose type is cached, as it is after a scan that found the type, a result that says
  -- that the SAT fallback was required is readable and has the protocol "sat".
  probe-protocol :
      (dev : Device) (device_type : String) (s : State)
      → get_cached_device_type dev.name s ≡ some device_type
      → (probe env dev s).0.sat_fallback_required ≡ true
      → ((probe env dev s).0.detected_protocol ≡ "sat")
        × ((probe env dev s).0.smart_readable ≡ true)
  probe-protocol dev device_type s cached h =
      let (answer, s') = get_smart_info_internal env dev.name s in
      let cached' : get_cached_device_type dev.name (asked env dev.name s).1 ≡ some device_type =
        (command-Keeps env output (build_args dev.name ("-a" ∷ "-j" ∷ []) s) s).at dev.name
          device_type cached in
      unfold probe in
      probe_dispatch-protocol dev answer.sat_fallback (usable answer) s'
        (Ends-no_sat cached' (get_smart_info_internal-Ends env dev.name s)) h
