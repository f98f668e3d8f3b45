-- ===== src/Backend/Devices.antt =====
-- `ScanDevices` and `DiscoverDevices`.
pub mod Scan
pub mod Discover
pub mod Effects
use smartmontools_go.Base.{
  String, Bool, true, false, ◌&&◌, ◌||◌, not, Option, none, some, List, [], ◌∷◌, if◌then◌else◌,
  ◌==◌,
}
use smartmontools_go.Types.{Device, SmartInfo, DiscoveryResult}
use smartmontools_go.Backend.State.{
  Env, State, Err, json_error, wrapped, output, LogEntry, warn, failure, log, command,
  get_cached_device_type, set_cached_device_type, cache_if_absent,
}
use smartmontools_go.Backend.Retry.{retry_with_device_type}
use smartmontools_go.Backend.Info.{Answer, get_smart_info_internal}

pub data Result {ℓ} (A : Type ℓ) : Type ℓ where
  ok : A → Result A
  err : Err → Result A

-- the loop over the devices found: cache each type, unless one is cached
unfoldable pub cache_devices : List Device → State → State
cache_devices [] s = s
cache_devices (d ∷ ds) s =
    cache_devices ds (if d.name == "" then s else cache_if_absent d.name d.type s)

abbrev scan_open_failed : Err → LogEntry
scan_open_failed e = record {
  level = warn;
  message = "--scan-open failed, retrying with --scan";
  attrs = ("err", failure e) ∷ [];
}

module _ (env : Env) where
  scan_parse : Option (List Device) → State → Result (List Device) × State
  scan_parse none s = (err (wrapped "failed to parse scan output" json_error ""), s)
  scan_parse (some ds) s = (ok ds, cache_devices ds s)

  scan_second : Option Err → String → State → Result (List Device) × State
  unfolding scan_parse
  scan_second none out s = scan_parse (env.unmarshal_scan out) s
  scan_second (some e) out s = (err (wrapped "failed to scan devices" e ""), s)

  -- fall back to --scan when --scan-open is unsupported or fails
  scan_fallback : State → Result (List Device) × State
  unfolding scan_second
  scan_fallback s =
      let (reply, s') = command env output ("--scan" ∷ "--json" ∷ []) s in
      scan_second reply.err reply.out s'

  scan_first : Option Err → String → State → Result (List Device) × State
  unfolding scan_fallback
  scan_first none out s = scan_parse (env.unmarshal_scan out) s
  scan_first (some e) out s = scan_fallback (log (scan_open_failed e) s)

  unfoldable pub scan_devices : State → Result (List Device) × State
  unfolding scan_first
  scan_devices s =
      let (reply, s') = command env output ("--scan-open" ∷ "--json" ∷ []) s in
      scan_first reply.err reply.out s'

-- `ModelName`, or `ModelFamily` where that is empty
unfoldable pub model_of : SmartInfo → String
model_of i = if i.model_name == "" then i.model_family else i.model_name

abbrev pub unread : Device → DiscoveryResult
unread dev = record {
  device_path = dev.name;
  detected_protocol = dev.type;
  smart_readable = false;
  sat_fallback_required = false;
  model = "";
  serial = "";
}

unfoldable pub read_result : Device → String → Bool → SmartInfo → DiscoveryResult
read_result dev protocol sat i = record {
  device_path = dev.name;
  detected_protocol = protocol;
  smart_readable = true;
  sat_fallback_required = sat;
  model = model_of i;
  serial = i.serial_number;
}

-- infoErr == nil && info != nil
unfoldable pub usable : Answer → Option SmartInfo
usable a = elim a.err [ none ↦ a.smart_info | some _ ↦ none ]

module _ (env : Env) where
  probe_sat : Device → Option SmartInfo × State → DiscoveryResult × State
  unfolding read_result
  probe_sat dev (none, s) = (unread dev, s)
  probe_sat dev (some i, s) = (read_result dev "sat" true i, s)

  probe_dispatch : Device → Bool → Option SmartInfo → State → DiscoveryResult × State
  unfolding probe_sat
  probe_dispatch dev sat (some i) s = (read_result dev i.device.type sat i, s)
  probe_dispatch dev sat none s = probe_sat dev (retry_with_device_type env dev.name "sat" s)

  -- one round of the loop of `DiscoverDevices`
  unfoldable pub probe : Device → State → DiscoveryResult × State
  unfolding probe_dispatch usable
  probe dev s =
      let (answer, s') = get_smart_info_internal env dev.name s in
      probe_dispatch dev answer.sat_fallback (usable answer) s'

  unfoldable pub probe_all : List Device → State → List DiscoveryResult × State
  probe_all [] s = ([], s)
  probe_all (dev ∷ devs) s =
      let (result, s1) = probe dev s in
      let (results, s2) = probe_all devs s1 in (result ∷ results, s2)

  discover_scanned : Result (List Device) → State → Result (List DiscoveryResult) × State
  discover_scanned (err e) s = (err (wrapped "failed to scan devices for discovery" e ""), s)
  discover_scanned (ok devs) s = (let (results, s') = probe_all devs s in (ok results, s'))

  unfoldable pub discover_devices : State → Result (List DiscoveryResult) × State
  unfolding discover_scanned
  discover_devices s = let (scanned, s') = scan_devices env s in discover_scanned scanned s'
