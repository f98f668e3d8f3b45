-- ===== src/Witnesses/Construction.antt =====
-- The construction of a backend and the drive database at concrete inputs.
use smartmontools_go.Base.{
  pos, has_bits, copy_into, String, true, false, Option, none, some, List, [], ◌∷◌, ◌≡◌, ◌⊎◌, ◌↔◌,
  refl, if◌then◌else◌, ◌==◌, lookup, insert, GoMap,
}
use smartmontools_go.Types.{SmartInfo}
use smartmontools_go.Text.{contains_text, to_lower}
use smartmontools_go.Drivedb.UsbIds.{extract_usb_ids}
use smartmontools_go.Backend.State.{Reply, State}
use smartmontools_go.Backend.Version.{
  find_version, parse_smartctl_version, ensure_compatible_smartctl,
}
use smartmontools_go.Backend.Version.Supported.{
  IsCompatible, ensure_compatible_smartctl-IsCompatible,
}
use smartmontools_go.Types.SelfTests.{contains}
use smartmontools_go.Drivedb.Shipped.{drivedb_cache, bridge_types, drivedb_cache_types}
use smartmontools_go.Backend.Setup.{
  Host, FileInfo, resolve_smartctl_path, search_paths, is_executable, clone_device_type_cache, new,
  version_call,
}
use smartmontools_go.Backend.Setup.Construct.{new-Ready}
use smartmontools_go.Drivedb.Load.{usb_key, load_drivedb_addendum}
use smartmontools_go.Drivedb.Load.Cache.{has_char, load_drivedb_addendum-IsEntry}
use smartmontools_go.Drivedb.Load.Keys.{extract_usb_bridge_id-IsKey}
use smartmontools_go.Drivedb.UsbIds.{extract_usb_ids}
use smartmontools_go.Text.{concat, contains_text, to_lower}
use smartmontools_go.Drivedb.Bridge.{extract_usb_bridge_id}
use smartmontools_go.Witnesses.{printed, ssd_info}

abbrev old_smartctl : Reply
old_smartctl = printed "smartctl 6.6 2017-11-05 r4594"

ensure_compatible_smartctl-IsCompatible_example :
    (ensure_compatible_smartctl old_smartctl ≡ none)
    ↔ ((old_smartctl.err ≡ none) × IsCompatible (find_version false old_smartctl.out))
ensure_compatible_smartctl-IsCompatible_example =
    ensure_compatible_smartctl-IsCompatible old_smartctl

-- smartctl 7.3 in /usr/local/bin and not in PATH
abbrev local_stat : String → Option FileInfo
local_stat p =
    if p == "/usr/local/bin/smartctl" then some (record { is_dir = false; mode = 0o755 }) else none

abbrev pub a_host : Host
a_host = record {
  look_path = none;
  stat = local_stat;
  version = λ _. printed "smartctl 7.3 2022-02-28 r5338";
}

abbrev pub a_table : GoMap String
a_table = ("usb:0x152d:0x0578", "sat") ∷ ("usb:0x059b:0x0272", "usbjmicron") ∷ []

abbrev built : State
built = record {
  smartctl_path = "/usr/local/bin/smartctl";
  default_commander = true;
  device_type_cache = a_table;
  health_bits_cache = [];
  messages = [];
  logs = [];
  calls = version_call "/usr/local/bin/smartctl" ∷ [];
  clock_reads = 0;
}

new-Ready_example :
    ((k : String) → lookup k built.device_type_cache ≡ lookup k a_table)
    × (built.logs ≡ [])
    × (((true ≡ true)
          × (built.calls ≡ version_call built.smartctl_path ∷ [])
          × (ensure_compatible_smartctl (a_host.version built.smartctl_path) ≡ none))
        ⊎ ((true ≡ false) × (built.calls ≡ [])))
unfolding lookup new insert resolve_smartctl_path search_paths is_executable has_bits
    ensure_compatible_smartctl parse_smartctl_version clone_device_type_cache copy_into
new-Ready_example = new-Ready a_host a_table [] [] built (refl, (refl, tt)) refl

abbrev some_lines : List String
some_lines =
    "  { \"USB: ; ViPowER\"," ∷ "    \"0x0350:0x00(38|3A)\"," ∷ "    \"\"," ∷ "    \"\","
    ∷ "    \"-d sat,12\"" ∷ "  }," ∷ []

load_drivedb_addendum-IsEntry_example :
    ((id : String) × ("usb:0x0350:0x0038" ≡ concat "usb:" id) × (to_lower id ≡ id))
    × (has_char b',' "sat" ≡ false)
unfolding lookup load_drivedb_addendum extract_usb_ids usb_key contains_text insert to_lower
load_drivedb_addendum-IsEntry_example =
    load_drivedb_addendum-IsEntry some_lines "usb:0x0350:0x0038" "sat" refl

abbrev bridge_info : SmartInfo
bridge_info = record ssd_info {
  smartctl = some (record {
    version = none;
    messages =
        some (record { string = "Unknown USB bridge [0x152D:0x0578]"; severity = "error" } ∷ []);
    exit_status = pos 1;
  });
}

extract_usb_bridge_id-IsKey_example :
    (extract_usb_bridge_id bridge_info ≡ "")
    ⊎ ((id : String) × (extract_usb_bridge_id bridge_info ≡ concat "usb:" id) × (to_lower id ≡ id))
extract_usb_bridge_id-IsKey_example = extract_usb_bridge_id-IsKey bridge_info

drivedb_cache_types_example : contains bridge_types "sat" ≡ true
unfolding lookup drivedb_cache contains_text extract_usb_ids to_lower insert
drivedb_cache_types_example = drivedb_cache_types "usb:0x0080:0x0578" "sat" refl
