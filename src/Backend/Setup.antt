-- ===== src/Backend/Setup.antt =====
-- `New` with its options, `resolveSmartctlPath` and the search paths.
pub mod Construct
use smartmontools_go.Base.{
  ℕ, String, Bool, true, false, not, ◌&&◌, ◌||◌, Option, none, some, List, [], ◌∷◌, if◌then◌else◌,
  eqb, ◌==◌, GoMap, copy_into, has_bits, pos,
}
use smartmontools_go.MessageCache.{MessageCache}
use smartmontools_go.Backend.State.{State, Err, Reply, Call, output, plain}
use smartmontools_go.Backend.Version.{ensure_compatible_smartctl}

abbrev pub smartctl_search_paths : List String
smartctl_search_paths =
    "/usr/sbin/smartctl" ∷ "/usr/local/sbin/smartctl" ∷ "/usr/local/bin/smartctl"
    ∷ "/opt/homebrew/bin/smartctl" ∷ "/opt/local/sbin/smartctl" ∷ "/usr/syno/bin/smartctl"
    ∷ "/volume1/@appstore/smartmontools/usr/sbin/smartctl" ∷ "/opt/sbin/smartctl"
    ∷ "/share/CACHEDEV1_DATA/.qpkg/smartmontools/bin/smartctl"
    ∷ "/run/current-system/sw/sbin/smartctl" ∷ []

pub record FileInfo : Type 0 where
  pub is_dir : Bool
  pub mode : ℕ

-- What the host answers: `exec.LookPath("smartctl")`, `os.Stat` (none for an error) and the output of
-- `<path> -V`.
pub record Host : Type 0 where
  pub look_path : Option String
  pub stat : String → Option FileInfo
  pub version : String → Reply

-- not a directory, and mode & 0o111 != 0
unfoldable pub is_executable : Option FileInfo → Bool
is_executable none = false
is_executable (some f) = not f.is_dir && has_bits (pos f.mode) 0o111

unfoldable pub search_paths : Host → List String → Option String
search_paths host [] = none
search_paths host (p ∷ ps) = if is_executable (host.stat p) then some p else search_paths host ps

unfoldable pub or_search : Host → Option String → Option String
or_search host (some path) = some path
or_search host none = search_paths host smartctl_search_paths

unfoldable pub resolve_smartctl_path : Host → Option String
unfolding or_search
resolve_smartctl_path host = or_search host host.look_path

-- `Option`: what `WithSmartctlPath`, `WithCommander` and `withLogHandler` return
pub data Opt : Type 0 where
  with_smartctl_path : String → Opt
  with_commander : Opt
  with_log_handler : Opt

unfoldable pub apply_opt : Opt → State → State
apply_opt (with_smartctl_path path) b = record b { smartctl_path = path }
apply_opt with_commander b = record b { default_commander = false }
apply_opt with_log_handler b = b

unfoldable pub apply_opts : List Opt → State → State
unfolding apply_opt
apply_opts [] b = b
apply_opts (opt ∷ opts) b = apply_opts opts (apply_opt opt b)

-- cloneDeviceTypeCache
unfoldable pub clone_device_type_cache : GoMap String → GoMap String
clone_device_type_cache drivedb_cache = copy_into [] drivedb_cache

pub data Built : Type 0 where
  backend : State → Built
  refused : Err → Built

abbrev pub not_found : Err
not_found =
    plain
      "smartctl not found in PATH or known locations.\nInstall smartmontools for your platform:\n  Linux (Debian/Ubuntu): sudo apt install smartmontools\n  Linux (RHEL/Fedora):   sudo dnf install smartmontools\n  macOS (Homebrew):      brew install smartmontools\n  Synology:              Install SynoCli Disk Tools from SynoCommunity\n  QNAP:                  Install smartmontools via Entware (opkg install smartmontools)\n  FreeBSD/TrueNAS:       pkg install smartmontools\nMore info: https://www.smartmontools.org/wiki/Download"

unfoldable pub accept_version : Option Err → State → Built
accept_version none b = backend b
accept_version (some e) b = refused e

-- the command `<path> -V`
abbrev pub version_call : String → Call
version_call path = record { method = output; name = path; args = "-V" ∷ [] }

unfoldable pub check_commander : Host → State → Built
unfolding accept_version
check_commander host b =
    if b.default_commander
    then accept_version (ensure_compatible_smartctl (host.version b.smartctl_path))
        (record b { calls = version_call b.smartctl_path ∷ b.calls })
    else backend b

unfoldable pub with_path : Host → Option String → State → Built
unfolding check_commander
with_path host none b = refused not_found
with_path host (some path) b = check_commander host (record b { smartctl_path = path })

-- `messages` is the package's cache, which outlives every backend
unfoldable pub initial : GoMap String → MessageCache → State
initial drivedb_cache messages = record {
  smartctl_path = "";
  default_commander = true;
  device_type_cache = clone_device_type_cache drivedb_cache;
  health_bits_cache = [];
  messages = messages;
  logs = [];
  calls = [];
  clock_reads = 0;
}

unfoldable pub new : Host → GoMap String → MessageCache → List Opt → Built
unfolding initial apply_opts with_path
new host drivedb_cache messages opts =
    let b = apply_opts opts (initial drivedb_cache messages) in
    if b.smartctl_path == ""
    then with_path host (resolve_smartctl_path host) b
    else check_commander host b
