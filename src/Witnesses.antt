-- ===== src/Witnesses.antt =====
-- Concrete inputs: the devices, the replies and the states at which the children use the theorems.
pub mod Logging
pub mod Info
pub mod Devices
pub mod Commands
pub mod Construction
pub mod Parts
pub mod Clients
pub mod Sessions
pub mod Documents
use smartmontools_go.Base.{
  ℕ, zero, suc, ℤ, pos, negsuc, String, Bool, true, false, Option, none, some, List, [], ◌∷◌,
  if◌then◌else◌, ◌==◌, GoMap,
}
use smartmontools_go.Types.{
  Device, SmartInfo, SmartctlInfo, SmartStatus, Message, ExitCodeInfo, zero_info, AtaSmartData,
  SmartAttribute, Flags, Raw, SelfTest, StatusField, Capabilities, PollingMinutes,
  CapabilitiesOutput,
}
use smartmontools_go.Backend.State.{Env, State, Call, Reply, Err, exit_error}

abbrev pub a_flags : Flags
a_flags = record {
  value = pos 0;
  string = "";
  pre_failure = false;
  updated_online = false;
  performance = false;
  error_rate = false;
  event_count = false;
  auto_keep = false;
}

-- an attribute with an identifier, a normalized and a raw value
abbrev pub attribute : ℤ → ℤ → ℤ → SmartAttribute
attribute id value raw = record {
  id = id;
  name = "";
  value = value;
  worst = value;
  thresh = pos 0;
  when_failed = "";
  flags = a_flags;
  raw = record { value = raw; string = "" };
}

abbrev pub running_status : StatusField
running_status = record {
  value = pos 249;
  string = "in progress";
  passed = none;
  remaining_percent = some (pos 90);
}

abbrev pub an_ata : AtaSmartData
an_ata = record {
  offline_data_collection = none;
  self_test = some (record {
    status = some running_status;
    polling_minutes = some (record { short = pos 2; extended = pos 85; conveyance = pos 0 });
  });
  capabilities = some (record {
    values = none;
    exec_offline_immediate = true;
    self_tests_supported = true;
    conveyance_self_test_supported = false;
  });
  table = some (attribute (pos 177) (pos 97) (pos 34) ∷ attribute (pos 231) (pos 120) (pos 5) ∷ []);
}

abbrev pub exit_document : ℤ → SmartctlInfo
exit_document status = record {
  version = some (pos 7 ∷ pos 3 ∷ []);
  messages = none;
  exit_status = status;
}

-- an SSD behind a SATA port
abbrev pub ssd_info : SmartInfo
ssd_info = record zero_info {
  device = record { name = "/dev/sda"; type = "sat" };
  model_name = "SSD 870";
  serial_number = "S1";
  disk_type = "SSD";
  rotation_rate = some (pos 0);
  ata_smart_data = some an_ata;
  smartctl = some (exit_document (pos 68));
}

abbrev pub nvme_info : SmartInfo
nvme_info = record zero_info { device = record { name = "/dev/nvme0"; type = "nvme" } }

-- infos with health bits
abbrev pub flagged : ℕ → SmartInfo
flagged bits = record ssd_info {
  exit_code_info = some (record { exec_bits = 0; health_bits = bits });
}

-- every command is answered alike, and the texts "ssd" and "nvme" are the documents above
abbrev pub info_of_text : String → Option SmartInfo
info_of_text out =
    if out == "ssd" then some ssd_info else if out == "nvme" then some nvme_info else none

abbrev pub devices_of_text : String → Option (List Device)
devices_of_text out =
    if out == "" then none else some (record { name = "/dev/sdb"; type = "sat" } ∷ [])

abbrev pub always : Reply → Env
always r = record {
  respond = λ _ _. r;
  unmarshal_scan = devices_of_text;
  unmarshal_info = info_of_text;
  unmarshal_caps = λ _. none;
  unmarshal_object = λ _. none;
  now = λ n. n;
}

abbrev pub printed : String → Reply
printed out = record { out = out; err = none }

abbrev pub exited : ℤ → Reply
exited code = record { out = ""; err = some (exit_error code) }

-- a process killed by a signal
abbrev pub killed : Reply
killed = exited (negsuc 0)

-- a backend whose cache knows /dev/sda and /dev/nvme0
abbrev pub known : State
known = record {
  smartctl_path = "smartctl";
  default_commander = true;
  device_type_cache = ("/dev/sda", "sat") ∷ ("/dev/nvme0", "NVMe") ∷ [];
  health_bits_cache = ("/dev/sda", 0x40) ∷ [];
  messages = [];
  logs = [];
  calls = [];
  clock_reads = 0;
}
