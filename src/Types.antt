-- ===== src/Types.antt =====
-- internal/types/types.go and constants.go: the SMART domain model. A pointer field is an `Option`, a
-- Go `int` or `int64` a `ℤ`, a slice of a document an `Option` of a `List`, `none` being nil. Root
-- `types.go` and `backends/exec/shared.go` only give these types second names. The children model the functions of internal/types.
pub mod SelfTests
pub mod Wear
pub mod Decode
pub mod Encode
pub mod RoundTrip
pub mod Computed
use smartmontools_go.Base.{ℕ, ℤ, pos, String, Bool, false, Option, none, some, List, [], GoMap}

-- what a loop over a slice goes through
abbrev pub elements {ℓ} : {A : Type ℓ} → Option (List A) → List A
elements none = []
elements (some xs) = xs

pub record Device : Type 0 where
  pub name : String
  pub type : String

pub record NvmeControllerCapabilities : Type 0 where
  pub self_test : Bool

pub record NvmeSmartHealth : Type 0 where
  pub critical_warning : ℤ
  pub temperature : ℤ
  pub available_spare : ℤ
  pub available_spare_thresh : ℤ
  pub percentage_used : ℤ
  pub data_units_read : ℤ
  pub data_units_written : ℤ
  pub host_read_commands : ℤ
  pub host_write_commands : ℤ
  pub controller_busy_time : ℤ
  pub power_cycles : ℤ
  pub power_on_hours : ℤ
  pub unsafe_shutdowns : ℤ
  pub media_errors : ℤ
  pub num_err_log_entries : ℤ
  pub warning_temp_time : ℤ
  pub critical_comp_time : ℤ
  pub temperature_sensors : Option (List ℤ)

pub record NvmeSmartTestLog : Type 0 where
  pub current_operation : Option ℤ
  pub current_completion : Option ℤ

pub record UserCapacity : Type 0 where
  pub blocks : ℤ
  pub bytes : ℤ

pub record SmartStatus : Type 0 where
  pub running : Bool
  pub passed : Bool
  pub damaged : Bool
  pub critical : Bool

pub record SmartSupport : Type 0 where
  pub available : Bool
  pub enabled : Bool

pub record StatusField : Type 0 where
  pub value : ℤ
  pub string : String
  pub passed : Option Bool
  pub remaining_percent : Option ℤ

pub record OfflineDataCollection : Type 0 where
  pub status : Option StatusField
  pub completion_seconds : ℤ

pub record PollingMinutes : Type 0 where
  pub short : ℤ
  pub extended : ℤ
  pub conveyance : ℤ

pub record SelfTest : Type 0 where
  pub status : Option StatusField
  pub polling_minutes : Option PollingMinutes

pub record Capabilities : Type 0 where
  pub values : Option (List ℤ)
  pub exec_offline_immediate : Bool
  pub self_tests_supported : Bool
  pub conveyance_self_test_supported : Bool

pub record SelfTestInfo : Type 0 where
  pub available : List String
  pub durations : GoMap ℤ

pub record NvmeOptionalAdminCommands : Type 0 where
  pub self_test : Bool

pub record Flags : Type 0 where
  pub value : ℤ
  pub string : String
  pub pre_failure : Bool
  pub updated_online : Bool
  pub performance : Bool
  pub error_rate : Bool
  pub event_count : Bool
  pub auto_keep : Bool

pub record Raw : Type 0 where
  pub value : ℤ
  pub string : String

pub record SmartAttribute : Type 0 where
  pub id : ℤ
  pub name : String
  pub value : ℤ
  pub worst : ℤ
  pub thresh : ℤ
  pub when_failed : String
  pub flags : Flags
  pub raw : Raw

pub record AtaSmartData : Type 0 where
  pub offline_data_collection : Option OfflineDataCollection
  pub self_test : Option SelfTest
  pub capabilities : Option Capabilities
  pub table : Option (List SmartAttribute)

pub record CapabilitiesOutput : Type 0 where
  pub ata_smart_data : Option AtaSmartData
  pub nvme_controller_capabilities : Option NvmeControllerCapabilities
  pub nvme_optional_admin_commands : Option NvmeOptionalAdminCommands

pub record Temperature : Type 0 where
  pub current : ℤ

pub record PowerOnTime : Type 0 where
  pub hours : ℤ

pub record Message : Type 0 where
  pub string : String
  pub severity : String

pub record SmartctlInfo : Type 0 where
  pub version : Option (List ℤ)
  pub messages : Option (List Message)
  pub exit_status : ℤ

-- both fields are masked values of the exit status, so they are never negative
pub record ExitCodeInfo : Type 0 where
  pub exec_bits : ℕ
  pub health_bits : ℕ

pub record SmartInfo : Type 0 where
  pub device : Device
  pub model_family : String
  pub model_name : String
  pub serial_number : String
  pub firmware : String
  pub user_capacity : Option UserCapacity
  pub rotation_rate : Option ℤ
  pub disk_type : String
  pub in_standby : Bool
  pub exit_code_info : Option ExitCodeInfo
  pub smart_status : Option SmartStatus
  pub smart_support : Option SmartSupport
  pub ata_smart_data : Option AtaSmartData
  pub nvme_smart_health : Option NvmeSmartHealth
  pub nvme_smart_test_log : Option NvmeSmartTestLog
  pub nvme_controller_capabilities : Option NvmeControllerCapabilities
  pub temperature : Option Temperature
  pub power_on_time : Option PowerOnTime
  pub power_cycle_count : ℤ
  pub smartctl : Option SmartctlInfo

pub record DiscoveryResult : Type 0 where
  pub device_path : String
  pub detected_protocol : String
  pub smart_readable : Bool
  pub sat_fallback_required : Bool
  pub model : String
  pub serial : String

-- `SMARTInfo{}`: every field at its zero value
abbrev pub zero_info : SmartInfo
zero_info = record {
  device = record { name = ""; type = "" };
  model_family = "";
  model_name = "";
  serial_number = "";
  firmware = "";
  user_capacity = none;
  rotation_rate = none;
  disk_type = "";
  in_standby = false;
  exit_code_info = none;
  smart_status = none;
  smart_support = none;
  ata_smart_data = none;
  nvme_smart_health = none;
  nvme_smart_test_log = none;
  nvme_controller_capabilities = none;
  temperature = none;
  power_on_time = none;
  power_cycle_count = pos 0;
  smartctl = none;
}

abbrev pub smart_attr_ssd_life_used : ℤ
smart_attr_ssd_life_used = pos 173

abbrev pub smart_attr_wear_leveling_count : ℤ
smart_attr_wear_leveling_count = pos 177

abbrev pub smart_attr_ssd_life_left : ℤ
smart_attr_ssd_life_left = pos 231

abbrev pub smart_attr_sand_force_internal : ℤ
smart_attr_sand_force_internal = pos 233

abbrev pub smart_attr_total_lbas_written : ℤ
smart_attr_total_lbas_written = pos 234
