-- ===== src/Helpers.antt =====
-- backends/exec/helpers.go: `isATADevice`, `determineDiskType` and `checkSmartStatus`.
pub mod DiskType
pub mod Status
use smartmontools_go.Base.{
  ℕ, ℤ, pos, eqbℤ, lebℤ, and_mask, has_bits, String, Bool, true, false, not, ◌&&◌, ◌||◌, Option,
  none, some, List, [], ◌∷◌, if◌then◌else◌, is_some, ◌==◌,
}
use smartmontools_go.Text.{contains_text, to_lower}
use smartmontools_go.Types.{
  elements, SmartInfo, SmartAttribute, AtaSmartData, SelfTest, StatusField, SmartStatus,
  SmartctlInfo, ExitCodeInfo, NvmeSmartTestLog, smart_attr_ssd_life_left,
  smart_attr_sand_force_internal, smart_attr_total_lbas_written,
}

unfoldable pub is_ata_device : String → Bool
is_ata_device device_type =
    let dt = to_lower device_type in
    if device_type == ""
    then false
    else contains_text dt "ata" || contains_text dt "sat" || dt == "scsi"

-- the attribute identifiers that only an SSD reports
unfoldable pub is_ssd_attribute : SmartAttribute → Bool
is_ssd_attribute attr =
    eqbℤ attr.id smart_attr_ssd_life_left
    || eqbℤ attr.id smart_attr_sand_force_internal
    || eqbℤ attr.id smart_attr_total_lbas_written

-- the loop over `info.AtaSmartData.Table`
unfoldable pub has_ssd_attribute : List SmartAttribute → Bool
has_ssd_attribute [] = false
has_ssd_attribute (attr ∷ table) = is_ssd_attribute attr || has_ssd_attribute table

unfoldable pub ata_has_ssd_attribute : Option AtaSmartData → Bool
ata_has_ssd_attribute none = false
ata_has_ssd_attribute (some d) = has_ssd_attribute (elements d.table)

-- the last two tests, on the lower-case device type
unfoldable pub type_by_name : String → Option AtaSmartData → String
type_by_name device_type ata =
    if contains_text device_type "nvme"
    then "NVMe"
    else if (contains_text device_type "sata"
          || contains_text device_type "ata"
          || contains_text device_type "sat")
        && ata_has_ssd_attribute ata
    then "SSD"
    else "Unknown"

unfoldable pub type_by_rotation : Option ℤ → String → String
type_by_rotation none other = other
type_by_rotation (some rate) other = if eqbℤ rate (pos 0) then "SSD" else "HDD"

unfoldable pub determine_disk_type : SmartInfo → String
unfolding type_by_rotation type_by_name
determine_disk_type info =
    if info.device.type == "nvme"
      || is_some info.nvme_smart_health
      || is_some info.nvme_controller_capabilities
    then "NVMe"
    else type_by_rotation info.rotation_rate
        (type_by_name (to_lower info.device.type) info.ata_smart_data)

-- v >= 240 && v <= 253
unfoldable pub is_running_value : ℤ → Bool
is_running_value v = lebℤ (pos 240) v && lebℤ v (pos 253)

-- info.AtaSmartData.SelfTest.Status, nil if a step of the chain is
unfoldable pub self_test_status : SmartInfo → Option StatusField
self_test_status info = elim info.ata_smart_data [
  | none ↦ none
  | some ata ↦ elim ata.self_test [ none ↦ none | some t ↦ t.status ]
]

unfoldable pub nvme_running : Option NvmeSmartTestLog → Bool
nvme_running none = false
nvme_running (some log) = elim log.current_operation [
  | none ↦ false
  | some op ↦ not (eqbℤ op (pos 0))
]

running_from : Option NvmeSmartTestLog → Option StatusField → Bool
unfolding nvme_running is_running_value
running_from log none = nvme_running log
running_from log (some status) = is_running_value status.value

-- the `switch` on where the device keeps its self-test state
unfoldable pub is_running : SmartInfo → Bool
unfolding running_from
is_running info = running_from info.nvme_smart_test_log (self_test_status info)

unfoldable pub exit_code_info_of : ℤ → Option ExitCodeInfo → Option ExitCodeInfo
exit_code_info_of status old =
    if eqbℤ status (pos 0)
    then old
    else some (record { exec_bits = and_mask status 0x07; health_bits = and_mask status 0xF8 })

unfoldable pub passed_of : Option SmartStatus → Bool
passed_of none = false
passed_of (some st) = st.passed

unfoldable pub exit_bits : Option SmartctlInfo → ℕ → Bool
exit_bits none m = false
exit_bits (some ctl) m = has_bits ctl.exit_status m

-- `ExitCodeInfo` after the call, from the `smartctl` object and the value before
unfoldable pub exit_codes : Option SmartctlInfo → Option ExitCodeInfo → Option ExitCodeInfo
unfolding exit_code_info_of
exit_codes none old = old
exit_codes (some ctl) old = exit_code_info_of ctl.exit_status old

-- The function also sets `ExitCodeInfo` through its argument, and every caller stores its result in
-- `SmartStatus`: the model does both, as `smartInfo.SmartStatus = checkSmartStatus(&smartInfo)`.
unfoldable pub check_smart_status : SmartInfo → SmartInfo
unfolding passed_of exit_bits is_running exit_codes
check_smart_status info = record info {
  exit_code_info = exit_codes info.smartctl info.exit_code_info;
  smart_status = some (record {
    running = is_running info;
    passed = passed_of info.smart_status;
    damaged = exit_bits info.smartctl 0x08;
    critical = exit_bits info.smartctl 0x10;
  });
}

-- The two computed fields, in the order in which the callers fill them.
unfoldable pub classify : SmartInfo → SmartInfo
unfolding check_smart_status
classify info = check_smart_status (record info { disk_type = determine_disk_type info })
