-- ===== src/Helpers/DiskType.antt =====
-- `determineDiskType`, and what its answer means for the wear level.
use smartmontools_go.Base.{
  ℤ, pos, String, Bool, true, false, ◌||◌, ◌&&◌, ◌==◌, eqbℤ, is_some, Option, none, some, ◌≡◌, ◌≢◌,
  refl, eqbℤ_iff, eq_iff, arith, if◌then◌else◌,
}
use smartmontools_go.Text.{contains_text, to_lower}
use smartmontools_go.Types.{SmartInfo, AtaSmartData}
use smartmontools_go.Types.Wear.{wear_level_percent}
use smartmontools_go.Helpers.{
  ata_has_ssd_attribute, type_by_name, type_by_rotation, determine_disk_type, classify,
  check_smart_status,
}

-- "NVMe", "SSD", "HDD" and "Unknown"
pub data IsDiskType : String → Type 0 where
  nvme : IsDiskType "NVMe"
  ssd : IsDiskType "SSD"
  hdd : IsDiskType "HDD"
  unknown : IsDiskType "Unknown"

if_DiskType :
    (b : Bool) (x y : String) → IsDiskType x → IsDiskType y → IsDiskType (if b then x else y)
if_DiskType true x y h k = h
if_DiskType false x y h k = k

module _ (d : String) (ata : Option AtaSmartData) where
  type_by_name-IsDiskType : IsDiskType (type_by_name d ata)
  unfolding type_by_name
  type_by_name-IsDiskType = if_DiskType (contains_text d "nvme") "NVMe" _ nvme (
      if_DiskType
        ((contains_text d "sata" || contains_text d "ata" || contains_text d "sat")
          && ata_has_ssd_attribute ata)
        "SSD" "Unknown" ssd unknown)

type_by_rotation-IsDiskType :
    (r : Option ℤ) (other : String) → IsDiskType other → IsDiskType (type_by_rotation r other)
unfolding type_by_rotation
type_by_rotation-IsDiskType none other h = h
type_by_rotation-IsDiskType (some rate) other h =
    if_DiskType (eqbℤ rate (pos 0)) "SSD" "HDD" ssd hdd

-- The disk type is one of the four that the wear level knows, for every info.
pub determine_disk_type-IsDiskType : (i : SmartInfo) → IsDiskType (determine_disk_type i)
determine_disk_type-IsDiskType i =
    unfold determine_disk_type in
    if_DiskType
      (i.device.type == "nvme"
        || is_some i.nvme_smart_health
        || is_some i.nvme_controller_capabilities)
      "NVMe" _ nvme
      (type_by_rotation-IsDiskType i.rotation_rate _
        (type_by_name-IsDiskType (to_lower i.device.type) i.ata_smart_data))

rotating_type :
    (i : SmartInfo) (r : ℤ)
    → i.device.type ≢ "nvme"
    → i.nvme_smart_health ≡ none
    → i.nvme_controller_capabilities ≡ none
    → i.rotation_rate ≡ some r
    → r ≢ pos 0
    → determine_disk_type i ≡ "HDD"
rotating_type i r t h c e nz =
    unfold determine_disk_type in
    rw (h, c, e)
      (unfold type_by_rotation in ground (arith, eqbℤ_iff r (pos 0), eq_iff i.device.type "nvme"))

-- Once classified, a device that rotates and reports no NVMe data is an HDD and has no wear level, whatever
-- attributes it reports.
classify_rotating :
    (i : SmartInfo) (r : ℤ)
    → i.device.type ≢ "nvme"
    → i.nvme_smart_health ≡ none
    → i.nvme_controller_capabilities ≡ none
    → i.rotation_rate ≡ some r
    → r ≢ pos 0
    → ((classify i).disk_type ≡ "HDD") × (wear_level_percent (classify i) ≡ none)
classify_rotating i r t h c e nz =
    let hdd : (classify i).disk_type ≡ "HDD" =
      unfold classify in unfold check_smart_status in rotating_type i r t h c e nz in
    (hdd, unfold wear_level_percent in rw hdd refl)
