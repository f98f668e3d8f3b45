-- ===== src/Types/Wear.antt =====
-- `SMARTInfo.WearLevelPercent` of internal/types/types.go.
pub mod Percent
use smartmontools_go.Base.{
  ℤ, pos, ◌-ℤ◌, wrap64, ltbℤ, eqbℤ, Option, none, some, List, [], ◌∷◌, if◌then◌else◌, ◌==◌,
}
use smartmontools_go.Types.{
  SmartInfo, SmartAttribute, AtaSmartData, NvmeSmartHealth, smart_attr_ssd_life_used, elements,
  smart_attr_wear_leveling_count, smart_attr_ssd_life_left,
}

-- the closure `clamp`
clamp : ℤ → ℤ
clamp v = let w = if ltbℤ v (pos 0) then pos 0 else v in if ltbℤ (pos 100) w then pos 100 else w

-- the three best matches of the scan
pub record Matches : Type 0 where
  pub by_attr_231 : Option ℤ
  pub by_attr_177 : Option ℤ
  pub by_attr_173 : Option ℤ

-- one round of the loop over `Table`
scan_step : Matches → SmartAttribute → Matches
scan_step m attr =
    if eqbℤ attr.id smart_attr_ssd_life_left
    then record m { by_attr_231 = some (clamp (wrap64 (pos 100 -ℤ attr.value))) }
    else if eqbℤ attr.id smart_attr_wear_leveling_count
    then record m { by_attr_177 = some (clamp (wrap64 (pos 100 -ℤ attr.value))) }
    else if eqbℤ attr.id smart_attr_ssd_life_used
    then record m { by_attr_173 = some (clamp attr.raw.value) }
    else m

scan_table : Matches → List SmartAttribute → Matches
unfolding scan_step
scan_table m [] = m
scan_table m (attr ∷ table) = scan_table (scan_step m attr) table

-- `a` unless it is nil, then `b`
or_else : Option ℤ → Option ℤ → Option ℤ
or_else (some a) b = some a
or_else none b = b

choose : Matches → Option ℤ
unfolding or_else
choose m = or_else m.by_attr_231 (or_else m.by_attr_177 m.by_attr_173)

wear_of_nvme : Option NvmeSmartHealth → Option ℤ
wear_of_nvme none = none
wear_of_nvme (some h) = some (clamp h.percentage_used)

abbrev no_matches : Matches
no_matches = record { by_attr_231 = none; by_attr_177 = none; by_attr_173 = none }

wear_of_ata : Option AtaSmartData → Option ℤ
unfolding choose scan_table
wear_of_ata none = none
wear_of_ata (some d) = choose (scan_table no_matches (elements d.table))

unfoldable pub wear_level_percent : SmartInfo → Option ℤ
unfolding wear_of_nvme wear_of_ata clamp
wear_level_percent s =
    if s.disk_type == "NVMe"
    then wear_of_nvme s.nvme_smart_health
    else if s.disk_type == "SSD"
    then wear_of_ata s.ata_smart_data
    else none
