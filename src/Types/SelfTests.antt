-- ===== src/Types/SelfTests.antt =====
-- internal/types/helpers.go: `PopulateSelfTestInfo` and `ValidSelfTestTypes`. The function writes
-- through its pointer argument; here it returns the record that it leaves there.
pub mod Available
use smartmontools_go.Base.{
  ℤ, pos, ltbℤ, String, Bool, false, ◌||◌, Option, none, some, List, [], ◌∷◌, ◌++◌, GoMap, insert,
  if◌then◌else◌, ◌==◌,
}
use smartmontools_go.Types.{
  AtaSmartData, Capabilities, PollingMinutes, SelfTest, SelfTestInfo, NvmeControllerCapabilities,
  NvmeOptionalAdminCommands,
}

abbrev pub valid_self_test_types : List String
valid_self_test_types = "short" ∷ "long" ∷ "conveyance" ∷ "offline" ∷ []

-- slices.Contains
unfoldable pub contains : List String → String → Bool
contains [] s = false
contains (t ∷ ts) s = t == s || contains ts s

-- if minutes > 0 { info.Durations[name] = minutes }
unfoldable pub put_duration : String → ℤ → GoMap ℤ → GoMap ℤ
put_duration name minutes m = if ltbℤ (pos 0) minutes then insert name minutes m else m

unfoldable pub durations_of : Option PollingMinutes → GoMap ℤ → GoMap ℤ
unfolding put_duration
durations_of none m = m
durations_of (some pm) m =
    put_duration "conveyance" pm.conveyance
      (put_duration "long" pm.extended (put_duration "short" pm.short m))

unfoldable pub polling_of : Option SelfTest → Option PollingMinutes
polling_of none = none
polling_of (some t) = t.polling_minutes

unfoldable pub ata_available : Capabilities → List String
ata_available caps =
    (if caps.self_tests_supported then "short" ∷ "long" ∷ [] else [])
    ++ (if caps.conveyance_self_test_supported then "conveyance" ∷ [] else [])
    ++ (if caps.exec_offline_immediate then "offline" ∷ [] else [])

unfoldable pub add_capabilities :
    Option Capabilities → Option SelfTest → SelfTestInfo → SelfTestInfo
unfolding ata_available durations_of polling_of
add_capabilities none self_test info = info
add_capabilities (some caps) self_test info = record {
  available = info.available ++ ata_available caps;
  durations = durations_of (polling_of self_test) info.durations;
}

unfoldable pub add_ata : Option AtaSmartData → SelfTestInfo → SelfTestInfo
unfolding add_capabilities
add_ata none info = info
add_ata (some ata) info = add_capabilities ata.capabilities ata.self_test info

unfoldable pub nvme_supported :
    Option NvmeControllerCapabilities → Option NvmeOptionalAdminCommands → Bool
nvme_supported none none = false
nvme_supported none (some o) = o.self_test
nvme_supported (some c) none = c.self_test
nvme_supported (some c) (some o) = c.self_test || o.self_test

unfoldable pub add_nvme : Bool → SelfTestInfo → SelfTestInfo
add_nvme b info = if b then record info { available = info.available ++ "short" ∷ [] } else info

unfoldable pub populate_self_test_info :
    SelfTestInfo
    → Option AtaSmartData
    → Option NvmeControllerCapabilities
    → Option NvmeOptionalAdminCommands
    → SelfTestInfo
unfolding add_ata add_nvme nvme_supported
populate_self_test_info info ata nvme_caps nvme_optional =
    add_nvme (nvme_supported nvme_caps nvme_optional) (add_ata ata info)

abbrev pub empty_self_test_info : SelfTestInfo
empty_self_test_info = record { available = []; durations = [] }
