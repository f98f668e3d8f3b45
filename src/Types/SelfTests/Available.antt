-- ===== src/Types/SelfTests/Available.antt =====
-- What `PopulateSelfTestInfo` reports.
use smartmontools_go.Base.{
  ℤ, pos, ltbℤ, ◌≤ℤ◌, String, Bool, true, false, Option, none, some, List, [], ◌∷◌, ◌++◌, GoMap,
  lookup, lookup-insert, if◌then◌else◌, ◌≡◌, refl, arith,
}
use smartmontools_go.Types.{
  AtaSmartData, Capabilities, PollingMinutes, SelfTest, SelfTestInfo, NvmeControllerCapabilities,
  NvmeOptionalAdminCommands,
}
use smartmontools_go.Types.SelfTests.{
  contains, valid_self_test_types, put_duration, durations_of, polling_of, ata_available,
  add_capabilities, add_ata, nvme_supported, add_nvme, populate_self_test_info,
}

abbrev pub AllValid : List String → Type 0
AllValid [] = Unit
AllValid (t ∷ ts) = (contains valid_self_test_types t ≡ true) × AllValid ts

AllValid-append : (ts us : List String) → AllValid ts → AllValid us → AllValid (ts ++ us)
AllValid-append [] us h k = k
AllValid-append (t ∷ ts) us (v, h) k = (v, AllValid-append ts us h k)

if_valid : (b : Bool) (ts : List String) → AllValid ts → AllValid (if b then ts else [])
if_valid true ts h = h
if_valid false ts h = tt

ata_available-valid : (caps : Capabilities) → AllValid (ata_available caps)
ata_available-valid caps =
    unfold ata_available in
    unfold contains in
    AllValid-append _ _
      (AllValid-append _ _
        (if_valid caps.self_tests_supported ("short" ∷ "long" ∷ []) (refl, (refl, tt)))
        (if_valid caps.conveyance_self_test_supported ("conveyance" ∷ []) (refl, tt)))
      (if_valid caps.exec_offline_immediate ("offline" ∷ []) (refl, tt))

add_capabilities-valid :
    (caps : Option Capabilities) (t : Option SelfTest) (info : SelfTestInfo)
    → AllValid info.available
    → AllValid (add_capabilities caps t info).available
add_capabilities-valid none t info h = unfold add_capabilities in h
add_capabilities-valid (some caps) t info h =
    unfold add_capabilities in
    AllValid-append info.available (ata_available caps) h (ata_available-valid caps)

add_ata-valid :
    (ata : Option AtaSmartData) (info : SelfTestInfo)
    → AllValid info.available
    → AllValid (add_ata ata info).available
add_ata-valid none info h = unfold add_ata in h
add_ata-valid (some ata) info h =
    unfold add_ata in add_capabilities-valid ata.capabilities ata.self_test info h

add_nvme-valid :
    (b : Bool) (info : SelfTestInfo)
    → AllValid info.available
    → AllValid (add_nvme b info).available
add_nvme-valid true info h =
    unfold add_nvme in unfold contains in AllValid-append info.available ("short" ∷ []) h (refl, tt)
add_nvme-valid false info h = unfold add_nvme in h

-- Every test that is reported as available is a type that `RunSelfTest` accepts, if that holds of the
-- record before.
pub populate_self_test_info-AllValid :
    (info : SelfTestInfo) (ata : Option AtaSmartData) (caps : Option NvmeControllerCapabilities)
    (optional : Option NvmeOptionalAdminCommands)
    → AllValid info.available
    → AllValid (populate_self_test_info info ata caps optional).available
populate_self_test_info-AllValid info ata caps optional h =
    unfold populate_self_test_info in
    add_nvme-valid (nvme_supported caps optional) (add_ata ata info) (add_ata-valid ata info h)

-- every duration of the map is positive
abbrev pub Positive : GoMap ℤ → Type 0
Positive m = (name : String) (v : ℤ) → lookup name m ≡ some v → pos 1 ≤ℤ v

put_duration-Positive :
    (name : String) (minutes : ℤ) (m : GoMap ℤ)
    → Positive m
    → Positive (put_duration name minutes m)
unfolding put_duration ltbℤ
put_duration-Positive name minutes m h k v e = ground (arith, lookup-insert name k minutes m, h k v)

durations_of-Positive :
    (pm : Option PollingMinutes) (m : GoMap ℤ) → Positive m → Positive (durations_of pm m)
durations_of-Positive none m h = unfold durations_of in h
durations_of-Positive (some pm) m h =
    unfold durations_of in
    let short = put_duration-Positive "short" pm.short m h in
    let long = put_duration-Positive "long" pm.extended (put_duration "short" pm.short m) short in
    put_duration-Positive "conveyance" pm.conveyance
      (put_duration "long" pm.extended (put_duration "short" pm.short m)) long

add_capabilities-Positive :
    (caps : Option Capabilities) (t : Option SelfTest) (info : SelfTestInfo)
    → Positive info.durations
    → Positive (add_capabilities caps t info).durations
add_capabilities-Positive none t info h = unfold add_capabilities in h
add_capabilities-Positive (some caps) t info h =
    unfold add_capabilities in durations_of-Positive (polling_of t) info.durations h

add_ata-Positive :
    (ata : Option AtaSmartData) (info : SelfTestInfo)
    → Positive info.durations
    → Positive (add_ata ata info).durations
add_ata-Positive none info h = unfold add_ata in h
add_ata-Positive (some ata) info h =
    unfold add_ata in add_capabilities-Positive ata.capabilities ata.self_test info h

add_nvme-Positive :
    (b : Bool) (info : SelfTestInfo)
    → Positive info.durations
    → Positive (add_nvme b info).durations
add_nvme-Positive true info h = unfold add_nvme in h
add_nvme-Positive false info h = unfold add_nvme in h

-- Every duration that is reported is at least a minute, if that holds of the record before.
populate_self_test_info-Positive :
    (info : SelfTestInfo) (ata : Option AtaSmartData) (caps : Option NvmeControllerCapabilities)
    (optional : Option NvmeOptionalAdminCommands)
    → Positive info.durations
    → Positive (populate_self_test_info info ata caps optional).durations
populate_self_test_info-Positive info ata caps optional h =
    unfold populate_self_test_info in
    add_nvme-Positive (nvme_supported caps optional) (add_ata ata info)
      (add_ata-Positive ata info h)
