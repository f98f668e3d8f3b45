-- ===== src/Witnesses/Devices.antt =====
-- Scans and discoveries at concrete inputs.
use smartmontools_go.Base.{[], ◌∷◌, refl, List, ◌≡◌, ◌⊎◌}
use smartmontools_go.Types.{Device, DiscoveryResult}
use smartmontools_go.Backend.State.{command, Err, wrapped}
use smartmontools_go.Backend.Devices.{ok, err, scan_devices, discover_devices}
use smartmontools_go.Backend.Devices.Scan.{AllCached, scan_devices-caches, scan_devices-read}
use smartmontools_go.Backend.Devices.Discover.{AllReported, discover_devices-AllReported}
use smartmontools_go.Witnesses.{always, printed, known}

scan_devices-caches_example :
    AllCached
      (record { name = "/dev/sdb"; type = "sat" } ∷ [])
      (scan_devices (always (printed "[]")) known).1
unfolding command
scan_devices-caches_example =
    scan_devices-caches (always (printed "[]")) known
      (record { name = "/dev/sdb"; type = "sat" } ∷ [])
      (scan_devices-read (always (printed "[]")) (record { name = "/dev/sdb"; type = "sat" } ∷ [])
        known refl refl)

discover_devices-AllReported_example :
    ((e : Err) × ((scan_devices (always (printed "ssd")) known).0 ≡ err e)
      × ((discover_devices (always (printed "ssd")) known).0
          ≡ err (wrapped "failed to scan devices for discovery" e "")))
    ⊎ ((devs : List Device) × (rs : List DiscoveryResult) × ((scan_devices
            (always (printed "ssd"))
            known).0
          ≡ ok devs)
        × ((discover_devices (always (printed "ssd")) known).0 ≡ ok rs)
        × AllReported
            (always (printed "ssd"))
            devs
            (scan_devices (always (printed "ssd")) known).1
            rs
            (discover_devices (always (printed "ssd")) known).1)
discover_devices-AllReported_example = discover_devices-AllReported (always (printed "ssd")) known
