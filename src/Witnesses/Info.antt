-- ===== src/Witnesses/Info.antt =====
-- Queries of a device at concrete inputs.
use smartmontools_go.Base.{lookup, has_bits, pos, negsuc, ◌∷◌, ◌≡◌, refl}
use smartmontools_go.Backend.Info.{get_smart_info_internal}
use smartmontools_go.Backend.Info.Ends.{Ends}
use smartmontools_go.Backend.Info.Rule.{asked, get_smart_info_internal-Ends}
use smartmontools_go.Backend.Info.Result.{HasInfo, get_smart_info_internal-HasInfo}
use smartmontools_go.Backend.Info.Standby.{SaysStandby, info_call, get_smart_info_internal-standby}
use smartmontools_go.Witnesses.{always, printed, exited, killed, known}

get_smart_info_internal-Ends_example :
    Ends
      (always (exited (pos 4)))
      "/dev/sdb"
      (asked (always (exited (pos 4))) "/dev/sdb" known).1
      (asked (always (exited (pos 4))) "/dev/sdb" known).0
      (get_smart_info_internal (always (exited (pos 4))) "/dev/sdb" known).0
      (get_smart_info_internal (always (exited (pos 4))) "/dev/sdb" known).1
get_smart_info_internal-Ends_example =
    get_smart_info_internal-Ends (always (exited (pos 4))) "/dev/sdb" known

get_smart_info_internal-HasInfo_example :
    HasInfo (get_smart_info_internal (always (printed "nvme")) "/dev/nvme0" known).0
get_smart_info_internal-HasInfo_example =
    get_smart_info_internal-HasInfo (always (printed "nvme")) "/dev/nvme0" known

-- a killed process: exit code -1 has every bit
get_smart_info_internal-standby_example :
    let (a, t) = get_smart_info_internal (always killed) "/dev/sda" known in
    SaysStandby a × (t.calls ≡ info_call "/dev/sda" known ∷ known.calls)
unfolding lookup
get_smart_info_internal-standby_example =
    get_smart_info_internal-standby (always killed) "/dev/sda" known "sat" (negsuc 0) refl refl
      (unfold has_bits in refl)
