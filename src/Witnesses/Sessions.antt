-- ===== src/Witnesses/Sessions.antt =====
-- Sessions at concrete inputs.
use mathlib.Core.List.{Memᴰ}
use smartmontools_go.Base.{
  String, GoMap, insert, ◌+◌, ◌≤◌, true, some, List, [], ◌∷◌, ◌≡◌, ◌⊎◌, refl, length, lookup,
}
use smartmontools_go.Text.{contains_text, to_lower}
use smartmontools_go.Helpers.{is_ata_device}
use smartmontools_go.Interleave.{here, there, Steps, start, next}
use smartmontools_go.Backend.State.Concurrent.{
  Task, giving, reporting, settled, report_step, task_step,
}
use smartmontools_go.Backend.State.Concurrent.Kept.{Harmless, types_kept}
use smartmontools_go.Backend.State.Concurrent.HintLost.{hint_lost}
use smartmontools_go.Backend.State.{
  set_cached_device_type, cache_if_absent, output, get_cached_device_type,
}
use smartmontools_go.Backend.Session.{
  Op, discover_op, scan_op, set_hint, info, health, disable, perform, session, hints, discovers,
  any_op, device_type_hint,
}
use smartmontools_go.Backend.Session.Effects.{total_cost}
use smartmontools_go.Backend.Session.Whole.{session_types, session_commands, session_hint}
use smartmontools_go.Witnesses.{always, printed, known}

-- operations on a disk with a cached type and on another
abbrev some_ops : List Op
some_ops =
    scan_op
    ∷ set_hint "/dev/sdb" "usbjmicron"
    ∷ info "/dev/sda"
    ∷ disable "/dev/sdb"
    ∷ health "/dev/sda"
    ∷ []

session_types_example :
    let t = (session (always (printed "ssd")) (discover_op ∷ some_ops) known).1 in
    (get_cached_device_type "/dev/nvme0" t ≡ some "NVMe")
    ⊎ ((any_op discovers (discover_op ∷ some_ops) ≡ true)
        × (get_cached_device_type "/dev/nvme0" t ≡ some "sat"))
unfolding any_op hints lookup
session_types_example =
    session_types (always (printed "ssd")) "/dev/nvme0" (discover_op ∷ some_ops) known "NVMe" refl
      refl

session_commands_example :
    let (outcomes, t) = session (always (printed "ssd")) some_ops known in
    length t.calls ≤ total_cost outcomes + length known.calls
session_commands_example = session_commands (always (printed "ssd")) some_ops known

session_hint_example :
    let t =
      (session
        (always (printed "ssd"))
        (set_hint "/dev/sda" "scsi" ∷ info "/dev/sda" ∷ some_ops)
        known).1 in
    (device_type_hint "/dev/sda" t ≡ some "scsi")
    × ((perform (always (printed "ssd")) (health "/dev/sda") t).1.calls
        ≡ record {
          method = output;
          name = t.smartctl_path;
          args = "-H" ∷ "--nocheck=standby" ∷ "-d" ∷ "scsi" ∷ "/dev/sda" ∷ [];
        }
          ∷ t.calls)
unfolding any_op hints discovers is_ata_device contains_text to_lower
session_hint_example =
    session_hint (always (printed "ssd")) "/dev/sda" "scsi" (info "/dev/sda" ∷ some_ops) known refl
      refl

hint_lost_example :
    ((m : GoMap String) × Steps task_step
        (reporting "/dev/sdb" "sat" ∷ giving "/dev/sdb" "usbjmicron" ∷ [])
        known.device_type_cache
        (settled "/dev/sdb" "sat" ∷ settled "/dev/sdb" "usbjmicron" ∷ [])
        m
      × (lookup "/dev/sdb" m ≡ some "sat"))
    × (get_cached_device_type "/dev/sdb"
          (set_cached_device_type "/dev/sdb" "usbjmicron" (cache_if_absent "/dev/sdb" "sat" known))
        ≡ some "usbjmicron")
    × (get_cached_device_type "/dev/sdb"
          (cache_if_absent "/dev/sdb" "sat" (set_cached_device_type "/dev/sdb" "usbjmicron" known))
        ≡ some "usbjmicron")
unfolding lookup
hint_lost_example = hint_lost "/dev/sdb" "usbjmicron" "sat" known refl refl

-- a query of a disk whose type is known, while another disk gets a hint
abbrev two_tasks : List Task
two_tasks = reporting "/dev/sda" "scsi" ∷ giving "/dev/sdb" "nvme" ∷ []

two_tasks-Harmless : (t : Task) → Memᴰ t two_tasks → Harmless "/dev/sda" t
two_tasks-Harmless t (Memᴰ.head e) = rw e tt
two_tasks-Harmless t (Memᴰ.tail (Memᴰ.head e)) = rw e refl
two_tasks-Harmless t (Memᴰ.tail (Memᴰ.tail m)) = elim m [ ]

types_kept_example :
    lookup "/dev/sda" (insert "/dev/sdb" "nvme" known.device_type_cache) ≡ some "sat"
unfolding task_step report_step lookup
types_kept_example =
    types_kept two_tasks (settled "/dev/sda" "scsi" ∷ settled "/dev/sdb" "nvme" ∷ [])
      known.device_type_cache (insert "/dev/sdb" "nvme" known.device_type_cache) "/dev/sda" "sat"
      two_tasks-Harmless refl (next (next start here) (there here))
