-- ===== src/Backend/State/Concurrent.antt =====
-- The device-type cache as several goroutines use it at once: each read and each write of the map takes the
-- mutex, but the check for a cached type and the write behind it are two steps.
pub mod Kept
pub mod HintLost
use smartmontools_go.Base.{
  String, Option, none, some, List, [], ◌∷◌, GoMap, lookup, insert, if◌then◌else◌, ◌==◌,
}

-- what a goroutine is about to do with the type of a path: write it, as a hint or behind a retry; write it
-- if there is none; write it, having found none; nothing more
pub data Task : Type 0 where
  giving reporting storing settled : String → String → Task

unfoldable pub report_step : String → String → Option String → Task
report_step path device_type none =
    if device_type == "" then settled path device_type else storing path device_type
report_step path device_type (some _) = settled path device_type

unfoldable pub task_step : Task → GoMap String → Task × GoMap String
unfolding report_step
task_step (giving path device_type) m = (settled path device_type, insert path device_type m)
task_step (reporting path device_type) m = (report_step path device_type (lookup path m), m)
task_step (storing path device_type) m = (settled path device_type, insert path device_type m)
task_step (settled path device_type) m = (settled path device_type, m)
