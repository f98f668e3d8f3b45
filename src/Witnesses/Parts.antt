-- ===== src/Witnesses/Parts.antt =====
-- The functions on parsed infos at concrete inputs.
use smartmontools_go.Types.{elements}
use smartmontools_go.Base.{
  pos, ◌≤ℤ◌, none, some, [], ◌≡◌, refl, eqbℤ, ltbℤ, ◌-ℤ◌, wrap64, lookup, arith,
}
use smartmontools_go.Types.SelfTests.{populate_self_test_info, empty_self_test_info}
use smartmontools_go.Types.SelfTests.Available.{
  AllValid, Positive, populate_self_test_info-AllValid,
}
use smartmontools_go.Types.Wear.{wear_level_percent}
use smartmontools_go.Types.Wear.Percent.{
  first_some, last_with, remaining, used, wear_level_percent-IsPercent, wear_level_percent-ssd,
}
use smartmontools_go.Helpers.{check_smart_status}
use smartmontools_go.Helpers.Status.{check_smart_status-exit_code}
use smartmontools_go.Witnesses.{ssd_info, an_ata, exit_document}

check_smart_status-exit_code_example :
    (check_smart_status ssd_info).exit_code_info ≡ some (record { exec_bits = 4; health_bits = 64 })
check_smart_status-exit_code_example =
    check_smart_status-exit_code ssd_info (exit_document (pos 68)) 68 refl refl (ground arith)
      (ground arith)

wear_level_percent-IsPercent_example : (pos 0 ≤ℤ pos 0) × (pos 0 ≤ℤ pos 100)
unfolding wear_level_percent eqbℤ ltbℤ ◌-ℤ◌ wrap64
wear_level_percent-IsPercent_example = wear_level_percent-IsPercent ssd_info (pos 0) refl

wear_level_percent-ssd_example :
    wear_level_percent ssd_info
    ≡ first_some (last_with (pos 231) remaining (elements an_ata.table)) (
        first_some
          (last_with (pos 177) remaining (elements an_ata.table))
          (last_with (pos 173) used (elements an_ata.table)))
wear_level_percent-ssd_example = wear_level_percent-ssd ssd_info an_ata refl refl

populate_self_test_info-AllValid_example :
    AllValid (populate_self_test_info empty_self_test_info (some an_ata) none none).available
populate_self_test_info-AllValid_example =
    populate_self_test_info-AllValid empty_self_test_info (some an_ata) none none tt

no_durations : Positive []
unfolding lookup
no_durations name v h = absurd (ground arith)
