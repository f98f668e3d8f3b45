-- ===== src/Helpers/Status.antt =====
-- `checkSmartStatus`: the decoded exit status, and when a self-test runs.
use smartmontools_go.Base.{
  ℕ, zero, suc, ◌*◌, ◌/◌, ◌%◌, ◌<◌, pos, ◌≤ℤ◌, eqbℤ, eqb, and_mask, Bool, true, ◌&&◌, Option, some,
  ◌≡◌, refl, ◌↔◌, ◌∙◌, arith, eqb_iff, lebℤ_iff,
}
use smartmontools_go.Types.{SmartInfo, SmartctlInfo, ExitCodeInfo, StatusField}
use smartmontools_go.Helpers.{is_running, self_test_status, exit_code_info_of, check_smart_status}

all_below : ℕ → (ℕ → Bool) → Bool
all_below zero p = true
all_below (suc n) p = p n && all_below n p

all_below-lt : (n : ℕ) (p : ℕ → Bool) (x : ℕ) → all_below n p ≡ true → x < n → p x ≡ true
unfolding all_below
all_below-lt zero p x h lt = absurd (omega arith)
all_below-lt (suc n) p x h lt = ground (arith, all_below-lt n p x)

splits : ℕ → Bool
unfolding and_mask
splits n = eqb (and_mask (pos n) 0x07) (n % 8) && eqb (and_mask (pos n) 0xF8) (n / 8 * 8)

split_table : all_below 256 splits ≡ true
unfolding all_below splits
split_table = refl

and_true : (a b : Bool) → a && b ≡ true → (a ≡ true) × (b ≡ true)
and_true a b h = (ground arith, ground arith)

low_bits : (n : ℕ) → n < 256 → (and_mask (pos n) 0x07 ≡ n % 8) × (and_mask (pos n) 0xF8 ≡ n / 8 * 8)
low_bits n h =
    let both : splits n ≡ true = all_below-lt 256 splits n split_table h in
    let (a, b) =
      and_true (eqb (and_mask (pos n) 0x07) (n % 8)) (eqb (and_mask (pos n) 0xF8) (n / 8 * 8))
        (unfold splits in both) in
    ((eqb_iff _ _).0 a, (eqb_iff _ _).0 b)

exit_code_info_of-pos :
    (n : ℕ) (old : Option ExitCodeInfo)
    → 0 < n
    → exit_code_info_of (pos n) old
      ≡ some (record { exec_bits = and_mask (pos n) 0x07; health_bits = and_mask (pos n) 0xF8 })
unfolding exit_code_info_of eqbℤ
exit_code_info_of-pos n old h = ground arith

-- The two halves of an exit status between 1 and 255, as `checkSmartStatus` reports them, are its
-- remainder and its multiple of 8: no bit is lost and none is in both.
pub check_smart_status-exit_code :
    (i : SmartInfo) (ctl : SmartctlInfo) (n : ℕ)
    → i.smartctl ≡ some ctl
    → ctl.exit_status ≡ pos n
    → 0 < n
    → n < 256
    → (check_smart_status i).exit_code_info
      ≡ some (record { exec_bits = n % 8; health_bits = n / 8 * 8 })
check_smart_status-exit_code i ctl n hc he h0 h =
    unfold check_smart_status in
    rw (hc, he)
      (exit_code_info_of-pos n i.exit_code_info h0
        ∙ (let (low, high) = low_bits n h in rw (low, high) refl))

-- A self-test is reported as running exactly if the ATA status value, where there is one, lies in 240 ... 253.
pub is_running-ata :
    (i : SmartInfo) (st : StatusField)
    → self_test_status i ≡ some st
    → (is_running i ≡ true) ↔ ((pos 240 ≤ℤ st.value) × (st.value ≤ℤ pos 253))
is_running-ata i st h =
    unfold is_running in
    rw h (ground (arith, lebℤ_iff (pos 240) st.value, lebℤ_iff st.value (pos 253)))
