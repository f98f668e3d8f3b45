-- ===== src/Client/Progress/Finish.antt =====
-- How the watching goroutine ends: its last report, when it must end, and when it cannot.
use native.Mathlib.Nat.{le-div_iff_mul-le}
use smartmontools_go.Base.{
  ℕ, ◌*◌, ◌/◌, ◌^◌, ◌≤◌, ◌<◌, quot, wrap64_small, ℤ, pos, ltbℤ, lebℤ, Bool, true, false, ◌||◌,
  Option, none, some, List, [], ◌∷◌, ◌++◌, if◌then◌else◌, ◌≡◌, refl, arith,
}
use smartmontools_go.Types.{SmartInfo, StatusField, NvmeSmartTestLog, NvmeSmartHealth}
use smartmontools_go.Helpers.{self_test_status}
use smartmontools_go.Client.Progress.{
  Report, Round, time_progress, by_remaining, ata_part, complete, report_progress, completion_part,
  nvme_log_part, is_zero, test_completed, nvme_health_part, unless_ended, poll,
}

-- the progress of the last report
abbrev pub last_progress : List Report → Option ℤ
last_progress [] = none
last_progress (r ∷ []) = some r.progress
last_progress (_ ∷ r ∷ rs) = last_progress (r ∷ rs)

last_progress-append :
    (rs : List Report) (r : Report) → last_progress (rs ++ r ∷ []) ≡ some r.progress
last_progress-append [] r = refl
last_progress-append (x ∷ []) r = refl
last_progress-append (x ∷ y ∷ rs) r = last_progress-append (y ∷ rs) r

abbrev pub IsComplete : Round → Type 0
IsComplete r = r.ended ≡ true → last_progress r.reports ≡ some (pos 100)

if_round :
    (P : Round → Type 0) (b : Bool) (r s : Round)
    → (b ≡ true → P r)
    → (b ≡ false → P s)
    → P (if b then r else s)
if_round P true r s h k = h refl
if_round P false r s h k = k refl

unless_ended-IsComplete :
    (f : Round → Round) (r : Round)
    → IsComplete r
    → IsComplete (f r)
    → IsComplete (unless_ended f r)
unfolding unless_ended
unless_ended-IsComplete f r h k = if_round IsComplete r.ended r (f r) (λ _. h) (λ _. k)

ata_part-IsComplete : (o : Option StatusField) (p : ℤ) → IsComplete (ata_part o p)
unfolding ata_part
ata_part-IsComplete none p = λ h. absurd (ground arith)
ata_part-IsComplete (some st) p =
    if_round IsComplete
      (lebℤ st.value (pos 240) || lebℤ (pos 100) (by_remaining st.remaining_percent p)) _ _
      (λ _ _. refl) (λ _ h. absurd (ground arith))

complete-IsComplete : (r : Round) → IsComplete (complete r)
unfolding complete
complete-IsComplete r =
    λ h. last_progress-append r.reports (record { progress = pos 100; note = test_completed })

report_progress-IsComplete : (p : ℤ) (r : Round) → IsComplete (report_progress p r)
unfolding report_progress
report_progress-IsComplete p r = λ h. absurd (ground arith)

completion_part-IsComplete :
    (o : Option ℤ) (r : Round) → IsComplete r → IsComplete (completion_part o r)
completion_part-IsComplete none r h = unfold completion_part in h
completion_part-IsComplete (some p) r h = unfold completion_part in report_progress-IsComplete p r

nvme_log_part-IsComplete :
    (o : Option NvmeSmartTestLog) (r : Round) → IsComplete r → IsComplete (nvme_log_part o r)
nvme_log_part-IsComplete none r h = unfold nvme_log_part in h
nvme_log_part-IsComplete (some log) r h =
    unfold nvme_log_part in
    if_round IsComplete (is_zero log.current_operation) (complete r)
      (completion_part log.current_completion r) (λ _. complete-IsComplete r)
      (λ _. completion_part-IsComplete log.current_completion r h)

nvme_health_part-IsComplete :
    (b : Bool) (o : Option NvmeSmartHealth) (r : Round)
    → IsComplete r
    → IsComplete (nvme_health_part b o r)
nvme_health_part-IsComplete b none r h = unfold nvme_health_part in h
nvme_health_part-IsComplete b (some o) r h =
    unfold nvme_health_part in
    if_round IsComplete b (complete r) (report_progress r.progress r) (λ _. complete-IsComplete r)
      (λ _. report_progress-IsComplete r.progress r)

-- Where a query ends the watch, the last that the callback is told is a progress of 100.
pub poll-IsComplete :
    (total : ℤ) (elapsed : ℕ) (i : SmartInfo)
    → (poll total elapsed i).ended ≡ true
    → last_progress (poll total elapsed i).reports ≡ some (pos 100)
poll-IsComplete total elapsed i =
    unfold poll in
    let ata = ata_part (self_test_status i) (time_progress total elapsed) in
    let h = ata_part-IsComplete (self_test_status i) (time_progress total elapsed) in
    let nvme = unless_ended (nvme_log_part i.nvme_smart_test_log) ata in
    let k =
      unless_ended-IsComplete (nvme_log_part i.nvme_smart_test_log) ata h
        (nvme_log_part-IsComplete i.nvme_smart_test_log ata h) in
    unless_ended-IsComplete (nvme_health_part (lebℤ total (pos elapsed)) i.nvme_smart_health) nvme k
      (nvme_health_part-IsComplete (lebℤ total (pos elapsed)) i.nvme_smart_health nvme k)

-- the info reports on an ATA self-test, or has NVMe health data
pub data Reports (i : SmartInfo) : Type 0 where
  by_ata : (st : StatusField) → self_test_status i ≡ some st → Reports i
  by_nvme : (h : NvmeSmartHealth) → i.nvme_smart_health ≡ some h → Reports i

unfoldable HasEnded : Round → Type 0
HasEnded r = r.ended ≡ true

unless_ended-first :
    (f : Round → Round) (r : Round) → r.ended ≡ true → (unless_ended f r).ended ≡ true
unfolding unless_ended HasEnded
unless_ended-first f r h = if_round HasEnded r.ended r (f r) (λ e. h) (λ e. absurd (ground arith))

unless_ended-second :
    (f : Round → Round) (r : Round) → (f r).ended ≡ true → (unless_ended f r).ended ≡ true
unfolding unless_ended HasEnded
unless_ended-second f r h = if_round HasEnded r.ended r (f r) (λ e. e) (λ e. h)

time_progress-full :
    (total elapsed : ℕ)
    → 0 < total
    → total ≤ elapsed
    → elapsed * 100 < 2 ^ 63
    → time_progress (pos total) elapsed ≡ pos 100
unfolding time_progress quot ltbℤ
time_progress-full total elapsed z h fits =
    let full : 100 ≤ elapsed * 100 / total = (le-div_iff_mul-le z).1 (omega arith) in
    rw (wrap64_small (elapsed * 100) fits) (ground arith)

by_remaining-full : (o : Option ℤ) → lebℤ (pos 100) (by_remaining o (pos 100)) ≡ true
by_remaining-full none = unfold by_remaining in unfold lebℤ in refl
by_remaining-full (some v) = unfold by_remaining in unfold lebℤ ltbℤ in ground arith

ata_part-full : (st : StatusField) → (ata_part (some st) (pos 100)).ended ≡ true
unfolding ata_part HasEnded
ata_part-full st =
    if_round HasEnded
      (lebℤ st.value (pos 240) || lebℤ (pos 100) (by_remaining st.remaining_percent (pos 100))) _ _
      (λ _. refl) (λ e. absurd (ground (arith, by_remaining-full st.remaining_percent)))

lebℤ-pos : (a b : ℕ) → a ≤ b → lebℤ (pos a) (pos b) ≡ true
unfolding lebℤ
lebℤ-pos a b h = ground arith

pub poll-over :
    (total elapsed : ℕ) (i : SmartInfo)
    → 0 < total
    → total ≤ elapsed
    → elapsed * 100 < 2 ^ 63
    → Reports i
    → (poll (pos total) elapsed i).ended ≡ true
poll-over total elapsed i z h fits (by_ata st e) =
    unfold poll in
    unless_ended-first (nvme_health_part (lebℤ (pos total) (pos elapsed)) i.nvme_smart_health) _ (
      unless_ended-first (nvme_log_part i.nvme_smart_test_log)
        (ata_part (self_test_status i) (time_progress (pos total) elapsed))
        (rw (e, time_progress-full total elapsed z h fits) (ata_part-full st)))
poll-over total elapsed i z h fits (by_nvme d e) =
    unfold poll in
    let ata = ata_part (self_test_status i) (time_progress (pos total) elapsed) in
    unless_ended-second (nvme_health_part (lebℤ (pos total) (pos elapsed)) i.nvme_smart_health)
      (unless_ended (nvme_log_part i.nvme_smart_test_log) ata)
      (rw (e, lebℤ-pos total elapsed h) (unfold nvme_health_part in unfold complete in refl))
