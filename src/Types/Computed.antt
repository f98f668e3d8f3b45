-- ===== src/Types/Computed.antt =====
-- The fields of a `SmartInfo` that are computed, and tagged "-": no document sets them.
use smartmontools_go.Base.{none, some, ◌≡◌, refl}
use smartmontools_go.Types.{SmartInfo, zero_info}
use smartmontools_go.Json.{Json}
use smartmontools_go.Json.Preserve.{
  AllPreserve, none_left, keeps, within-Preserves, decode_struct-Preserves,
}
use smartmontools_go.Types.Decode.{decode_info, info_table}

-- both computed fields are at their zero values
abbrev pub Uncomputed : SmartInfo → Type 0
Uncomputed i = (i.disk_type ≡ "") × (i.exit_code_info ≡ none)

info_table-Uncomputed : AllPreserve Uncomputed info_table
info_table-Uncomputed = keeps (within-Preserves Uncomputed _ _ _ (λ b a h. h)) (
    keeps (within-Preserves Uncomputed _ _ _ (λ b a h. h)) (
      keeps (within-Preserves Uncomputed _ _ _ (λ b a h. h)) (
        keeps (within-Preserves Uncomputed _ _ _ (λ b a h. h)) (
          keeps (within-Preserves Uncomputed _ _ _ (λ b a h. h)) (
            keeps (within-Preserves Uncomputed _ _ _ (λ b a h. h)) (
              keeps (within-Preserves Uncomputed _ _ _ (λ b a h. h)) (
                keeps (within-Preserves Uncomputed _ _ _ (λ b a h. h)) (
                  keeps (within-Preserves Uncomputed _ _ _ (λ b a h. h)) (
                    keeps (within-Preserves Uncomputed _ _ _ (λ b a h. h)) (
                      keeps (within-Preserves Uncomputed _ _ _ (λ b a h. h)) (
                        keeps (within-Preserves Uncomputed _ _ _ (λ b a h. h)) (
                          keeps (within-Preserves Uncomputed _ _ _ (λ b a h. h)) (
                            keeps (within-Preserves Uncomputed _ _ _ (λ b a h. h)) (
                              keeps (within-Preserves Uncomputed _ _ _ (λ b a h. h)) (
                                keeps (within-Preserves Uncomputed _ _ _ (λ b a h. h)) (
                                  keeps (within-Preserves Uncomputed _ _ _ (λ b a h. h)) (
                                    keeps (within-Preserves Uncomputed _ _ _ (λ b a h. h))
                                      none_left)))))))))))))))))

-- No document sets the disk type or the exit code info.
pub decode_info-Uncomputed :
    (j : Json) (i : SmartInfo) → decode_info j zero_info ≡ some i → Uncomputed i
unfolding decode_info
decode_info-Uncomputed j i e =
    decode_struct-Preserves Uncomputed info_table info_table-Uncomputed j zero_info i (refl, refl) e
