-- ===== src/Backend/Version/Supported.antt =====
-- Which versions `ensureCompatibleSmartctl` accepts.
use smartmontools_go.Base.{ℕ, ◌≤◌, String, false, Option, none, some, ◌≡◌, refl, arith, ◌↔◌}
use smartmontools_go.Backend.State.{Err, Reply}
use smartmontools_go.Backend.Version.{
  atoi_both, parsed_of, find_version, parse_smartctl_version, check_version, ensure_from,
  ensure_compatible_smartctl, max_int,
}

pub data IsCompatible : Option (ℕ × ℕ) → Type 0 where
  compatible :
      (major minor : ℕ)
      → 7 ≤ major
      → major ≤ max_int
      → minor ≤ max_int
      → IsCompatible (some (major, minor))

found-IsCompatible : (v : Option (ℕ × ℕ)) → check_version (parsed_of v) ≡ none → IsCompatible v
unfolding check_version parsed_of atoi_both
found-IsCompatible none h = absurd (ground arith)
found-IsCompatible (some (major, minor)) h =
    compatible major minor (ground arith) (ground arith) (ground arith)

IsCompatible-found : (v : Option (ℕ × ℕ)) → IsCompatible v → check_version (parsed_of v) ≡ none
unfolding check_version parsed_of atoi_both
IsCompatible-found _ (compatible major minor a b c) = ground arith

ensure_iff :
    (e : Option Err) (out : String)
    → (ensure_from e out ≡ none) ↔ ((e ≡ none) × IsCompatible (find_version false out))
unfolding ensure_from parse_smartctl_version
ensure_iff none out = (
  λ h. (refl, found-IsCompatible (find_version false out) h),
  λ h. IsCompatible-found (find_version false out) h.1,
)
ensure_iff (some e) out = (λ h. absurd (ground arith), λ h. absurd (ground arith))

-- smartctl is accepted exactly if `smartctl -V` succeeds and the first version in its output has a major
-- number of at least 7, both numbers being in the range of an int.
pub ensure_compatible_smartctl-IsCompatible :
    (reply : Reply)
    → (ensure_compatible_smartctl reply ≡ none)
      ↔ ((reply.err ≡ none) × IsCompatible (find_version false reply.out))
ensure_compatible_smartctl-IsCompatible reply =
    unfold ensure_compatible_smartctl in ensure_iff reply.err reply.out
