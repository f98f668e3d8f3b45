-- ===== src/Backend/Version.antt =====
-- `parseSmartctlVersion` and `ensureCompatibleSmartctl`.
pub mod Supported
use Prim.Native.Char.{Char, code}
use Prim.Native.String
use Prim.Native.String.{[], ◌∷◌}
use smartmontools_go.Base.{
  ℕ, ◌+◌, ◌-◌, ◌*◌, ◌^◌, ◌≤◌, String, Bool, true, false, not, ◌&&◌, ◌||◌, Option, none, some, ltb,
  leb, eqb, if◌then◌else◌, ◌≡◌, refl,
}
use smartmontools_go.Drivedb.Bridge.{skip_literal}
use smartmontools_go.Backend.State.{Err, Reply, plain, wrapped, unsupported_version}

-- \d, \w and \s of Go's regular expressions
unfoldable pub is_digit : Char → Bool
is_digit c = leb b'0' (code c) && leb (code c) b'9'

unfoldable pub is_word : Char → Bool
unfolding is_digit
is_word c =
    is_digit c
    || (leb b'a' (code c) && leb (code c) b'z')
    || (leb b'A' (code c) && leb (code c) b'Z')
    || eqb (code c) b'_'

unfoldable pub is_space : Char → Bool
is_space c =
    eqb (code c) 9 || eqb (code c) 10 || eqb (code c) 12 || eqb (code c) 13 || eqb (code c) 32

-- the longest run of digits at the front as a number, with how many there are, and the rest
span_number : ℕ → ℕ → String → ℕ × ℕ × String
unfolding is_digit
span_number n k String.[] = (n, k, "")
span_number n k (String.◌∷◌ c s) = elim (is_digit c) [
  | true ↦ span_number (n * 10 + (code c - b'0')) (k + 1) s
  | false ↦ (n, k, String.◌∷◌ c s)
]

-- \d+
digits : String → Option (ℕ × String)
unfolding span_number
digits s = (let (n, k, rest) = span_number 0 0 s in if eqb k 0 then none else some (n, rest))

drop_spaces : String → String
unfolding is_space
drop_spaces String.[] = ""
drop_spaces (String.◌∷◌ c s) = elim (is_space c) [ true ↦ drop_spaces s | false ↦ String.◌∷◌ c s ]

-- \s+
spaces : String → Option String
unfolding is_space drop_spaces
spaces String.[] = none
spaces (String.◌∷◌ c s) = if is_space c then some (drop_spaces s) else none

-- \b behind a digit
ends_word : String → Bool
unfolding is_word
ends_word String.[] = true
ends_word (String.◌∷◌ c s) = not (is_word c)

infixl 5 ◌>>=◌
abbrev ◌>>=◌ {ℓ κ} : {A : Type ℓ} {B : Type κ} → Option A → (A → Option B) → Option B
none >>= f = none
some a >>= f = f a

-- `smartctl\s+(\d+)\.(\d+)\b` at the front. Each run is taken as long as it goes: after a shorter one
-- the pattern cannot go on, since its next character is one of the run's kind.
version_at : String → Option (ℕ × ℕ)
unfolding skip_literal spaces digits ends_word
version_at s = do
  s1 ← skip_literal "smartctl" s
  s2 ← spaces s1
  (major, s3) ← digits s2
  s4 ← skip_literal "." s3
  (minor, s5) ← digits s4
  if ends_word s5 then some (major, minor) else none

-- the leftmost match; the Boolean says that the character before is a word character, where the
-- leading \b does not hold
unfoldable pub find_version : Bool → String → Option (ℕ × ℕ)
unfolding version_at is_word
find_version in_word String.[] = none
find_version in_word (String.◌∷◌ c s) =
    elim (if in_word then none else version_at (String.◌∷◌ c s)) [
      | some v ↦ some v
      | none ↦ find_version (is_word c) s
    ]

abbrev pub max_int : ℕ
max_int = 2 ^ 63 - 1

pub data Parsed : Type 0 where
  version : ℕ → ℕ → Parsed
  bad : Err → Parsed

-- strconv.Atoi of each capture: only the range can be wrong
unfoldable pub atoi_both : ℕ → ℕ → Parsed
atoi_both major minor =
    if ltb max_int major
    then bad (wrapped "failed to parse major version" (plain "value out of range") "")
    else if ltb max_int minor
    then bad (wrapped "failed to parse minor version" (plain "value out of range") "")
    else version major minor

unfoldable pub parsed_of : Option (ℕ × ℕ) → Parsed
unfolding atoi_both
parsed_of none = bad (plain "version pattern not found in output")
parsed_of (some (major, minor)) = atoi_both major minor

unfoldable pub parse_smartctl_version : String → Parsed
unfolding find_version parsed_of
parse_smartctl_version output = parsed_of (find_version false output)

abbrev pub min_major : ℕ
min_major = 7

abbrev pub min_minor : ℕ
min_minor = 0

unfoldable pub check_version : Parsed → Option Err
check_version (bad e) = some (wrapped "unable to parse smartctl version" e "")
check_version (version major minor) =
    if ltb major min_major || (eqb major min_major && ltb minor min_minor)
    then some (unsupported_version major minor)
    else none

unfoldable pub ensure_from : Option Err → String → Option Err
unfolding check_version
ensure_from (some e) out = some (wrapped "failed to check smartctl version" e "")
ensure_from none out = check_version (parse_smartctl_version out)

-- the argument is what `smartctl -V` answered
unfoldable pub ensure_compatible_smartctl : Reply → Option Err
unfolding ensure_from
ensure_compatible_smartctl reply = ensure_from reply.err reply.out

version_tests :
    (parse_smartctl_version "smartctl 7.3 2022-02-28 r5338 [x86_64-linux] (local build)\n..."
      ≡ version 7 3)
    × (parse_smartctl_version "mysmartctl 7.3 smartctl  7.12x smartctl\t6.1" ≡ version 6 1)
    × (parse_smartctl_version "some random output"
        ≡ bad (plain "version pattern not found in output"))
unfolding parse_smartctl_version
version_tests = (refl, refl, refl)
