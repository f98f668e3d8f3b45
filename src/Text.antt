-- ===== src/Text.antt =====
-- What the program uses of Go's `strings` package, over the native `String`. Every text that the
-- program tests is ASCII in practice; `to_lower` maps ASCII letters only.
use Prim.Native.Char.{Char, code}
use Prim.Native.String
use Prim.Native.String.{[], ◌∷◌, char_at}
use text.Mathlib.TextLemmas.{nil-append, cons-append}
use smartmontools_go.Base.{
  ℕ, zero, suc, ◌-◌, ◌<◌, String, Bool, true, false, not, ◌&&◌, leb, if◌then◌else◌, is_some, find?,
  ◌≡◌, refl, ap, arith, Bool-cases, inl, inr, eqb,
}

-- Go's `+` on strings
abbrev pub concat : String → String → String
concat = String.◌++◌

-- strings.Contains
unfoldable pub contains_text : String → String → Bool
contains_text s t = is_some (find? s t)

abbrev is_upper : Char → Bool
is_upper c = leb b'A' (code c) && leb (code c) b'Z'

abbrev lower_letters : String
lower_letters = "abcdefghijklmnopqrstuvwxyz"

lower_char : Char → Char
lower_char c = if is_upper c then char_at lower_letters (code c - b'A') else c

-- strings.ToLower
unfoldable pub to_lower : String → String
unfolding lower_char
to_lower [] = []
to_lower (c ∷ s) = lower_char c ∷ to_lower s

to_lower_test : to_lower "0x152D:A-z" ≡ "0x152d:a-z"
unfolding to_lower
to_lower_test = refl

pub to_lower-concat : (s t : String) → to_lower (concat s t) ≡ concat (to_lower s) (to_lower t)
unfolding to_lower
to_lower-concat [] t = rw (nil-append t, nil-append (to_lower t)) refl
to_lower-concat (c ∷ s) t =
    rw (cons-append c s t, cons-append (lower_char c) (to_lower s) (to_lower t))
      (ap (λ r. lower_char c ∷ r) (to_lower-concat s t))

-- none of the first letters is in upper case
all_low : ℕ → Bool
all_low zero = true
all_low (suc n) = not (is_upper (char_at lower_letters n)) && all_low n

all_low_letters : all_low 26 ≡ true
unfolding all_low
all_low_letters = refl

all_low-suc :
    (m : ℕ)
    → all_low (suc m) ≡ true
    → (is_upper (char_at lower_letters m) ≡ false) × (all_low m ≡ true)
unfolding all_low
all_low-suc m h = ground arith

letter_low : (m n : ℕ) → all_low m ≡ true → n < m → is_upper (char_at lower_letters n) ≡ false
letter_low zero n h b = absurd (omega arith)
letter_low (suc m) n h b = elim (Bool-cases (eqb n m)) [
  | inl e ↦ let same : n ≡ m = ground arith in rw same (all_low-suc m h).0
  | inr e ↦ letter_low m n (all_low-suc m h).1 (ground arith)
]

lower_char-low : (c : Char) → is_upper c ≡ false → lower_char c ≡ c
unfolding lower_char
lower_char-low c e = rw e refl

lower_char-upper :
    (c : Char) → is_upper c ≡ true → lower_char c ≡ char_at lower_letters (code c - b'A')
unfolding lower_char
lower_char-upper c e = rw e refl

lower_char_again : (c : Char) → lower_char (lower_char c) ≡ lower_char c
lower_char_again c = elim (Bool-cases (is_upper c)) [
  | inr e ↦ ap lower_char (lower_char-low c e)
  | inl e ↦ rw (lower_char-upper c e) (
      lower_char-low (char_at lower_letters (code c - b'A'))
        (letter_low 26 (code c - b'A') all_low_letters (ground arith)))
]

-- a text in lower case stays as it is
pub to_lower_again : (s : String) → to_lower (to_lower s) ≡ to_lower s
unfolding to_lower
to_lower_again [] = refl
to_lower_again (c ∷ s) = rw (lower_char_again c, to_lower_again s) refl
