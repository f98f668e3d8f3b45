-- ===== src/Drivedb/UsbIds.antt =====
-- `extractUSBIDs` and `expandProductIDPattern`. The regular expressions are matchers over the text; the
-- database is ASCII, where Go's bytes and runes are the characters here.
use Prim.Native.Char.{Char, code}
use Prim.Native.String.{[], ◌∷◌, len, count}
use smartmontools_go.Base.{
  String, ℕ, zero, suc, ◌+◌, true, false, not, ◌&&◌, Option, none, some, List, [], ◌∷◌, ◌++◌, eqb,
  if◌then◌else◌, ◌==◌, ◌≡◌, refl,
}
use smartmontools_go.Text.{concat}
use smartmontools_go.Drivedb.Bridge.{is_hex, skip_literal}
use smartmontools_go.Backend.Version.{is_word}

infixl 5 ◌>>=◌
abbrev ◌>>=◌ {ℓ κ} : {A : Type ℓ} {B : Type κ} → Option A → (A → Option B) → Option B
none >>= f = none
some a >>= f = f a

-- [0-9a-fA-F]{k} at the front: the digits and the rest
take_hex : ℕ → String → Option (String × String)
unfolding is_hex
take_hex zero s = some ("", s)
take_hex (suc k) String.[] = none
take_hex (suc k) (String.◌∷◌ c s) = elim (is_hex c) [
  | true ↦ (do (d, rest) ← take_hex k s; some (String.◌∷◌ c d, rest))
  | false ↦ none
]

-- 0x[0-9a-fA-F]{4} at the front
hex4 : String → Option (String × String)
unfolding take_hex skip_literal
hex4 s = do s1 ← skip_literal "0x" s; (d, rest) ← take_hex 4 s1; some (concat "0x" d, rest)

-- 0x[0-9a-fA-F]{4}:0x[0-9a-fA-F]{4} at the front
exact_at : String → Option String
unfolding hex4
exact_at s = do
  (vendor, s1) ← hex4 s
  s2 ← skip_literal ":" s1
  (product, s3) ← hex4 s2
  some (concat vendor (concat ":" product))

-- FindAllString: every match from the left, none inside another; the number is how many characters of
-- the last match are still to be passed
find_exact : ℕ → String → List String
unfolding exact_at
find_exact k String.[] = []
find_exact (suc k) (String.◌∷◌ c s) = find_exact k s
find_exact zero (String.◌∷◌ c s) = elim (exact_at (String.◌∷◌ c s)) [
  | none ↦ find_exact 0 s
  | some id ↦ id ∷ find_exact 12 s
]

-- the text before the first `stop`, and what follows that
until : Char → String → Option (String × String)
until stop String.[] = none
until stop (String.◌∷◌ c s) = elim (eqb (code c) (code stop)) [
  | true ↦ some ("", s)
  | false ↦ (do (body, rest) ← until stop s; some (String.◌∷◌ c body, rest))
]

-- a match of `(0x[0-9a-fA-F]{4}):0x([0-9a-fA-F]{2})\(([^\)]+)\)`
pub record Group : Type 0 where
  pub vendor : String
  pub prefix : String
  pub alternatives : String

-- [^\)]+ wants a character
group_of : String → String → String → Option Group
group_of vendor prefix alternatives =
    if alternatives == ""
    then none
    else some (record { vendor = vendor; prefix = prefix; alternatives = alternatives })

group_at : String → Option Group
unfolding hex4 until group_of
group_at s = do
  (vendor, s1) ← hex4 s
  s2 ← skip_literal ":0x" s1
  (prefix, s3) ← take_hex 2 s2
  s4 ← skip_literal "(" s3
  (alternatives, s5) ← until ")" s4
  group_of vendor prefix alternatives

-- FindAllStringSubmatch; a match has 13 characters besides the alternatives
find_groups : ℕ → String → List Group
unfolding group_at
find_groups k String.[] = []
find_groups (suc k) (String.◌∷◌ c s) = find_groups k s
find_groups zero (String.◌∷◌ c s) = elim (group_at (String.◌∷◌ c s)) [
  | none ↦ find_groups 0 s
  | some g ↦ g ∷ find_groups (12 + count g.alternatives) s
]

-- strings.Split(alternatives, "|"), with the part under way
split_bar : String → String → List String
split_bar part String.[] = part ∷ []
split_bar part (String.◌∷◌ c s) = elim (eqb (code c) b'|') [
  | true ↦ part ∷ split_bar "" s
  | false ↦ split_bar (concat part (String.◌∷◌ c "")) s
]

-- `^(\w)\[([^\]]+)\]$`: the first character and the class
char_class : String → Option (Char × String)
unfolding until is_word
char_class String.[] = none
char_class (String.◌∷◌ c s) = do
  s1 ← skip_literal "[" s
  (body, rest) ← until "]" s1
  if is_word c && rest == "" && not (body == "") then some (c, body) else none

usb_id : String → String → String
usb_id vendor product = concat vendor (concat ":0x" product)

expand_class : String → String → Char → String → List String
unfolding usb_id
expand_class vendor prefix first String.[] = []
expand_class vendor prefix first (String.◌∷◌ c cs) =
    usb_id vendor (concat prefix (String.◌∷◌ first (String.◌∷◌ c "")))
    ∷ expand_class vendor prefix first cs

unfoldable pub expand_product_id_pattern : String → String → String → List String
unfolding char_class expand_class
expand_product_id_pattern vendor prefix pattern = elim (char_class pattern) [
  | some (first, chars) ↦ expand_class vendor prefix first chars
  | none ↦
      if eqb (len pattern) 2
      then usb_id vendor (concat prefix pattern) ∷ []
      else if eqb (len pattern) 4
      then usb_id vendor pattern ∷ []
      else []
]

expand_parts : Group → List String → List String
unfolding expand_product_id_pattern
expand_parts g [] = []
expand_parts g (part ∷ parts) =
    expand_product_id_pattern g.vendor g.prefix part ++ expand_parts g parts

expand_groups : List Group → List String
unfolding expand_parts split_bar
expand_groups [] = []
expand_groups (g ∷ gs) = expand_parts g (split_bar "" g.alternatives) ++ expand_groups gs

unfoldable pub extract_usb_ids : String → List String
unfolding find_exact find_groups expand_groups
extract_usb_ids modelregexp = find_exact 0 modelregexp ++ expand_groups (find_groups 0 modelregexp)

-- the example of docs/drivedb.md
extract_test :
    extract_usb_ids "0x152d:0x05(7[789]|80)"
    ≡ "0x152d:0x0577" ∷ "0x152d:0x0578" ∷ "0x152d:0x0579" ∷ "0x152d:0x0580" ∷ []
unfolding extract_usb_ids
extract_test = refl
