-- ===== src/Drivedb/Load.antt =====
-- `loadDrivedbAddendum`, over the lines of the embedded file.
pub mod Cache
pub mod Keys
use Prim.Native.Char.{Char, code}
use Prim.Native.String
use Prim.Native.String.{[], ◌∷◌}
use smartmontools_go.Base.{
  ℕ, String, Bool, true, false, not, ◌&&◌, ◌||◌, Option, none, some, List, [], ◌∷◌, ◌++◌, leb, eqb,
  if◌then◌else◌, ◌==◌, ◌≡◌, refl, GoMap, insert, is_some, starts_with,
}
use smartmontools_go.Text.{concat, contains_text, to_lower}
use smartmontools_go.Drivedb.Bridge.{skip_literal}
use smartmontools_go.Drivedb.UsbIds.{extract_usb_ids}

-- the ASCII characters that `strings.TrimSpace` removes; `\s` is these without \v
is_trimmed : Char → Bool
is_trimmed c = (leb 9 (code c) && leb (code c) 13) || eqb (code c) 32

unfoldable pub is_space : Char → Bool
unfolding is_trimmed
is_space c = is_trimmed c && not (eqb (code c) 11)

unfoldable pub trim_left : String → String
unfolding is_trimmed
trim_left String.[] = ""
trim_left (String.◌∷◌ c s) = elim (is_trimmed c) [ true ↦ trim_left s | false ↦ String.◌∷◌ c s ]

unfoldable pub trim_right : String → String
unfolding is_trimmed
trim_right String.[] = ""
trim_right (String.◌∷◌ c s) =
    let t = trim_right s in if is_trimmed c && t == "" then "" else String.◌∷◌ c t

skip_spaces : String → String
unfolding is_space
skip_spaces String.[] = ""
skip_spaces (String.◌∷◌ c s) = elim (is_space c) [ true ↦ skip_spaces s | false ↦ String.◌∷◌ c s ]

-- `\{\s*"USB:` anywhere in the line
unfoldable pub is_usb_entry : String → Bool
unfolding skip_spaces skip_literal
is_usb_entry String.[] = false
is_usb_entry (String.◌∷◌ c s) =
    (eqb (code c) b'{' && is_some (skip_literal "\"USB:" (skip_spaces s))) || is_usb_entry s

-- `"([^"]*)"`, every match from the left; the argument is the quoted text under way
unfoldable pub quoted_from : Option String → String → List String
quoted_from field String.[] = []
quoted_from none (String.◌∷◌ c s) = quoted_from (if eqb (code c) b'"' then some "" else none) s
quoted_from (some field) (String.◌∷◌ c s) = elim (eqb (code c) b'"') [
  | true ↦ field ∷ quoted_from none s
  | false ↦ quoted_from (some (concat field (String.◌∷◌ c ""))) s
]

-- \S+ at the front
unfoldable pub word : String → String
unfolding is_space
word String.[] = ""
word (String.◌∷◌ c s) = elim (is_space c) [ true ↦ "" | false ↦ String.◌∷◌ c (word s) ]

-- `-d\s+(\S+)` at the front; `none` also where the run of spaces or the word is empty
unfoldable pub device_type_at : String → Option String
unfolding skip_spaces word
device_type_at s = elim (skip_literal "-d" s) [
  | none ↦ none
  | some rest ↦
      let w = word (skip_spaces rest) in
      if skip_spaces rest == rest || w == "" then none else some w
]

unfoldable pub find_device_type : String → Option String
unfolding device_type_at
find_device_type String.[] = none
find_device_type (String.◌∷◌ c s) = elim (device_type_at (String.◌∷◌ c s)) [
  | some w ↦ some w
  | none ↦ find_device_type s
]

-- the text before the first comma
unfoldable pub before_comma : String → String
before_comma String.[] = ""
before_comma (String.◌∷◌ c s) = elim (eqb (code c) b',') [
  | true ↦ ""
  | false ↦ String.◌∷◌ c (before_comma s)
]

pub record Loader : Type 0 where
  pub in_usb_entry : Bool
  pub current_fields : List String
  pub cache : GoMap String

unfoldable pub usb_key : String → String
usb_key id = concat "usb:" (to_lower id)

unfoldable pub add_ids : String → List String → GoMap String → GoMap String
unfolding usb_key
add_ids device_type [] cache = cache
add_ids device_type (id ∷ ids) cache =
    add_ids device_type ids (insert (usb_key id) device_type cache)

unfoldable pub add_entry : Option String → String → GoMap String → GoMap String
unfolding add_ids before_comma
add_entry none modelregexp cache = cache
add_entry (some w) modelregexp cache = add_ids (before_comma w) (extract_usb_ids modelregexp) cache

-- a complete entry: at least five fields, the first of which begins with "USB:"
unfoldable pub process_entry : List String → GoMap String → GoMap String
unfolding add_entry find_device_type
process_entry (modelfamily ∷ modelregexp ∷ firmware ∷ warning ∷ presets ∷ _) cache =
    if starts_with modelfamily "USB:"
    then add_entry (find_device_type presets) modelregexp cache
    else cache
process_entry _ cache = cache

unfoldable pub ends_entry : String → Bool
ends_entry line =
    contains_text line "}," || (contains_text line "}" && not (contains_text line "{"))

unfoldable pub start_entry : String → Loader → Loader
unfolding is_usb_entry
start_entry line l =
    if is_usb_entry line then record l { in_usb_entry = true; current_fields = [] } else l

unfoldable pub read_fields : String → Loader → Loader
unfolding quoted_from ends_entry process_entry
read_fields line l =
    let fields = l.current_fields ++ quoted_from none line in
    if ends_entry line
    then record { in_usb_entry = false; current_fields = []; cache = process_entry fields l.cache }
    else record l { current_fields = fields }

-- one round of the loop over the lines
unfoldable pub load_line : String → Loader → Loader
unfolding trim_left trim_right start_entry read_fields
load_line raw l =
    let line = trim_right (trim_left raw) in
    let l' = start_entry line l in if l'.in_usb_entry then read_fields line l' else l'

unfoldable pub load_lines : List String → Loader → Loader
unfolding load_line
load_lines [] l = l
load_lines (line ∷ lines) l = load_lines lines (load_line line l)

abbrev pub start : Loader
start = record { in_usb_entry = false; current_fields = []; cache = [] }

unfoldable pub load_drivedb_addendum : List String → GoMap String
unfolding load_lines
load_drivedb_addendum lines = (load_lines lines start).cache

load_test :
    load_drivedb_addendum (
      "  { \"USB: ; ViPowER\"," ∷ "    \"0x0350:0x00(38|3A)\"," ∷ "    \"\", // 0x1905"
      ∷ "    \"\"," ∷ "    \"-d sat,12\" // missing" ∷ "  }," ∷ [])
    ≡ ("usb:0x0350:0x0038", "sat") ∷ ("usb:0x0350:0x003a", "sat") ∷ []
unfolding load_drivedb_addendum contains_text extract_usb_ids to_lower insert
load_test = refl
