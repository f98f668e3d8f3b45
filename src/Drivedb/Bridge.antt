-- ===== src/Drivedb/Bridge.antt =====
-- `isUnknownUSBBridge` and `extractUSBBridgeID`.
use Prim.Native.Char.{Char, code}
use Prim.Native.String.{[], ◌∷◌}
use smartmontools_go.Base.{
  String, Bool, true, false, ◌&&◌, ◌||◌, Option, none, some, List, [], ◌∷◌, leb, eqb, if◌then◌else◌,
  ◌≡◌, refl,
}
use smartmontools_go.Text.{concat, contains_text, to_lower}
use smartmontools_go.Types.{SmartInfo, Message, SmartctlInfo, elements}

-- [0-9a-fA-F]
unfoldable pub is_hex : Char → Bool
is_hex c =
    let n = code c in
    (leb b'0' n && leb n b'9') || (leb b'a' n && leb n b'f') || (leb b'A' n && leb n b'F')

-- the rest of a text behind a literal
unfoldable pub skip_literal : String → String → Option String
skip_literal String.[] s = some s
skip_literal (String.◌∷◌ c t) String.[] = none
skip_literal (String.◌∷◌ c t) (String.◌∷◌ d s) =
    if eqb (code c) (code d) then skip_literal t s else none

-- [0-9a-fA-F]*, as long as it goes, and the rest
unfoldable pub span_hex : String → String × String
unfolding is_hex
span_hex String.[] = ("", "")
span_hex (String.◌∷◌ c s) = elim (is_hex c) [
  | true ↦ (let (run, rest) = span_hex s in (String.◌∷◌ c run, rest))
  | false ↦ ("", String.◌∷◌ c s)
]

-- (0x[0-9a-fA-F]+) at the front: the match and the rest. No shorter run of digits lets the rest of
-- the pattern match where the longest does not, since what follows is no digit.
hex_number : String → Option (String × String)
unfolding skip_literal span_hex
hex_number s = elim (skip_literal "0x" s) [
  | none ↦ none
  | some s' ↦
      (let (run, rest) = span_hex s' in
        elim run [ String.[] ↦ none | String.◌∷◌ c r ↦ some (concat "0x" (String.◌∷◌ c r), rest) ])
]

infixl 5 ◌>>=◌
abbrev ◌>>=◌ {ℓ κ} : {A : Type ℓ} {B : Type κ} → Option A → (A → Option B) → Option B
none >>= f = none
some a >>= f = f a

-- `Unknown USB bridge \[(0x[0-9a-fA-F]+):(0x[0-9a-fA-F]+)` at the front of a text
bridge_at : String → Option (String × String)
unfolding hex_number
bridge_at s = do
  s1 ← skip_literal "Unknown USB bridge [" s
  (vendor, s2) ← hex_number s1
  s3 ← skip_literal ":" s2
  (product, s4) ← hex_number s3
  some (vendor, product)

-- re.FindStringSubmatch: the leftmost match
unfoldable pub find_bridge : String → Option (String × String)
unfolding bridge_at
find_bridge String.[] = none
find_bridge (String.◌∷◌ c s) = elim (bridge_at (String.◌∷◌ c s)) [
  | some m ↦ some m
  | none ↦ find_bridge s
]

unfoldable pub any_unknown_bridge : List Message → Bool
any_unknown_bridge [] = false
any_unknown_bridge (msg ∷ msgs) =
    contains_text msg.string "Unknown USB bridge" || any_unknown_bridge msgs

unfoldable pub is_unknown_usb_bridge : SmartInfo → Bool
unfolding any_unknown_bridge
is_unknown_usb_bridge smart_info = elim smart_info.smartctl [
  | none ↦ false
  | some ctl ↦ any_unknown_bridge (elements ctl.messages)
]

-- the identifier of a match, or what the later messages give
unfoldable pub bridge_or : String → Option (String × String) → String
bridge_or later none = later
bridge_or later (some (vendor, product)) =
    concat "usb:" (concat (to_lower vendor) (concat ":" (to_lower product)))

unfoldable pub first_bridge : List Message → String
unfolding find_bridge bridge_or
first_bridge [] = ""
first_bridge (msg ∷ msgs) = bridge_or (first_bridge msgs) (find_bridge msg.string)

unfoldable pub bridge_of : Option SmartctlInfo → String
unfolding first_bridge
bridge_of none = ""
bridge_of (some ctl) = first_bridge (elements ctl.messages)

unfoldable pub extract_usb_bridge_id : SmartInfo → String
unfolding bridge_of
extract_usb_bridge_id smart_info = bridge_of smart_info.smartctl

bridge_test :
    first_bridge (
      record { string = "Info"; severity = "" }
      ∷ record {
        string = "/dev/sda: Unknown USB bridge [0x152D:0xA580 (0x209)]";
        severity = "error";
      }
      ∷ [])
    ≡ "usb:0x152d:0xa580"
unfolding first_bridge to_lower
bridge_test = refl
