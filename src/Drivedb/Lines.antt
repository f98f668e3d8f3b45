-- ===== src/Drivedb/Lines.antt =====
-- The lines of the embedded file: `strings.Split(drivedbH, "\n")`.
use Prim.Native.Char.{Char, code}
use Prim.Native.String.{[], ◌∷◌}
use smartmontools_go.Base.{
  String, List, [], ◌∷◌, eqb, ◌≡◌, refl, Bool, true, false, not, ◌&&◌, if◌then◌else◌, arith,
}
use smartmontools_go.Drivedb.Load.{
  Loader, is_usb_entry, trim_left, trim_right, start_entry, load_line, load_lines,
}

before_line : Char → List String → List String
before_line c [] = String.◌∷◌ c "" ∷ []
before_line c (line ∷ lines) = String.◌∷◌ c line ∷ lines

unfoldable pub split_lines : String → List String
unfolding before_line
split_lines String.[] = "" ∷ []
split_lines (String.◌∷◌ c s) =
    let rest = split_lines s in if eqb (code c) b'\n' then "" ∷ rest else before_line c rest

split_test : split_lines "a\n\nbc\n" ≡ "a" ∷ "" ∷ "bc" ∷ "" ∷ []
unfolding split_lines
split_test = refl

-- no line begins an entry of a USB bridge
unfoldable pub no_usb_entry : List String → Bool
no_usb_entry [] = true
no_usb_entry (line ∷ lines) = not (is_usb_entry (trim_right (trim_left line))) && no_usb_entry lines

load_line-idle :
    (line : String) (l : Loader)
    → l.in_usb_entry ≡ false
    → is_usb_entry (trim_right (trim_left line)) ≡ false
    → load_line line l ≡ l
unfolding load_line start_entry
load_line-idle line l idle other = rw other (rw idle refl)

-- Outside an entry the loader passes over lines that begin no entry of a bridge.
pub load_lines-no_usb_entry :
    (lines : List String) (l : Loader)
    → l.in_usb_entry ≡ false
    → no_usb_entry lines ≡ true
    → load_lines lines l ≡ l
unfolding load_lines no_usb_entry
load_lines-no_usb_entry [] l idle none_begins = refl
load_lines-no_usb_entry (line ∷ lines) l idle none_begins =
    rw (load_line-idle line l idle (ground arith))
      (load_lines-no_usb_entry lines l idle (ground arith))
