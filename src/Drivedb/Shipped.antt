-- ===== src/Drivedb/Shipped.antt =====
-- The table that the loader makes of the embedded backends/exec/drivedb.h, from its line 3919 on.
use smartmontools_go.Base.{
  String, Bool, true, false, ◌&&◌, none, some, List, [], ◌∷◌, ◌++◌, ◌≡◌, refl, arith, GoMap, lookup,
  insert, length,
}
use smartmontools_go.Text.{contains_text, to_lower}
use smartmontools_go.Types.SelfTests.{contains}
use smartmontools_go.Drivedb.UsbIds.{extract_usb_ids}
use smartmontools_go.Drivedb.Lines.{split_lines, no_usb_entry, load_lines-no_usb_entry}
use smartmontools_go.Drivedb.Load.{
  Loader, load_lines, is_usb_entry, trim_left, trim_right, load_drivedb_addendum,
}
use smartmontools_go.Drivedb.Table.Ata01.{ata_text_01}
use smartmontools_go.Drivedb.Table.Ata02.{ata_text_02}
use smartmontools_go.Drivedb.Table.Ata03.{ata_text_03}
use smartmontools_go.Drivedb.Table.Ata04.{ata_text_04}
use smartmontools_go.Drivedb.Table.Ata05.{ata_text_05}
use smartmontools_go.Drivedb.Table.Ata06.{ata_text_06}
use smartmontools_go.Drivedb.Table.Ata07.{ata_text_07}
use smartmontools_go.Drivedb.Table.Ata08.{ata_text_08}
use smartmontools_go.Drivedb.Table.Ata09.{ata_text_09}
use smartmontools_go.Drivedb.Table.Ata10.{ata_text_10}
use smartmontools_go.Drivedb.Table.Ata11.{ata_text_11}
use smartmontools_go.Drivedb.Table.Usb01.{usb_text_01}
use smartmontools_go.Drivedb.Table.Usb02.{usb_text_02}
use smartmontools_go.Drivedb.Table.Usb03.{usb_text_03}
use smartmontools_go.Drivedb.Table.Usb04.{usb_text_04}
use smartmontools_go.Drivedb.Table.Usb05.{usb_text_05}
use smartmontools_go.Drivedb.Table.Usb06.{usb_text_06}
use smartmontools_go.Drivedb.Table.Usb07.{usb_text_07}
use smartmontools_go.Drivedb.Table.Usb08.{usb_text_08}
use smartmontools_go.Drivedb.Table.Usb09.{usb_text_09}
use smartmontools_go.Drivedb.Table.Usb10.{usb_text_10}
use smartmontools_go.Drivedb.Table.Usb11.{usb_text_11}

-- the lines of the texts, one after the other
all_lines : List String → List String
unfolding split_lines
all_lines [] = []
all_lines (text ∷ texts) = split_lines text ++ all_lines texts

-- the last entries of ATA disks
unfoldable pub ata_lines : List String
unfolding all_lines ata_text_01 ata_text_02 ata_text_03 ata_text_04 ata_text_05 ata_text_06
    ata_text_07 ata_text_08 ata_text_09 ata_text_10 ata_text_11
ata_lines = all_lines (
    ata_text_01 ∷ ata_text_02 ∷ ata_text_03 ∷ ata_text_04 ∷ ata_text_05 ∷ ata_text_06 ∷ ata_text_07
    ∷ ata_text_08 ∷ ata_text_09 ∷ ata_text_10 ∷ ata_text_11 ∷ [])

-- the lines from the heading of the USB entries on
unfoldable pub usb_lines : List String
unfolding all_lines usb_text_01 usb_text_02 usb_text_03 usb_text_04 usb_text_05 usb_text_06
    usb_text_07 usb_text_08 usb_text_09 usb_text_10 usb_text_11
usb_lines = all_lines (
    usb_text_01 ∷ usb_text_02 ∷ usb_text_03 ∷ usb_text_04 ∷ usb_text_05 ∷ usb_text_06 ∷ usb_text_07
    ∷ usb_text_08 ∷ usb_text_09 ∷ usb_text_10 ∷ usb_text_11 ∷ [])

-- `drivedbCache` after `init`
unfoldable pub drivedb_cache : GoMap String
unfolding load_drivedb_addendum ata_lines usb_lines
drivedb_cache = load_drivedb_addendum (ata_lines ++ usb_lines)

-- The entries of ATA disks leave the loader as it was.
load_lines-ata_lines : (l : Loader) → l.in_usb_entry ≡ false → load_lines ata_lines l ≡ l
unfolding no_usb_entry ata_lines is_usb_entry trim_right trim_left
load_lines-ata_lines l idle = load_lines-no_usb_entry ata_lines l idle refl

-- the types that the entries of the file name
abbrev pub bridge_types : List String
bridge_types =
    "sat" ∷ "sntasmedia" ∷ "sntjmicron" ∷ "sntjmicron/sat" ∷ "sntrealtek" ∷ "usbcypress"
    ∷ "usbjmicron" ∷ "usbprolific" ∷ "usbsunplus" ∷ []

all_types : GoMap String → Bool
all_types [] = true
all_types ((k, v) ∷ m) = contains bridge_types v && all_types m

all_types-lookup :
    (k v : String) (m : GoMap String)
    → all_types m ≡ true
    → lookup k m ≡ some v
    → contains bridge_types v ≡ true
unfolding all_types lookup
all_types-lookup k v [] h e = absurd (ground arith)
all_types-lookup k v ((j, w) ∷ m) h e = ground (arith, all_types-lookup k v m)

shipped_table : all_types drivedb_cache ≡ true
unfolding all_types contains drivedb_cache contains_text extract_usb_ids to_lower insert
shipped_table = refl

-- Every device type that the shipped database gives a bridge is one of the smartctl types that its entries
-- name: no field of another kind is taken for a type, although some entries are misread.
pub drivedb_cache_types :
    (key device_type : String)
    → lookup key drivedb_cache ≡ some device_type
    → contains bridge_types device_type ≡ true
drivedb_cache_types key device_type h =
    all_types-lookup key device_type drivedb_cache shipped_table h

-- 193 bridges are loaded. Of the two entries of each of the first two keys the later one wins, and the bridge
-- 0x152d:0x0539, whose entries are split over several literals, is not loaded.
shipped_facts :
    (length drivedb_cache ≡ 193)
    × ((lookup "usb:0x04e8:0x6032" drivedb_cache ≡ some "sat")
        × ((lookup "usb:0x152d:0x2509" drivedb_cache ≡ some "sat")
            × (lookup "usb:0x152d:0x0539" drivedb_cache ≡ none)))
unfolding lookup drivedb_cache contains_text extract_usb_ids to_lower insert
shipped_facts = (refl, (refl, (refl, refl)))
