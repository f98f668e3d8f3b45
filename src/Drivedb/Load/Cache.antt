-- ===== src/Drivedb/Load/Cache.antt =====
-- What the loaded table holds, for any lines.
use mathlib.Core.Path.{subst}
use Prim.Native.Char.{Char, code}
use Prim.Native.String.{[], ◌∷◌}
use smartmontools_go.Base.{
  String, ℕ, Bool, true, false, ◌||◌, Option, none, some, List, [], ◌∷◌, ◌++◌, eqb, if◌then◌else◌,
  ◌==◌, ◌≡◌, refl, GoMap, insert, lookup, eq_iff, Bool-cases, inl, inr, Unique, insert-Unique,
  starts_with,
}
use smartmontools_go.Text.{concat, to_lower, to_lower_again}
use smartmontools_go.Drivedb.UsbIds.{extract_usb_ids}
use smartmontools_go.Drivedb.Load.{
  Loader, start, usb_key, before_comma, add_ids, add_entry, find_device_type, process_entry,
  start_entry, read_fields, quoted_from, is_usb_entry, ends_entry, trim_left, trim_right, load_line,
  load_lines, load_drivedb_addendum,
}

unfoldable pub has_char : ℕ → String → Bool
has_char n String.[] = false
has_char n (String.◌∷◌ c s) = eqb (code c) n || has_char n s

cut-comma :
    (c : Char) (rest : String) (b : Bool)
    → eqb (code c) b',' ≡ b
    → has_char b',' rest ≡ false
    → has_char b',' (elim b as (λ _. String) [ true ↦ "" | false ↦ String.◌∷◌ c rest ]) ≡ false
unfolding has_char
cut-comma c rest true e h = refl
cut-comma c rest false e h = rw e h

before_comma-comma : (s : String) → has_char b',' (before_comma s) ≡ false
unfolding before_comma
before_comma-comma String.[] = unfold has_char in refl
before_comma-comma (String.◌∷◌ c s) =
    cut-comma c (before_comma s) (eqb (code c) b',') refl (before_comma-comma s)

-- the key is "usb:" and an identifier in lower case, and the type has no comma
pub record IsEntry (k v : String) : Type 0 where
  pub id : String
  pub prefixed : k ≡ concat "usb:" id
  pub lower : to_lower id ≡ id
  pub one_type : has_char b',' v ≡ false

usb_key-IsEntry : (id v : String) → has_char b',' v ≡ false → IsEntry (usb_key id) v
unfolding usb_key
usb_key-IsEntry id v e = record {
  id = to_lower id;
  prefixed = refl;
  lower = to_lower_again id;
  one_type = e;
}

abbrev pub IsTable : GoMap String → Type 0
IsTable [] = Unit
IsTable ((k, v) ∷ m) = IsEntry k v × IsTable m

insert-IsTable :
    (k v : String) (m : GoMap String) → IsEntry k v → IsTable m → IsTable (insert k v m)
unfolding insert
insert-IsTable k v [] e h = (e, tt)
insert-IsTable k v ((j, w) ∷ m) e (f, h) = insert_step (insert-IsTable k v m e h) (j == k)
  where
    insert_step :
        IsTable (insert k v m)
        → (b : Bool) → IsTable (if b then (k, v) ∷ m else (j, w) ∷ insert k v m)
    insert_step rest true = (e, h)
    insert_step rest false = (f, rest)

-- a well-formed table: one entry for a key, and only entries for bridges
pub record WellFormed (m : GoMap String) : Type 0 where
  pub distinct : Unique m
  pub entries : IsTable m

add_ids-WellFormed :
    (v : String) (ids : List String) (m : GoMap String)
    → has_char b',' v ≡ false
    → WellFormed m
    → WellFormed (add_ids v ids m)
unfolding add_ids
add_ids-WellFormed v [] m e h = h
add_ids-WellFormed v (id ∷ ids) m e h =
    add_ids-WellFormed v ids (insert (usb_key id) v m) e (record {
      distinct = insert-Unique (usb_key id) v m h.distinct;
      entries = insert-IsTable (usb_key id) v m (usb_key-IsEntry id v e) h.entries;
    })

add_entry-WellFormed :
    (w : Option String) (modelregexp : String) (m : GoMap String)
    → WellFormed m
    → WellFormed (add_entry w modelregexp m)
add_entry-WellFormed none modelregexp m h = unfold add_entry in h
add_entry-WellFormed (some w) modelregexp m h =
    unfold add_entry in
    add_ids-WellFormed (before_comma w) (extract_usb_ids modelregexp) m (before_comma-comma w) h

if_WellFormed :
    (b : Bool) (m n : GoMap String) → WellFormed m → WellFormed n → WellFormed (if b then m else n)
if_WellFormed true m n h k = h
if_WellFormed false m n h k = k

process_entry-WellFormed :
    (fields : List String) (m : GoMap String) → WellFormed m → WellFormed (process_entry fields m)
unfolding process_entry
process_entry-WellFormed [] m h = h
process_entry-WellFormed (a ∷ []) m h = h
process_entry-WellFormed (a ∷ b ∷ []) m h = h
process_entry-WellFormed (a ∷ b ∷ c ∷ []) m h = h
process_entry-WellFormed (a ∷ b ∷ c ∷ d ∷ []) m h = h
process_entry-WellFormed (a ∷ b ∷ c ∷ d ∷ e ∷ rest) m h =
    if_WellFormed (starts_with a "USB:") (add_entry (find_device_type e) b m) m
      (add_entry-WellFormed (find_device_type e) b m h) h

if_loader :
    (b : Bool) (l l' : Loader)
    → WellFormed l.cache
    → WellFormed l'.cache
    → WellFormed (if b then l else l').cache
if_loader true l l' h k = h
if_loader false l l' h k = k

read_fields-WellFormed :
    (line : String) (l : Loader) → WellFormed l.cache → WellFormed (read_fields line l).cache
unfolding read_fields
read_fields-WellFormed line l h =
    if_loader (ends_entry line) _ _
      (process_entry-WellFormed (l.current_fields ++ quoted_from none line) l.cache h) h

start_entry-WellFormed :
    (line : String) (l : Loader) → WellFormed l.cache → WellFormed (start_entry line l).cache
unfolding start_entry
start_entry-WellFormed line l h =
    if_loader (is_usb_entry line) (record l { in_usb_entry = true; current_fields = [] }) l h h

load_line-WellFormed :
    (raw : String) (l : Loader) → WellFormed l.cache → WellFormed (load_line raw l).cache
unfolding load_line
load_line-WellFormed raw l h =
    let line = trim_right (trim_left raw) in
    let l' = start_entry line l in
    let h' = start_entry-WellFormed line l h in
    if_loader l'.in_usb_entry (read_fields line l') l' (read_fields-WellFormed line l' h') h'

load_lines-WellFormed :
    (lines : List String) (l : Loader) → WellFormed l.cache → WellFormed (load_lines lines l).cache
unfolding load_lines
load_lines-WellFormed [] l h = h
load_lines-WellFormed (line ∷ lines) l h =
    load_lines-WellFormed lines (load_line line l) (load_line-WellFormed line l h)

load_drivedb_addendum-WellFormed : (lines : List String) → WellFormed (load_drivedb_addendum lines)
load_drivedb_addendum-WellFormed lines =
    unfold load_drivedb_addendum in
    load_lines-WellFormed lines start (record { distinct = tt; entries = tt })

-- The keys of the loaded table are distinct.
pub load_drivedb_addendum-Unique : (lines : List String) → Unique (load_drivedb_addendum lines)
load_drivedb_addendum-Unique lines = (load_drivedb_addendum-WellFormed lines).distinct

lookup-IsEntry : (k v : String) (m : GoMap String) → IsTable m → lookup k m ≡ some v → IsEntry k v
unfolding lookup
lookup-IsEntry k v [] h e = cc
lookup-IsEntry k v ((j, w) ∷ m) (f, h) e = elim (Bool-cases (j == k)) [
  | inl same ↦
      let key : j ≡ k = (eq_iff j k).0 same in
      let type : some w ≡ some v = rw same at e in
      let value : w ≡ v = cc in subst (λ (x : String). IsEntry x v) key (subst (IsEntry j) value f)
  | inr other ↦ lookup-IsEntry k v m h (rw other at e)
]

-- Whatever lines the database has: a key under which the loaded table has a device type is "usb:" and an
-- identifier in lower case, and the device type has no comma.
pub load_drivedb_addendum-IsEntry :
    (lines : List String) (k v : String)
    → lookup k (load_drivedb_addendum lines) ≡ some v
    → ((id : String) × (k ≡ concat "usb:" id) × (to_lower id ≡ id)) × (has_char b',' v ≡ false)
load_drivedb_addendum-IsEntry lines k v e =
    let h =
      lookup-IsEntry k v (load_drivedb_addendum lines)
        (load_drivedb_addendum-WellFormed lines).entries e in
    ((h.id, h.prefixed, h.lower), h.one_type)
