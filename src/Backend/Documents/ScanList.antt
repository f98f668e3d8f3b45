-- ===== src/Backend/Documents/ScanList.antt =====
-- The list of devices that `smartctl --scan-open --json` prints, from the command to the result.
use smartmontools_go.Base.{
  ℕ, String, true, false, Option, none, some, List, [], ◌∷◌, ◌==◌, ◌≡◌, refl, eq_iff,
}
use smartmontools_go.Text.{to_lower}
use smartmontools_go.Types.{Device}
use smartmontools_go.Json.{Json, str, arr, obj, Elems, nil, cons, Fields, end, field}
use smartmontools_go.Json.Decode.{
  decode_field, decode_fields, decode_struct, decode_slice, decode_elems, decode_string, find_field,
  within,
}
use smartmontools_go.Types.Decode.Info.{zero_device, device_table, decode_device}
use smartmontools_go.Backend.State.{State, Call, Reply, output, command}
use smartmontools_go.Backend.Devices.Scan.{scan_devices-read}
use smartmontools_go.Backend.Devices.{ok, scan_devices}
use smartmontools_go.Backend.Documents.{scan_table, decode_devices, json_env}

-- The fields of an object have the key once, in any case of letters, with the document of a value, or not
-- at all. What other keys they have, where and with which documents, is left open.
pub data Has {V : Type 0} (print : V → Json) (key : String) : Option V → Fields → Type 0 where
  nowhere : Has print key none end
  here :
      {k : String} {j : Json} {v : V} {rest : Fields}
      → (to_lower k == key) ≡ true
      → j ≡ print v
      → Has print key none rest
      → Has print key (some v) (field k j rest)
  there :
      {k : String} {j : Json} {o : Option V} {rest : Fields}
      → (to_lower k == key) ≡ false
      → Has print key o rest
      → Has print key o (field k j rest)

-- an array with an object for each device, which has its name and its type
pub data Entries : Elems → List Device → Type 0 where
  no_entry : Entries nil []
  entry :
      {fields : Fields} {js : Elems} {d : Device} {ds : List Device}
      → Has str "name" (some d.name) fields
      → Has str "type" (some d.type) fields
      → Entries js ds
      → Entries (cons (obj fields) js) (d ∷ ds)

-- a document that lists devices
pub data Listing : Json → List Device → Type 0 where
  listing :
      {fields : Fields} {js : Elems} {ds : List Device}
      → Has arr "devices" (some js) fields
      → Entries js ds
      → Listing (obj fields) ds

abbrev given : Option String → String → String
given none s = s
given (some t) s = t

not_both : (k : String) → (to_lower k == "name") ≡ true → (to_lower k == "type") ≡ true → ⊥
not_both k e f =
    let named : to_lower k ≡ "name" = (eq_iff (to_lower k) "name").0 e in
    let q : ("name" == "type") ≡ true = rw named at f in (let r : false ≡ true = q in cc)

device_fields :
    (fields : Fields) (n t : Option String) (a : Device)
    → Has str "name" n fields
    → Has str "type" t fields
    → decode_fields device_table fields a
      ≡ some (record a { name = given n a.name; type = given t a.type })
unfolding decode_fields decode_field find_field within decode_string
device_fields _ _ _ a nowhere nowhere = refl
device_fields _ _ _ a (here {k} e _ _) (here f _ _) = absurd (not_both k e f)
device_fields _ _ t a (here {v} {rest} e p h) (there f g) =
    rw (e, p) (device_fields rest none t (record a { name = v }) h g)
device_fields _ n _ a (there e h) (here {v} {rest} f p g) =
    rw (e, f, p) (device_fields rest n none (record a { type = v }) h g)
device_fields _ n t a (there {rest} e h) (there f g) = rw (e, f) (device_fields rest n t a h g)

decode_elems-Entries :
    (js : Elems) (ds : List Device)
    → Entries js ds
    → decode_elems zero_device decode_device js ≡ some ds
unfolding decode_elems decode_device decode_struct
decode_elems-Entries _ _ no_entry = refl
decode_elems-Entries _ _ (entry {fields} {js} {d} {ds} n t rest) =
    rw
      (
        device_fields fields (some d.name) (some d.type) zero_device n t,
        decode_elems-Entries js ds rest,
      )
      refl

no_devices :
    (fields : Fields) (ds : List Device)
    → Has arr "devices" none fields
    → decode_fields scan_table fields ds ≡ some ds
unfolding decode_fields decode_field find_field
no_devices _ ds nowhere = refl
no_devices _ ds (there {rest} e h) = rw e (no_devices rest ds h)

device_list :
    (fields : Fields) (js : Elems) (ds before : List Device)
    → Has arr "devices" (some js) fields
    → Entries js ds
    → decode_fields scan_table fields before ≡ some ds
unfolding decode_fields decode_field find_field within decode_slice
device_list _ js ds before (here {rest} e p h) entries =
    rw (e, p, decode_elems-Entries js ds entries) (no_devices rest ds h)
device_list _ js ds before (there {rest} e h) entries =
    rw e (device_list rest js ds before h entries)

decode_devices-Listing : (j : Json) (ds : List Device) → Listing j ds → decode_devices j ≡ some ds
unfolding decode_devices decode_struct
decode_devices-Listing _ ds (listing {fields} {js} h entries) =
    device_list fields js ds [] h entries

-- the command of a scan
abbrev pub scan_call : State → Call
scan_call s = record {
  method = output;
  name = s.smartctl_path;
  args = "--scan-open" ∷ "--json" ∷ [];
}

module _ (respond : List Call → Call → Reply) (parse : String → Option Json) (now : ℕ → ℕ) where
  -- A scan whose command succeeds and prints an object with a list of devices, whose entries are objects
  -- with a name and a type, returns just these devices, in order, whatever other keys the document and
  -- the entries have. Each of the keys stands once, in any case of letters.
  pub scan_devices-Listing :
      (j : Json) (ds : List Device) (s : State)
      → Listing j ds
      → (respond s.calls (scan_call s)).err ≡ none
      → parse (respond s.calls (scan_call s)).out ≡ some j
      → (scan_devices (json_env respond parse now) s).0 ≡ ok ds
  unfolding command json_env
  scan_devices-Listing j ds s listed done document =
      scan_devices-read (json_env respond parse now) ds s done
        (rw document (decode_devices-Listing j ds listed))
