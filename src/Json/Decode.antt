-- ===== src/Json/Decode.antt =====
-- encoding/json as the program uses it, by its documentation: a decoder of a type takes a document and
-- the value that is there, and gives the new value, or nothing where `Unmarshal` returns an error.
use smartmontools_go.Base.{
  true, ◌≡◌, ℤ, pos, negsuc, ◌^◌, String, Bool, Option, none, some, List, [], ◌∷◌, GoMap, insert,
  if◌then◌else◌, ltb, ◌==◌,
}
use smartmontools_go.Text.{to_lower}
use smartmontools_go.Json.{
  Json, null, bool, int, str, arr, obj, Elems, nil, cons, Fields, end, field,
}

abbrev pub Decoder {ℓ} : Type ℓ → Type ℓ
Decoder A = Json → A → Option A

-- int and int64 of a 64-bit platform
unfoldable pub is_int64 : ℤ → Bool
is_int64 (pos n) = ltb n (2 ^ 63)
is_int64 (negsuc n) = ltb n (2 ^ 63)

abbrev pub IsInt64 : ℤ → Type 0
IsInt64 n = is_int64 n ≡ true

unfoldable pub decode_int : Decoder ℤ
decode_int null n = some n
decode_int (int i) n = if is_int64 i then some i else none
decode_int _ n = none

unfoldable pub decode_string : Decoder String
decode_string null s = some s
decode_string (str t) s = some t
decode_string _ s = none

unfoldable pub decode_bool : Decoder Bool
decode_bool null b = some b
decode_bool (bool c) b = some c
decode_bool _ b = none

-- what follows a step that did not fail
abbrev pub and_then {ℓ κ} : {A : Type ℓ} {B : Type κ} → Option A → (A → Option B) → Option B
and_then none f = none
and_then (some a) f = f a

module _ {ℓ} {A : Type ℓ} where
  abbrev pub or_zero : A → Option A → A
  or_zero zero none = zero
  or_zero zero (some a) = a

  -- A pointer: null sets it to nil, and another value goes into what it points to, which is new if it is
  -- nil.
  unfoldable pub decode_pointer : A → Decoder A → Decoder (Option A)
  decode_pointer zero dec null o = some none
  decode_pointer zero dec j o = and_then (dec j (or_zero zero o)) (λ a. some (some a))

  unfoldable pub decode_elems : A → Decoder A → Elems → Option (List A)
  decode_elems zero dec nil = some []
  decode_elems zero dec (cons j js) =
      let others = decode_elems zero dec js in
      and_then (dec j zero) (λ a. and_then others (λ rest. some (a ∷ rest)))

  -- A slice: null sets it to nil, and an array to its elements.
  unfoldable pub decode_slice : A → Decoder A → Decoder (Option (List A))
  decode_slice zero dec null xs = some none
  decode_slice zero dec (arr js) xs = and_then (decode_elems zero dec js) (λ ys. some (some ys))
  decode_slice zero dec _ xs = none

  -- a field of a struct, by its getter and its setter
  unfoldable pub within {κ} : {B : Type κ} → (A → B) → (B → A → A) → Decoder B → Decoder A
  within get set dec j a = and_then (dec j (get a)) (λ b. some (set b a))

  -- The field of a key. Keys match in any case of letters; all tags of the program are in lower case.
  unfoldable pub find_field : String → List (String × Decoder A) → Option (Decoder A)
  find_field key [] = none
  find_field key ((tag, dec) ∷ fields) =
      if to_lower key == tag then some dec else find_field key fields

  -- a key without a field is passed over
  unfoldable pub decode_field : Option (Decoder A) → Decoder A
  decode_field none j a = some a
  decode_field (some dec) j a = dec j a

  unfoldable pub decode_fields : List (String × Decoder A) → Fields → A → Option A
  decode_fields table end a = some a
  decode_fields table (field key j rest) a =
      and_then (decode_field (find_field key table) j a) (λ b. decode_fields table rest b)

  -- a struct, by the tags of its fields
  unfoldable pub decode_struct : List (String × Decoder A) → Decoder A
  decode_struct table null a = some a
  decode_struct table (obj fields) a = decode_fields table fields a
  decode_struct table _ a = none

unfoldable pub object_entries : Fields → GoMap Json → GoMap Json
object_entries end m = m
object_entries (field key j rest) m = object_entries rest (insert key j m)

-- a `map[string]any` that is nil
unfoldable pub decode_object : Json → Option (GoMap Json)
decode_object null = some []
decode_object (obj fields) = some (object_entries fields [])
decode_object _ = none
