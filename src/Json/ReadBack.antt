-- ===== src/Json/ReadBack.antt =====
-- How a decoder reads the fields of a struct back that were printed, one step for each kind of field.
use smartmontools_go.Base.{
  ℤ, pos, String, Bool, true, false, Option, none, some, List, [], ◌∷◌, eqbℤ, eqbℤ_iff, ◌==◌,
  eq_iff, ◌≡◌, refl, ap,
}
use smartmontools_go.Json.{Json, null, bool, int, num, str, arr, obj, Fields, end, field}
use smartmontools_go.Json.Decode.{
  Decoder, IsInt64, decode_int, decode_string, decode_bool, decode_pointer, decode_elems,
  decode_slice, within, find_field, decode_field, decode_fields,
}
use smartmontools_go.Json.Encode.{
  omit_if, omit_int, omit_string, omit_bool, omit_pointer, encode_elems, omit_slice, AllOf, Each,
  EachIn,
}

pub read_int : (n m : ℤ) → IsInt64 n → decode_int (int n) m ≡ some n
unfolding decode_int
read_int n m fits = rw fits refl

pub read_string : (s t : String) → decode_string (str s) t ≡ some s
unfolding decode_string
read_string s t = refl

pub read_bool : (b c : Bool) → decode_bool (bool b) c ≡ some b
unfolding decode_bool
read_bool b c = refl

-- the end of a struct
pub fields_end :
    {A : Type 0} (table : List (String × Decoder A)) (a : A) → decode_fields table end a ≡ some a
unfolding decode_fields
fields_end table a = refl

module _ {ℓ κ} {A : Type ℓ} {B : Type κ} (table : List (String × Decoder A)) where
  -- a field that is always printed
  pub field_step :
      (get : A → B) (set : B → A → A) (dec : Decoder B) (key : String) (j : Json) (b : B)
      (rest : Fields) (a : A)
      → find_field key table ≡ some (within get set dec)
      → dec j (get a) ≡ some b
      → decode_fields table (field key j rest) a ≡ decode_fields table rest (set b a)
  unfolding decode_fields decode_field within
  field_step get set dec key j b rest a found read = rw (found, read) refl

  -- a field that may be left out, if the value that is left out is the one in place
  pub omit_step :
      (get : A → B) (set : B → A → A) (dec : Decoder B) (omit : Bool) (key : String) (j : Json)
      (b : B) (rest : Fields) (a : A)
      → find_field key table ≡ some (within get set dec)
      → dec j (get a) ≡ some b
      → (omit ≡ true → a ≡ set b a)
      → decode_fields table (omit_if omit key j rest) a ≡ decode_fields table rest (set b a)
  omit_step get set dec true key j b rest a found read same =
      ap (decode_fields table rest) (same refl)
  omit_step get set dec false key j b rest a found read same =
      field_step get set dec key j b rest a found read

module _ {ℓ} {A : Type ℓ} (table : List (String × Decoder A)) where
  pub int_step :
      (get : A → ℤ) (set : ℤ → A → A) (key : String) (n : ℤ) (rest : Fields) (a : A)
      → find_field key table ≡ some (within get set decode_int)
      → IsInt64 n
      → a ≡ set (pos 0) a
      → decode_fields table (omit_int key n rest) a ≡ decode_fields table rest (set n a)
  int_step get set key n rest a found fits same =
      omit_step table get set decode_int (eqbℤ n (pos 0)) key (int n) n rest a found
        (read_int n (get a) fits)
        (λ e. (let zero : n ≡ pos 0 = (eqbℤ_iff n (pos 0)).0 e in rw zero same))

  pub string_step :
      (get : A → String) (set : String → A → A) (key s : String) (rest : Fields) (a : A)
      → find_field key table ≡ some (within get set decode_string)
      → a ≡ set "" a
      → decode_fields table (omit_string key s rest) a ≡ decode_fields table rest (set s a)
  string_step get set key s rest a found same =
      omit_step table get set decode_string (s == "") key (str s) s rest a found
        (read_string s (get a)) (λ e. (let empty : s ≡ "" = (eq_iff s "").0 e in rw empty same))

  pub bool_step :
      (get : A → Bool) (set : Bool → A → A) (key : String) (b : Bool) (rest : Fields) (a : A)
      → find_field key table ≡ some (within get set decode_bool)
      → a ≡ set false a
      → decode_fields table (omit_bool key b rest) a ≡ decode_fields table rest (set b a)
  bool_step get set key true rest a found same =
      field_step table get set decode_bool key (bool true) true rest a found
        (read_bool true (get a))
  bool_step get set key false rest a found same = ap (decode_fields table rest) same

pub AllOf-unit {ℓ} : {A : Type ℓ} (o : Option A) → AllOf (λ _. Unit) o
AllOf-unit none = tt
AllOf-unit (some a) = tt

abbrev pub is_null : Json → Bool
is_null null = true
is_null _ = false

module _ {ℓ} {B : Type ℓ} (zero : B) (dec : Decoder B) where
  read_pointer :
      (j : Json) (b : B)
      → is_null j ≡ false
      → dec j zero ≡ some b
      → decode_pointer zero dec j none ≡ some (some b)
  unfolding decode_pointer
  read_pointer null b solid read = cc
  read_pointer (bool c) b solid read = rw read refl
  read_pointer (int n) b solid read = rw read refl
  read_pointer (num t) b solid read = rw read refl
  read_pointer (str t) b solid read = rw read refl
  read_pointer (arr js) b solid read = rw read refl
  read_pointer (obj fs) b solid read = rw read refl

  read_elems :
      (P : B → Type 0) (encode : B → Json)
      → ((b : B) → P b → dec (encode b) zero ≡ some b)
      → (bs : List B) → Each P bs
      → decode_elems zero dec (encode_elems encode bs) ≡ some bs
  unfolding decode_elems
  read_elems P encode read [] h = refl
  read_elems P encode read (b ∷ bs) h = rw (read b h.0, read_elems P encode read bs h.1) refl

module _ {ℓ κ} {A : Type ℓ} {B : Type κ} (table : List (String × Decoder A)) where
  pub pointer_step :
      (get : A → Option B) (set : Option B → A → A) (zero : B) (dec : Decoder B) (P : B → Type 0)
      (encode : B → Json) (key : String) (o : Option B) (rest : Fields) (a : A)
      → find_field key table ≡ some (within get set (decode_pointer zero dec))
      → ((b : B) → is_null (encode b) ≡ false)
      → ((b : B) → P b → dec (encode b) zero ≡ some b)
      → AllOf P o
      → get a ≡ none
      → a ≡ set none a
      → decode_fields table (omit_pointer encode key o rest) a ≡ decode_fields table rest (set o a)
  pointer_step get set zero dec P encode key none rest a found solid read h bare same =
      ap (decode_fields table rest) same
  pointer_step get set zero dec P encode key (some b) rest a found solid read h bare same =
      field_step table get set (decode_pointer zero dec) key (encode b) (some b) rest a found
        (rw bare (read_pointer zero dec (encode b) b (solid b) (read b h)))

  pub slice_step :
      (get : A → Option (List B)) (set : Option (List B) → A → A) (zero : B) (dec : Decoder B)
      (P : B → Type 0) (encode : B → Json) (key : String) (bs : Option (List B)) (rest : Fields)
      (a : A)
      → find_field key table ≡ some (within get set (decode_slice zero dec))
      → ((b : B) → P b → dec (encode b) zero ≡ some b)
      → EachIn P bs
      → a ≡ set none a
      → decode_fields table (omit_slice encode key bs rest) a ≡ decode_fields table rest (set bs a)
  slice_step get set zero dec P encode key none rest a found read h same =
      ap (decode_fields table rest) same
  slice_step get set zero dec P encode key (some (b ∷ bs)) rest a found read h same =
      field_step table get set (decode_slice zero dec) key _ (some (b ∷ bs)) rest a found
        (unfold decode_slice in rw (read_elems zero dec P encode read (b ∷ bs) h) refl)
  slice_step get set zero dec P encode key (some []) rest a found read h same = absurd h

module _ {ℓ} {A : Type ℓ} (table : List (String × Decoder A)) where
  pub int_pointer_step :
      (get : A → Option ℤ) (set : Option ℤ → A → A) (key : String) (o : Option ℤ) (rest : Fields)
      (a : A)
      → find_field key table ≡ some (within get set (decode_pointer (pos 0) decode_int))
      → AllOf IsInt64 o
      → get a ≡ none
      → a ≡ set none a
      → decode_fields table (omit_pointer int key o rest) a ≡ decode_fields table rest (set o a)
  int_pointer_step get set key o rest a found fits bare same =
      pointer_step table get set (pos 0) decode_int IsInt64 int key o rest a found (λ n. refl)
        (λ n fit. read_int n (pos 0) fit) fits bare same

  pub int_slice_step :
      (get : A → Option (List ℤ)) (set : Option (List ℤ) → A → A) (key : String)
      (ns : Option (List ℤ)) (rest : Fields) (a : A)
      → find_field key table ≡ some (within get set (decode_slice (pos 0) decode_int))
      → EachIn IsInt64 ns
      → a ≡ set none a
      → decode_fields table (omit_slice int key ns rest) a ≡ decode_fields table rest (set ns a)
  int_slice_step get set key ns rest a found fits same =
      slice_step table get set (pos 0) decode_int IsInt64 int key ns rest a found
        (λ n fit. read_int n (pos 0) fit) fits same
