-- ===== src/Json/Encode.antt =====
-- What encoding/json prints for a struct, field by field, `omitempty` included.
use smartmontools_go.Base.{
  ℤ, pos, String, Bool, true, false, not, Option, none, some, List, [], ◌∷◌, eqbℤ, ◌==◌,
}
use smartmontools_go.Json.{Json, bool, int, str, arr, Elems, nil, cons, Fields, field}

-- a field that is left out where its value is empty
abbrev pub omit_if : Bool → String → Json → Fields → Fields
omit_if true key j rest = rest
omit_if false key j rest = field key j rest

abbrev pub omit_int : String → ℤ → Fields → Fields
omit_int key n rest = omit_if (eqbℤ n (pos 0)) key (int n) rest

abbrev pub omit_string : String → String → Fields → Fields
omit_string key s rest = omit_if (s == "") key (str s) rest

abbrev pub omit_bool : String → Bool → Fields → Fields
omit_bool key b rest = omit_if (not b) key (bool b) rest

module _ {ℓ} {A : Type ℓ} (encode : A → Json) where
  abbrev pub omit_pointer : String → Option A → Fields → Fields
  omit_pointer key none rest = rest
  omit_pointer key (some a) rest = field key (encode a) rest

  abbrev pub encode_elems : List A → Elems
  encode_elems [] = nil
  encode_elems (a ∷ rest) = cons (encode a) (encode_elems rest)

  abbrev pub omit_slice : String → Option (List A) → Fields → Fields
  omit_slice key none rest = rest
  omit_slice key (some []) rest = rest
  omit_slice key (some (a ∷ more)) rest = field key (arr (encode_elems (a ∷ more))) rest

module _ {ℓ} {A : Type ℓ} (P : A → Type 0) where
  -- `P` holds of what a pointer points to, if it is not nil
  abbrev pub AllOf : Option A → Type 0
  AllOf none = Unit
  AllOf (some a) = P a

  -- `P` holds of every element
  abbrev pub Each : List A → Type 0
  Each [] = Unit
  Each (a ∷ more) = P a × Each more

  -- `P` holds of every element of a slice, which is nil where it is empty
  abbrev pub EachIn : Option (List A) → Type 0
  EachIn none = Unit
  EachIn (some []) = ⊥
  EachIn (some (a ∷ more)) = P a × Each more
