-- ===== src/Json/Preserve.antt =====
-- What every field of a struct leaves alone, the decoder of the struct leaves alone.
use mathlib.Core.Path.{subst}
use smartmontools_go.Base.{
  String, Option, none, some, List, [], ◌∷◌, ◌≡◌, refl, ◌==◌, Bool-cases, inl, inr,
}
use smartmontools_go.Text.{to_lower}
use smartmontools_go.Json.{Json, null, bool, int, num, str, arr, obj, Fields, end, field}
use smartmontools_go.Json.Decode.{
  Decoder, and_then, within, find_field, decode_field, decode_fields, decode_struct,
}

-- a step that did not fail had a result, and went on with it
pub and_then-some {ℓ κ} :
    {A : Type ℓ} {B : Type κ} (o : Option A) (f : A → Option B) (b : B)
    → and_then o f ≡ some b
    → (a : A) × (o ≡ some a) × (f a ≡ some b)
and_then-some none f b e = cc
and_then-some (some a) f b e = (a, refl, e)

module _ {ℓ} {A : Type ℓ} (P : A → Type 0) where
  abbrev pub Preserves : Decoder A → Type ℓ
  Preserves dec = (j : Json) (a b : A) → P a → dec j a ≡ some b → P b

  -- so does every field of a table
  pub data AllPreserve : List (String × Decoder A) → Type ℓ where
    none_left : AllPreserve []
    keeps :
        {tag : String} {dec : Decoder A} {table : List (String × Decoder A)}
        → Preserves dec
        → AllPreserve table
        → AllPreserve ((tag, dec) ∷ table)

  pub within-Preserves {κ} :
      {B : Type κ} (get : A → B) (set : B → A → A) (dec : Decoder B)
      → ((b : B) (a : A) → P a → P (set b a))
      → Preserves (within get set dec)
  unfolding within
  within-Preserves get set dec keep j a b p e =
      let (c, _, put) = and_then-some (dec j (get a)) (λ c. some (set c a)) b e in
      let same : set c a ≡ b = cc in subst P same (keep c a p)

  decode_field-Preserves :
      (key : String) (table : List (String × Decoder A))
      → AllPreserve table
      → Preserves (decode_field (find_field key table))
  unfolding find_field decode_field
  decode_field-Preserves key [] all j a b p e = subst P (let same : a ≡ b = cc in same) p
  decode_field-Preserves key ((tag, dec) ∷ table) (keeps h all) j a b p e =
      elim (Bool-cases (to_lower key == tag)) [
        | inl found ↦ h j a b p (rw found at e)
        | inr other ↦ decode_field-Preserves key table all j a b p (rw other at e)
      ]

  decode_fields-preserves :
      (table : List (String × Decoder A)) (fields : Fields) (a b : A)
      → AllPreserve table
      → P a
      → decode_fields table fields a ≡ some b
      → P b
  unfolding decode_fields
  decode_fields-preserves table end a b all p e = subst P (let same : a ≡ b = cc in same) p
  decode_fields-preserves table (field key j rest) a b all p e =
      let (c, first, later) =
        and_then-some (decode_field (find_field key table) j a) (λ c. decode_fields table rest c) b
          e in
      decode_fields-preserves table rest c b all
        (decode_field-Preserves key table all j a c p first) later

  pub decode_struct-Preserves :
      (table : List (String × Decoder A)) → AllPreserve table → Preserves (decode_struct table)
  unfolding decode_struct
  decode_struct-Preserves table all null a b p e = subst P (let same : a ≡ b = cc in same) p
  decode_struct-Preserves table all (obj fields) a b p e =
      decode_fields-preserves table fields a b all p e
  decode_struct-Preserves table all (bool c) a b p e = cc
  decode_struct-Preserves table all (int n) a b p e = cc
  decode_struct-Preserves table all (num t) a b p e = cc
  decode_struct-Preserves table all (str t) a b p e = cc
  decode_struct-Preserves table all (arr js) a b p e = cc
