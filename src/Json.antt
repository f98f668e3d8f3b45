-- ===== src/Json.antt =====
-- A decoded JSON document, as `map[string]any` holds one. A number is an integer literal or the text of
-- any other. Decode is what encoding/json makes of a document at a Go type.
pub mod Decode
pub mod Encode
pub mod ReadBack
pub mod Preserve
use smartmontools_go.Base.{ℤ, String, Bool}

mutual
  pub data Json : Type 0 where
    null : Json
    bool : Bool → Json
    int : ℤ → Json
    num : String → Json
    str : String → Json
    arr : Elems → Json
    obj : Fields → Json

  pub data Elems : Type 0 where
    nil : Elems
    cons : Json → Elems → Elems

  pub data Fields : Type 0 where
    end : Fields
    field : String → Json → Fields → Fields
