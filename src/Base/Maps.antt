-- ===== src/Base/Maps.antt =====
-- A Go map with string keys, as an association list. The program never ranges over a map except to
-- copy it, so the order of the entries is not observed.
use Prim.Native.String.{String}
use mathlib.Core.Path.{◌≡◌, refl, ◌∙◌, subst}
use mathlib.Core.Logic.{◌⊎◌, inl, inr}
use mathlib.Core.Bool.{Bool, true, false}
use mathlib.Core.Option.{Option, none, some}
use mathlib.Core.List.{List, [], ◌∷◌}
use native.Mathlib.Omega.{arith}
use text.Mathlib.Text.{◌==◌}
use text.Mathlib.TextEquality.{eq_iff}
use text.Mathlib.TextPositions.{eq_refl}
use smartmontools_go.Base.Tests.{if◌then◌else◌, is_some, Bool-cases}

abbrev pub GoMap {ℓ} : Type ℓ → Type ℓ
GoMap V = List (String × V)

eq_false_sym : (j k : String) → (j == k) ≡ false → (k == j) ≡ false
eq_false_sym j k e = ground (arith, eq_iff j k, eq_iff k j)

module _ {ℓ} {V : Type ℓ} where
  -- v, ok := m[k]
  unfoldable pub lookup : String → GoMap V → Option V
  lookup key [] = none
  lookup key ((first, value) ∷ rest) = if first == key then some value else lookup key rest

  abbrev pub has_key : String → GoMap V → Bool
  has_key key entries = is_some (lookup key entries)

  -- m[k] = v
  unfoldable pub insert : String → V → GoMap V → GoMap V
  insert key value ((first, old) ∷ rest) =
      if first == key then (key, value) ∷ rest else (first, old) ∷ insert key value rest
  insert key value [] = (key, value) ∷ []

  -- for key, value := range m { copy[key] = value }
  unfoldable pub copy_into : GoMap V → GoMap V → GoMap V
  unfolding insert
  copy_into copy [] = copy
  copy_into copy ((key, value) ∷ rest) = copy_into (insert key value copy) rest

  pub lookup-insert :
      (k j : String) (v : V) (m : GoMap V)
      → lookup j (insert k v m) ≡ (if k == j then some v else lookup j m)
  unfolding lookup insert
  lookup-insert k j v ((i, w) ∷ rest) =
      ground (arith, lookup-insert k j v rest, eq_iff i j, eq_iff k j, eq_iff i k)
  lookup-insert k j v [] = refl

  pub lookup-insert_self : (k : String) (v : V) (m : GoMap V) → lookup k (insert k v m) ≡ some v
  lookup-insert_self k v m = simp (lookup-insert, eq_refl)

  -- every key once
  abbrev pub Unique : GoMap V → Type 0
  Unique [] = Unit
  Unique ((k, v) ∷ m) = (is_some (lookup k m) ≡ false) × Unique m

  -- the first of the two values
  abbrev pub newer : Option V → Option V → Option V
  newer (some v) old = some v
  newer none old = old

  newer-none : (o p : Option V) → is_some o ≡ false → newer o p ≡ p
  newer-none none p h = refl
  newer-none (some v) p h = absurd (ground arith)

  lookup-insert_other :
      (k j : String) (v : V) (m : GoMap V)
      → (k == j) ≡ false
      → is_some (lookup j m) ≡ false
      → is_some (lookup j (insert k v m)) ≡ false
  lookup-insert_other k j v m ne h = rw (lookup-insert, ne) h

  pub insert-Unique : (k : String) (v : V) (m : GoMap V) → Unique m → Unique (insert k v m)
  unfolding insert
  insert-Unique k v [] h = unfold lookup in (refl, tt)
  insert-Unique k v ((j, w) ∷ m) (absent, h) =
      insert_step (insert-Unique k v m h) (Bool-cases (j == k))
    where
      insert_step :
          Unique (insert k v m)
          → ((j == k) ≡ true) ⊎ ((j == k) ≡ false)
          → Unique (if j == k then (k, v) ∷ m else (j, w) ∷ insert k v m)
      insert_step rest (inl e) =
          rw e (subst (λ x. is_some (lookup x m) ≡ false) ((eq_iff j k).0 e) absent, h)
      insert_step rest (inr e) =
          rw e (lookup-insert_other k j v m (eq_false_sym j k e) absent, rest)

  newest :
      (k j : String) (v : V) (copy m : GoMap V)
      → is_some (lookup k m) ≡ false
      → newer (lookup j m) (lookup j (insert k v copy))
        ≡ newer (lookup j ((k, v) ∷ m)) (lookup j copy)
  newest k j v copy m absent = elim (Bool-cases (k == j)) [
    | inl e ↦
        unfold lookup in
        rw (lookup-insert, e)
          (newer-none (lookup j m) (some v)
            (subst (λ x. is_some (lookup x m) ≡ false) ((eq_iff k j).0 e) absent))
    | inr e ↦ unfold lookup in rw (lookup-insert, e) refl
  ]

  pub copy_into-lookup :
      (j : String) (copy m : GoMap V)
      → Unique m
      → lookup j (copy_into copy m) ≡ newer (lookup j m) (lookup j copy)
  unfolding copy_into
  copy_into-lookup j copy [] h = unfold lookup in refl
  copy_into-lookup j copy ((k, v) ∷ m) (absent, h) =
      copy_into-lookup j (insert k v copy) m h ∙ newest k j v copy m absent
