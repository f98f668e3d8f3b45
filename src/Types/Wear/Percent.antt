-- ===== src/Types/Wear/Percent.antt =====
-- The wear level is a percentage, and which attribute it is read from.
use mathlib.Core.Path.{subst}
use smartmontools_go.Base.{
  Bool-cases, inl, inr, ap, ◌∙◌, ℤ, pos, ◌-ℤ◌, wrap64, ◌≤ℤ◌, ltbℤ, eqbℤ, eqbℤ_iff, Option, none,
  some, List, [], ◌∷◌, ◌≡◌, refl, arith, ◌==◌, if◌then◌else◌,
}
use smartmontools_go.Types.{SmartInfo, SmartAttribute, AtaSmartData, NvmeSmartHealth, elements}
use smartmontools_go.Types.Wear.{
  clamp, Matches, scan_step, scan_table, or_else, choose, wear_of_nvme, no_matches, wear_of_ata,
  wear_level_percent,
}

-- `a`, or `b` where there is none
abbrev pub first_some : Option ℤ → Option ℤ → Option ℤ
first_some none b = b
first_some (some v) b = some v

-- in [0, 100]
abbrev pub IsPercent : ℤ → Type 0
IsPercent v = (pos 0 ≤ℤ v) × (v ≤ℤ pos 100)

abbrev pub AllPercent : Option ℤ → Type 0
AllPercent none = Unit
AllPercent (some v) = IsPercent v

clamp-IsPercent : (v : ℤ) → IsPercent (clamp v)
unfolding clamp ltbℤ
clamp-IsPercent v = ground arith

record MatchesPercent (m : Matches) : Type 0 where
  in_231 : AllPercent m.by_attr_231
  in_177 : AllPercent m.by_attr_177
  in_173 : AllPercent m.by_attr_173

scan_step-percent :
    (m : Matches) (a : SmartAttribute) → MatchesPercent m → MatchesPercent (scan_step m a)
unfolding scan_step
scan_step-percent m a h =
    ground (arith, clamp-IsPercent (wrap64 (pos 100 -ℤ a.value)), clamp-IsPercent a.raw.value)

scan_table-percent :
    (table : List SmartAttribute) (m : Matches)
    → MatchesPercent m
    → MatchesPercent (scan_table m table)
unfolding scan_table
scan_table-percent [] m h = h
scan_table-percent (a ∷ table) m h =
    scan_table-percent table (scan_step m a) (scan_step-percent m a h)

or_else-percent : (a b : Option ℤ) → AllPercent a → AllPercent b → AllPercent (or_else a b)
unfolding or_else
or_else-percent none b h k = k
or_else-percent (some v) b h k = h

choose-percent : (m : Matches) → MatchesPercent m → AllPercent (choose m)
unfolding choose
choose-percent m h =
    or_else-percent m.by_attr_231 (or_else m.by_attr_177 m.by_attr_173) h.in_231
      (or_else-percent m.by_attr_177 m.by_attr_173 h.in_177 h.in_173)

wear_of_ata-percent : (d : Option AtaSmartData) → AllPercent (wear_of_ata d)
wear_of_ata-percent none = unfold wear_of_ata in tt
wear_of_ata-percent (some d) =
    unfold wear_of_ata in
    choose-percent (scan_table no_matches (elements d.table)) (
      scan_table-percent (elements d.table) no_matches
        (record { in_231 = tt; in_177 = tt; in_173 = tt }))

wear_of_nvme-percent : (h : Option NvmeSmartHealth) → AllPercent (wear_of_nvme h)
unfolding wear_of_nvme
wear_of_nvme-percent none = tt
wear_of_nvme-percent (some h) = clamp-IsPercent h.percentage_used

wear_level-percent : (s : SmartInfo) → AllPercent (wear_level_percent s)
wear_level-percent s = elim (Bool-cases (s.disk_type == "NVMe")) [
  | inl n ↦ unfold wear_level_percent in rw n (wear_of_nvme-percent s.nvme_smart_health)
  | inr n ↦ elim (Bool-cases (s.disk_type == "SSD")) [
    | inl d ↦ unfold wear_level_percent in rw (n, d) (wear_of_ata-percent s.ata_smart_data)
    | inr d ↦ unfold wear_level_percent in rw (n, d) tt
  ]
]

-- A wear level that is reported lies between 0 and 100, whatever the device's numbers are.
pub wear_level_percent-IsPercent :
    (s : SmartInfo) (v : ℤ) → wear_level_percent s ≡ some v → (pos 0 ≤ℤ v) × (v ≤ℤ pos 100)
wear_level_percent-IsPercent s v h = subst AllPercent h (wear_level-percent s)

-- the last entry of a table with an identifier, through `f`
abbrev pub last_with : ℤ → (SmartAttribute → ℤ) → List SmartAttribute → Option ℤ
last_with id f [] = none
last_with id f (a ∷ table) =
    first_some (last_with id f table) (if eqbℤ a.id id then some (f a) else none)

pub remaining : SmartAttribute → ℤ
remaining a = clamp (wrap64 (pos 100 -ℤ a.value))

pub used : SmartAttribute → ℤ
used a = clamp a.raw.value

module _ (o : Option ℤ) (m : Matches) (a : SmartAttribute) where
  step_231 :
      first_some o (scan_step m a).by_attr_231
      ≡ first_some
          (first_some o (if eqbℤ a.id (pos 231) then some (remaining a) else none))
          m.by_attr_231
  unfolding scan_step remaining
  step_231 = ground arith

  step_177 :
      first_some o (scan_step m a).by_attr_177
      ≡ first_some
          (first_some o (if eqbℤ a.id (pos 177) then some (remaining a) else none))
          m.by_attr_177
  unfolding scan_step remaining
  step_177 = ground (arith, eqbℤ_iff a.id (pos 231), eqbℤ_iff a.id (pos 177))

  step_173 :
      first_some o (scan_step m a).by_attr_173
      ≡ first_some
          (first_some o (if eqbℤ a.id (pos 173) then some (used a) else none))
          m.by_attr_173
  unfolding scan_step used
  step_173 =
      ground (arith, eqbℤ_iff a.id (pos 231), eqbℤ_iff a.id (pos 177), eqbℤ_iff a.id (pos 173))

scan_table-last :
    (table : List SmartAttribute) (m : Matches)
    → scan_table m table ≡ record {
      by_attr_231 = first_some (last_with (pos 231) remaining table) m.by_attr_231;
      by_attr_177 = first_some (last_with (pos 177) remaining table) m.by_attr_177;
      by_attr_173 = first_some (last_with (pos 173) used table) m.by_attr_173;
    }
unfolding scan_table
scan_table-last [] m = refl
scan_table-last (a ∷ table) m = scan_table-last table (scan_step m a) ∙ λ i. record {
  by_attr_231 = step_231 (last_with (pos 231) remaining table) m a i;
  by_attr_177 = step_177 (last_with (pos 177) remaining table) m a i;
  by_attr_173 = step_173 (last_with (pos 173) used table) m a i;
}

first_some-none : (o : Option ℤ) → first_some o none ≡ o
first_some-none none = refl
first_some-none (some v) = refl

or_else-first : (a b : Option ℤ) → or_else a b ≡ first_some a b
unfolding or_else
or_else-first none b = refl
or_else-first (some v) b = refl

choose-first :
    (x y z : Option ℤ)
    → choose (record {
      by_attr_231 = first_some x none;
      by_attr_177 = first_some y none;
      by_attr_173 = first_some z none;
    })
      ≡ first_some x (first_some y z)
unfolding choose
choose-first x y z =
    rw (first_some-none x, first_some-none y, first_some-none z, or_else-first y z)
      (or_else-first x (first_some y z))

-- The wear level of an SSD is read from the last entry of the highest-ranking attribute in the table: 231,
-- else 177, as 100 less the normalized value (in 64 bits), else 173, as the raw value, each clamped to a percentage.
pub wear_level_percent-ssd :
    (s : SmartInfo) (d : AtaSmartData)
    → s.disk_type ≡ "SSD"
    → s.ata_smart_data ≡ some d
    → wear_level_percent s
      ≡ first_some (last_with (pos 231) remaining (elements d.table)) (
          first_some
            (last_with (pos 177) remaining (elements d.table))
            (last_with (pos 173) used (elements d.table)))
wear_level_percent-ssd s d e f =
    unfold wear_level_percent in
    rw (e, f)
      (ap choose (scan_table-last (elements d.table) no_matches)
        ∙ choose-first (last_with (pos 231) remaining (elements d.table))
            (last_with (pos 177) remaining (elements d.table))
            (last_with (pos 173) used (elements d.table)))
