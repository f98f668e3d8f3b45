-- ===== src/Backend/State/Concurrent/Kept.antt =====
-- A cached type that other goroutines leave alone.
use mathlib.Core.List.{Memᴰ}
use smartmontools_go.Base.{
  String, false, Bool-cases, Option, none, some, List, GoMap, lookup, insert, lookup-insert, ◌==◌,
  eq_iff, ◌≡◌, ◌⊎◌, inl, inr,
}
use smartmontools_go.Interleave.{Change, Steps, Steps-invariant}
use smartmontools_go.Backend.State.Concurrent.{
  Task, giving, reporting, storing, settled, report_step, task_step,
}

-- the task does not write a type for the path unless it finds none there
abbrev pub Harmless : String → Task → Type 0
Harmless path (giving other _) = (other == path) ≡ false
Harmless path (storing other _) = (other == path) ≡ false
Harmless path (reporting _ _) = Unit
Harmless path (settled _ _) = Unit

record Sound (path device_type : String) (ts : List Task) (m : GoMap String) : Type 0 where
  pub tasks : (t : Task) → Memᴰ t ts → Harmless path t
  pub cached : lookup path m ≡ some device_type

report_step-Harmless :
    (path other reported : String) (o : Option String)
    → (other == path) ≡ false
    → Harmless path (report_step other reported o)
unfolding report_step
report_step-Harmless path other reported (some _) h = tt
report_step-Harmless path other reported none h = elim (Bool-cases (reported == "")) [
  | inl e ↦ rw e tt
  | inr e ↦ rw e h
]

module _ (path device_type : String) (m : GoMap String)
    (cached : lookup path m ≡ some device_type) where
  reporting-Harmless :
      (other reported : String) → Harmless path (report_step other reported (lookup other m))
  unfolding report_step
  reporting-Harmless other reported = elim (Bool-cases (other == path)) [
    | inr different ↦ report_step-Harmless path other reported (lookup other m) different
    | inl same ↦ let p : other ≡ path = (eq_iff other path).0 same in rw p (rw cached tt)
  ]

  step_tasks : (t : Task) → Harmless path t → Harmless path (task_step t m).0
  unfolding task_step
  step_tasks (giving other d) h = tt
  step_tasks (storing other d) h = tt
  step_tasks (settled other d) h = tt
  step_tasks (reporting other d) h = reporting-Harmless other d

  insert_other :
      (other d : String)
      → (other == path) ≡ false
      → lookup path (insert other d m) ≡ some device_type
  insert_other other d h = rw (lookup-insert other path d m, h) cached

  step_cached : (t : Task) → Harmless path t → lookup path (task_step t m).1 ≡ some device_type
  unfolding task_step
  step_cached (giving other d) h = insert_other other d h
  step_cached (storing other d) h = insert_other other d h
  step_cached (reporting other d) h = cached
  step_cached (settled other d) h = cached

module _ (path device_type : String) where
  Change-Sound :
      (ts us : List Task) (m n : GoMap String)
      → Sound path device_type ts m
      → Change task_step ts m us n
      → Sound path device_type us n
  Change-Sound ts us m n h c = record {
    tasks = λ t mem. step_from t (c.from t mem);
    cached = rw c.state (step_cached path device_type m h.cached c.old (h.tasks c.old c.was));
  }
    where
      step_from : (t : Task) → Memᴰ t ts ⊎ (t ≡ (task_step c.old m).0) → Harmless path t
      step_from t (inl mem) = h.tasks t mem
      step_from t (inr e) =
          rw e (step_tasks path device_type m h.cached c.old (h.tasks c.old c.was))

-- A type that is cached for a path stays as it is, however goroutines interleave that cache what devices
-- reported, for the path or any other, and that give hints for other paths or write for other paths.
pub types_kept :
    (ts us : List Task) (first m : GoMap String) (path device_type : String)
    → ((t : Task) → Memᴰ t ts → Harmless path t)
    → lookup path first ≡ some device_type
    → Steps task_step ts first us m
    → lookup path m ≡ some device_type
types_kept ts us first m path device_type harmless cached steps =
    (Steps-invariant task_step (Sound path device_type)
      (λ ps qs a b sound change. Change-Sound path device_type ps qs a b sound change) ts first
      (record { tasks = harmless; cached = cached }) steps).cached
