-- ===== src/Interleave.antt =====
-- Interleavings of calls that take their steps one at a time on one shared state: the steps as a
-- relation, what one step changes, and invariants of all runs.
use mathlib.Core.Path.{subst}
use mathlib.Core.List.{Memᴰ}
use smartmontools_go.Base.{List, ◌∷◌, ◌≡◌, refl, sym, ◌⊎◌, inl, inr}

-- `P` is how far a call has come, `S` what the calls share, and `advance` the next step of a call.
module _ {ℓ κ} {P : Type ℓ} {S : Type κ} (advance : P → S → P × S) where
  -- one of the calls takes its next step
  pub data Step : List P → S → List P → S → Type (ℓ ⊔ κ) where
    here : {p : P} {ps : List P} {s : S} → Step (p ∷ ps) s ((advance p s).0 ∷ ps) (advance p s).1
    there : {p : P} {ps qs : List P} {s t : S} → Step ps s qs t → Step (p ∷ ps) s (p ∷ qs) t

  -- any number of steps, the last one outermost
  pub data Steps (ps : List P) (s : S) : List P → S → Type (ℓ ⊔ κ) where
    start : Steps ps s ps s
    next : {qs rs : List P} {t u : S} → Steps ps s qs t → Step qs t rs u → Steps ps s rs u

  -- a call that has returned takes no more steps
  abbrev pub Returned : P → Type (ℓ ⊔ κ)
  Returned p = (s : S) → (advance p s).0 ≡ p

  -- what one step does to the list of calls and to the state
  pub record Change (ps : List P) (s : S) (qs : List P) (t : S) : Type (ℓ ⊔ κ) where
    pub old : P
    pub was : Memᴰ old ps
    pub from : (x : P) → Memᴰ x qs → Memᴰ x ps ⊎ (x ≡ (advance old s).0)
    pub stay : (x : P) → Returned x → Memᴰ x ps → Memᴰ x qs
    pub new : Memᴰ (advance old s).0 qs
    pub state : t ≡ (advance old s).1

  here-from :
      (p : P) (ps : List P) (s : S) (x : P)
      → Memᴰ x ((advance p s).0 ∷ ps)
      → Memᴰ x (p ∷ ps) ⊎ (x ≡ (advance p s).0)
  here-from p ps s x (Memᴰ.head e) = inr e
  here-from p ps s x (Memᴰ.tail m) = inl (Memᴰ.tail m)

  here-stay :
      (p : P) (ps : List P) (s : S) (x : P)
      → Returned x
      → Memᴰ x (p ∷ ps)
      → Memᴰ x ((advance p s).0 ∷ ps)
  here-stay p ps s x still (Memᴰ.head e) =
      Memᴰ.head (subst (λ y. x ≡ (advance y s).0) e (sym (still s)))
  here-stay p ps s x still (Memᴰ.tail m) = Memᴰ.tail m

  there-from :
      (p : P) (ps qs : List P) (n : P)
      → ((x : P) → Memᴰ x qs → Memᴰ x ps ⊎ (x ≡ n))
      → (x : P) → Memᴰ x (p ∷ qs)
      → Memᴰ x (p ∷ ps) ⊎ (x ≡ n)
  there-from p ps qs n h x (Memᴰ.head e) = inl (Memᴰ.head e)
  there-from p ps qs n h x (Memᴰ.tail m) = elim (h x m) [
    | inl o ↦ inl (Memᴰ.tail o)
    | inr e ↦ inr e
  ]

  there-stay :
      (p : P) (ps qs : List P)
      → ((x : P) → Returned x → Memᴰ x ps → Memᴰ x qs)
      → (x : P) → Returned x
      → Memᴰ x (p ∷ ps)
      → Memᴰ x (p ∷ qs)
  there-stay p ps qs h x still (Memᴰ.head e) = Memᴰ.head e
  there-stay p ps qs h x still (Memᴰ.tail m) = Memᴰ.tail (h x still m)

  Step-Change : {ps qs : List P} {s t : S} → Step ps s qs t → Change ps s qs t
  Step-Change (here {p} {ps} {s}) = record {
    old = p;
    was = Memᴰ.head refl;
    from = here-from p ps s;
    stay = here-stay p ps s;
    new = Memᴰ.head refl;
    state = refl;
  }
  Step-Change (there {p} {ps} {qs} {s} st) =
      let c = Step-Change st in
      record {
        old = c.old;
        was = Memᴰ.tail c.was;
        from = there-from p ps qs (advance c.old s).0 c.from;
        stay = there-stay p ps qs c.stay;
        new = Memᴰ.tail c.new;
        state = c.state;
      }

  -- what holds at the start and is kept by each step, holds in every run
  pub Steps-invariant {ι} :
      (I : List P → S → Type ι)
      → ((ps qs : List P) (s t : S) → I ps s → Change ps s qs t → I qs t)
      → (ps : List P) (s : S) {qs : List P} {t : S} → I ps s
      → Steps ps s qs t
      → I qs t
  Steps-invariant I keep ps s h start = h
  Steps-invariant I keep ps s h (next {qs} {rs} {t} {u} steps st) =
      keep qs rs t u (Steps-invariant I keep ps s h steps) (Step-Change st)
