-- ===== src/Backend/State/Effects.antt =====
-- What an operation of the backend may do to the cached device types, and how many commands it may
-- start, as relations on states that compose.
use smartmontools_go.Base.{
  ℕ, ◌+◌, ◌≤◌, String, Bool, true, false, List, some, ◌≡◌, ◌⊎◌, inl, inr, arith, length,
  if◌then◌else◌,
}
use smartmontools_go.Backend.State.{
  Env, State, Method, LogEntry, log, command, get_cached_device_type,
}
use smartmontools_go.Backend.State.Cache.{Keeps, Keeps-refl, Keeps-trans, log-Keeps, command-Keeps}

-- every cached type stays, and `n` more commands at most are started
pub record Within (n : ℕ) (s t : State) : Type 0 where
  pub keeps : Keeps s t
  pub calls : length t.calls ≤ n + length s.calls

-- every cached type stays or becomes "sat"
pub record Settles (s t : State) : Type 0 where
  pub at :
      (path device_type : String)
      → get_cached_device_type path s ≡ some device_type
      → (get_cached_device_type path t ≡ some device_type)
        ⊎ (get_cached_device_type path t ≡ some "sat")

pub Within-refl : (s : State) → Within 0 s s
Within-refl s = record { keeps = Keeps-refl s; calls = omega arith }

pub Within-trans : (m n : ℕ) {s t u : State} → Within m s t → Within n t u → Within (m + n) s u
Within-trans m n h k = record {
  keeps = Keeps-trans h.keeps k.keeps;
  calls = omega (arith, h.calls, k.calls);
}

pub Within-weaken : {m n : ℕ} {s t : State} → m ≤ n → Within m s t → Within n s t
Within-weaken le h = record { keeps = h.keeps; calls = omega (arith, le, h.calls) }

pub log-Within : (e : LogEntry) (s : State) → Within 0 s (log e s)
log-Within e s = record { keeps = log-Keeps e s; calls = unfold log in omega arith }

pub command-Within :
    (env : Env) (method : Method) (args : List String) (s : State)
    → Within 1 s (command env method args s).1
command-Within env method args s = record {
  keeps = command-Keeps env method args s;
  calls = unfold command in omega arith;
}

pub Settles-of_Keeps : {s t : State} → Keeps s t → Settles s t
Settles-of_Keeps h = record { at = λ path device_type e. inl (h.at path device_type e) }

pub Settles-trans : {s t u : State} → Settles s t → Settles t u → Settles s u
Settles-trans h k = record {
  at = λ path device_type e. elim (h.at path device_type e) [
    | inl same ↦ k.at path device_type same
    | inr sat ↦ (elim (k.at path "sat" sat) [ inl e' ↦ inr e' | inr e' ↦ inr e' ])
  ];
}

pub if_Within {ℓ} :
    {A : Type ℓ} {n : ℕ} {s : State} (b : Bool) (p q : A × State)
    → Within n s p.1
    → Within n s q.1
    → Within n s (if b then p else q).1
if_Within true p q h k = h
if_Within false p q h k = k
