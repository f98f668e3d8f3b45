-- ===== src/MessageCache/Concurrent/NoLoss.antt =====
-- Concurrent calls of `shouldLog`: no message is lost, and one may be logged twice.
use mathlib.Core.Path.{subst}
use mathlib.Core.List as List
use mathlib.Core.List.{Memᴰ}
use smartmontools_go.Base.{
  ℕ, ◌<◌, Bool, true, false, Bool-cases, Option, some, none, List, [], ◌∷◌, ◌≡◌, refl, ◌⊎◌, inl,
  inr, arith, eqb,
}
use smartmontools_go.MessageCache.{MessageCache, load, is_fresh, should_log}
use smartmontools_go.Interleave.{Change, Steps, Steps-invariant}
use smartmontools_go.MessageCache.Dedup.{Query, load-store}
use smartmontools_go.MessageCache.Concurrent.{
  Phase, asking, storing, answered, key_of, expiry_of, advance, all_asking, alone,
}

-- A call whose two steps are taken together is the call of a single goroutine.
pub alone_lem :
    (q : Query) (mc : MessageCache)
    → let (logged, md) = should_log q.now q.msg q.severity mc in
      alone q mc ≡ (answered q logged, md)
unfolding alone advance should_log
alone_lem q mc = elim (Bool-cases (is_fresh q.now (load (key_of q) mc))) [
  | inl e ↦ rw e refl
  | inr e ↦ rw e refl
]

-- why the cache has the entry: it began with it, or a call that returned true stored it
data Because (first : MessageCache) (ps : List Phase) (k t : ℕ) : Type 0 where
  initial : load k first ≡ some t → Because first ps k t
  by_call :
      (w : Query)
      → Memᴰ (answered w true) ps
      → key_of w ≡ k
      → expiry_of w ≡ t
      → Because first ps k t

-- Every entry has a reason, and so has every silence: an entry that was fresh.
record Sound (first : MessageCache) (ps : List Phase) (mc : MessageCache) : Type 0 where
  pub entries : (k t : ℕ) → load k mc ≡ some t → Because first ps k t
  pub silent :
      (q : Query)
      → Memᴰ (answered q false) ps
      → (t : ℕ) × (q.now < t) × Because first ps (key_of q) t

Because-stay :
    {first : MessageCache} {ps qs : List Phase} {k t : ℕ}
    → ((q : Query) (b : Bool) → Memᴰ (answered q b) ps → Memᴰ (answered q b) qs)
    → Because first ps k t
    → Because first qs k t
Because-stay stay (initial e) = initial e
Because-stay stay (by_call w m e f) = by_call w (stay w true m) e f

fresh_entry : (now : ℕ) (o : Option ℕ) → is_fresh now o ≡ true → (t : ℕ) × (now < t) × (o ≡ some t)
unfolding is_fresh
fresh_entry now none h = cc
fresh_entry now (some t) h = (t, ground arith, refl)

answered_lem :
    (q : Query) (b : Bool) (mc : MessageCache) → (advance (answered q b) mc).0 ≡ answered q b
unfolding advance
answered_lem q b mc = refl

module _ (first : MessageCache) (ps : List Phase) (mc : MessageCache)
    (before : Sound first ps mc) where
  entries_after :
      (old : Phase) (qs : List Phase)
      → ((q : Query) (b : Bool) → Memᴰ (answered q b) ps → Memᴰ (answered q b) qs)
      → Memᴰ (advance old mc).0 qs
      → (k t : ℕ) → load k (advance old mc).1 ≡ some t
      → Because first qs k t
  unfolding advance
  entries_after (asking q) qs stay new k t e = Because-stay stay (before.entries k t e)
  entries_after (answered q b) qs stay new k t e = Because-stay stay (before.entries k t e)
  entries_after (storing q) qs stay new k t e = elim (Bool-cases (eqb (key_of q) k)) [
    | inl same ↦
        by_call q new (ground arith)
          (let h = rw (load-store (key_of q) k (expiry_of q) mc, same) at e in cc)
    | inr other ↦
        Because-stay stay
          (before.entries k t (rw (load-store (key_of q) k (expiry_of q) mc, other) at e))
  ]

  -- a step that makes a call return false
  silent_now :
      (old : Phase) (q : Query)
      → Memᴰ old ps
      → answered q false ≡ (advance old mc).0
      → (t : ℕ) × (q.now < t) × Because first ps (key_of q) t
  unfolding advance
  silent_now (storing w) q was e = cc
  silent_now (answered w b) q was e = before.silent q (List.Memᴰ.cast e was)
  silent_now (asking w) q was e = elim (Bool-cases (is_fresh w.now (load (key_of w) mc))) [
    | inl fresh ↦
        let (t, later, found) = fresh_entry w.now (load (key_of w) mc) fresh in
        let same : answered q false ≡ answered w false = rw fresh at e in
        let q_w : w ≡ q = cc in
        subst (λ (x : Query). (t : ℕ) × (x.now < t) × Because first ps (key_of x) t) q_w
          (t, later, before.entries (key_of w) t found)
    | inr stale ↦ (let other : answered q false ≡ storing w = rw stale at e in cc)
  ]

  silent_after :
      (old : Phase) (qs : List Phase)
      → ((q : Query) (b : Bool) → Memᴰ (answered q b) ps → Memᴰ (answered q b) qs)
      → Memᴰ old ps
      → (q : Query) → Memᴰ (answered q false) ps ⊎ (answered q false ≡ (advance old mc).0)
      → (t : ℕ) × (q.now < t) × Because first qs (key_of q) t
  silent_after old qs stay was q (inl m) =
      let (t, later, b) = before.silent q m in (t, later, Because-stay stay b)
  silent_after old qs stay was q (inr e) =
      let (t, later, b) = silent_now old q was e in (t, later, Because-stay stay b)

  Change-Sound :
      (qs : List Phase) (md : MessageCache) → Change advance ps mc qs md → Sound first qs md
  Change-Sound qs md c =
      let stay = λ (q : Query) (b : Bool) (m : Memᴰ (answered q b) ps).
        c.stay (answered q b) (answered_lem q b) m in
      record {
        entries = λ k t e. entries_after c.old qs stay c.new k t (rw (← c.state) e);
        silent = λ q m. silent_after c.old qs stay c.was q (c.from (answered q false) m);
      }

no_answer : (qs : List Query) (x : Phase) → Memᴰ x (all_asking qs) → (q : Query) × (x ≡ asking q)
unfolding all_asking
no_answer [] x m = absurd (List.Memᴰ.not-nil m)
no_answer (q ∷ qs) x (Memᴰ.head e) = (q, e)
no_answer (q ∷ qs) x (Memᴰ.tail m) = no_answer qs x m

start-Sound : (first : MessageCache) (qs : List Query) → Sound first (all_asking qs) first
start-Sound first qs = record {
  entries = λ k t e. initial e;
  silent = λ q m. (let (w, e) = no_answer qs (answered q false) m in cc);
}

Steps-Sound :
    (qs : List Query) {first : MessageCache} {ps : List Phase} {mc : MessageCache}
    → Steps advance (all_asking qs) first ps mc
    → Sound first ps mc
Steps-Sound qs {first} steps =
    Steps-invariant advance (Sound first)
      (λ ps rs mc md before change. Change-Sound first ps mc before rs md change) (all_asking qs)
      first (start-Sound first qs) steps

logger :
    {first : MessageCache} {ps : List Phase} {t : ℕ} (q : Query)
    → is_fresh q.now (load (key_of q) first) ≡ false
    → q.now < t
    → Because first ps (key_of q) t
    → (w : Query) × Memᴰ (answered w true) ps × (key_of w ≡ key_of q)
unfolding is_fresh
logger q stale later (initial e) = absurd (let h = rw e at stale in ground arith)
logger q stale later (by_call w m e f) = (w, m, e)

-- However the steps of calls interleave, no message is lost: where a call has returned, and the cache
-- they began with had no unexpired entry under its message's hash, some call for that hash has
-- returned true.
pub no_message_lost :
    (qs : List Query) (q : Query) (logged : Bool) {first : MessageCache} {ps : List Phase}
    {mc : MessageCache}
    → Steps advance (all_asking qs) first ps mc
    → Memᴰ (answered q logged) ps
    → is_fresh q.now (load (key_of q) first) ≡ false
    → (w : Query) × Memᴰ (answered w true) ps × (key_of w ≡ key_of q)
no_message_lost qs q true steps m stale = (q, m, refl)
no_message_lost qs q false steps m stale =
    let (t, later, b) = (Steps-Sound qs steps).silent q m in logger q stale later b
