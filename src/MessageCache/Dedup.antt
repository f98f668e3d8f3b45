-- ===== src/MessageCache/Dedup.antt =====
-- A message is let through once per time to live, and no message disturbs one with another hash.
use smartmontools_go.Base.{
  ℕ, ◌+◌, ◌≤◌, ◌<◌, String, true, false, some, List, [], ◌∷◌, if◌then◌else◌, eqb, ltb, ◌≡◌, ◌≢◌,
  ◌↔◌, refl, ap, arith,
}
use smartmontools_go.MessageCache.{
  MessageCache, hash_string, get_ttl, load, store, is_fresh, should_log,
}

pub load-store :
    (k j t : ℕ) (m : MessageCache) → load j (store k t m) ≡ (if eqb k j then some t else load j m)
unfolding load store
load-store k j t [] = refl
load-store k j t ((i, u) ∷ m) = ground (arith, load-store k j t m)

-- Every severity has a time to live of at least five minutes and at most two hours.
get_ttl_bounds :
    (severity : String) → (300000000000 ≤ get_ttl severity) × (get_ttl severity ≤ 7200000000000)
unfolding get_ttl
get_ttl_bounds severity = ground arith

-- A message is logged exactly when no entry under its hash is unexpired.
pub should_log_iff :
    (now : ℕ) (msg severity : String) (mc : MessageCache)
    → ((should_log now msg severity mc).0 ≡ true)
      ↔ (is_fresh now (load (hash_string msg) mc) ≡ false)
unfolding should_log
should_log_iff now msg severity mc = ground arith

module _ (now : ℕ) (msg severity : String) (mc : MessageCache) where
  -- A call changes no entry under another hash.
  pub should_log-frame :
      (k : ℕ) → k ≢ hash_string msg → load k (should_log now msg severity mc).1 ≡ load k mc
  unfolding should_log
  should_log-frame k h = ground (arith, load-store (hash_string msg) k (now + get_ttl severity) mc)

  -- Once a message has been let through at `now`, the next call for it, under any severity, lets it
  -- through exactly if its time to live has passed.
  pub should_log_again :
      (later : ℕ) (severity' : String)
      → (should_log now msg severity mc).0 ≡ true
      → (should_log later msg severity' (should_log now msg severity mc).1).0
        ≡ (if ltb later (now + get_ttl severity) then false else true)
  unfolding should_log is_fresh
  should_log_again later severity' h =
      ground (arith, load-store (hash_string msg) (hash_string msg) (now + get_ttl severity) mc)

  should_log-load :
      (should_log now msg severity mc).0 ≡ true
      → load (hash_string msg) (should_log now msg severity mc).1 ≡ some (now + get_ttl severity)
  unfolding should_log
  should_log-load h =
      ground (arith, load-store (hash_string msg) (hash_string msg) (now + get_ttl severity) mc)

-- A call of `shouldLog`: the time that it reads, the message and the severity.
pub record Query : Type 0 where
  pub now : ℕ
  pub msg : String
  pub severity : String

-- The calls of a list that let their message through, by the hashes of the messages.
unfoldable pub logged_hashes : List Query → MessageCache → List ℕ
logged_hashes [] mc = []
logged_hashes (q ∷ qs) mc =
    let (logged, mc') = should_log q.now q.msg q.severity mc in
    let rest = logged_hashes qs mc' in if logged then hash_string q.msg ∷ rest else rest

-- `k` is not in the list
abbrev pub Avoids : ℕ → List ℕ → Type 0
Avoids k [] = Unit
Avoids k (j ∷ js) = (j ≢ k) × Avoids k js

-- every call reads a time before `t`
abbrev pub AllBefore : ℕ → List Query → Type 0
AllBefore t [] = Unit
AllBefore t (q ∷ qs) = (q.now < t) × AllBefore t qs

-- one call before the expiry of `k`'s entry: `k` is not logged, and its entry stays
step_before :
    (k t : ℕ) (q : Query) (mc : MessageCache)
    → load k mc ≡ some t
    → q.now < t
    → ((should_log q.now q.msg q.severity mc).0 ≡ true → hash_string q.msg ≢ k)
      × (load k (should_log q.now q.msg q.severity mc).1 ≡ some t)
unfolding should_log is_fresh
step_before k t q mc e h = (
  λ l p. ground (arith, ap (λ (x : ℕ). load x mc) p),
  ground (arith, load-store (hash_string q.msg) k (q.now + get_ttl q.severity) mc),
)

fresh_Avoids :
    (k t : ℕ) (qs : List Query) (mc : MessageCache)
    → load k mc ≡ some t
    → AllBefore t qs
    → Avoids k (logged_hashes qs mc)
unfolding logged_hashes
fresh_Avoids k t [] mc e h = tt
fresh_Avoids k t (q ∷ qs) mc e h =
    let s = step_before k t q mc e h.0 in
    let ih = fresh_Avoids k t qs (should_log q.now q.msg q.severity mc).1 s.1 h.1 in ground arith

-- After a message was let through, no sequence of calls at times before its expiry, for any messages
-- and severities, lets a message with its hash through again.
pub logged_once_per_ttl :
    (now : ℕ) (msg severity : String) (mc : MessageCache) (qs : List Query)
    → (should_log now msg severity mc).0 ≡ true
    → AllBefore (now + get_ttl severity) qs
    → Avoids (hash_string msg) (logged_hashes qs (should_log now msg severity mc).1)
logged_once_per_ttl now msg severity mc qs h before =
    fresh_Avoids (hash_string msg) (now + get_ttl severity) qs (should_log now msg severity mc).1
      (should_log-load now msg severity mc h) before
