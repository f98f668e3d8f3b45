-- ===== src/MessageCache/Concurrent/Race.antt =====
-- Two goroutines that ask about one message at once.
use smartmontools_go.Base.{
  ℕ, ◌≤◌, ◌<◌, String, true, false, List, [], ◌∷◌, if◌then◌else◌, ◌≡◌, refl, arith, Option, some,
  none,
}
use smartmontools_go.MessageCache.{MessageCache, load, store, is_fresh, should_log}
use smartmontools_go.Interleave.{Step, here, there, Steps, start, next}
use smartmontools_go.MessageCache.Dedup.{Query, should_log_again, should_log_iff}
use smartmontools_go.MessageCache.Concurrent.{
  Phase, asking, storing, answered, key_of, expiry_of, advance, all_asking, alone,
}
use smartmontools_go.MessageCache.Concurrent.NoLoss.{alone_lem}

-- a call that finds no fresh entry is about to store one
pub load_stale :
    (q : Query) (ps : List Phase) (mc : MessageCache)
    → is_fresh q.now (load (key_of q) mc) ≡ false
    → Step advance (asking q ∷ ps) mc (storing q ∷ ps) mc
unfolding advance
load_stale q ps mc stale =
    let h : Step advance (asking q ∷ ps) mc
        ((if is_fresh q.now (load (key_of q) mc) then answered q false else storing q) ∷ ps) mc =
      here in
    rw stale at h

pub store_entry :
    (q : Query) (ps : List Phase) (mc : MessageCache)
    → Step advance (storing q ∷ ps) mc (answered q true ∷ ps) (store (key_of q) (expiry_of q) mc)
unfolding advance
store_entry q ps mc = here

stale_later :
    (now later : ℕ) (o : Option ℕ) → now ≤ later → is_fresh now o ≡ false → is_fresh later o ≡ false
unfolding is_fresh
stale_later now later none le h = refl
stale_later now later (some t) le h = ground arith

-- a second call for the message of `q`
abbrev pub again : Query → ℕ → String → Query
again q later severity = record { now = later; msg = q.msg; severity = severity }

-- For a message without an unexpired entry, two calls within its time to live may both return true, in
-- a run in which each loads before the other stores; taken one after the other, the second returns
-- false.
pub both_may_log :
    (q : Query) (later : ℕ) (severity : String) (first : MessageCache)
    → is_fresh q.now (load (key_of q) first) ≡ false
    → q.now ≤ later
    → later < expiry_of q
    → let w = again q later severity in
      ((mc : MessageCache) × Steps advance
          (all_asking (q ∷ w ∷ []))
          first
          (answered q true ∷ answered w true ∷ [])
          mc)
      × ((alone w (alone q first).1).0 ≡ answered w false)
both_may_log q later severity first stale le lt =
    let w = again q later severity in
    let stale' = stale_later q.now later (load (key_of q) first) le stale in
    let alone_logs = (should_log_iff q.now q.msg q.severity first).1 stale in
    (
      (
        store (key_of w) (expiry_of w) (store (key_of q) (expiry_of q) first),
        unfold all_asking in
            next
              (next
                (next (next start (load_stale q (asking w ∷ []) first stale))
                  (there (load_stale w [] first stale')))
                (store_entry q (storing w ∷ []) first))
              (there (store_entry w [] (store (key_of q) (expiry_of q) first))),
      ),
      rw (alone_lem q first, alone_lem w (should_log q.now q.msg q.severity first).1)
          (rw (should_log_again q.now q.msg q.severity first later severity alone_logs)
            (ground arith)),
    )
