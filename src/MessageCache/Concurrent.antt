-- ===== src/MessageCache/Concurrent.antt =====
-- `shouldLog` as several goroutines run it at once: the load of the entry and the store of a new one are
-- two steps, between which other goroutines may take theirs, since `sync.Map` makes only each of the
-- two atomic.
pub mod NoLoss
pub mod Race
use mathlib.Core.List.{Memᴰ}
use smartmontools_go.Base.{ℕ, ◌+◌, Bool, true, false, List, [], ◌∷◌, if◌then◌else◌, ◌≡◌, refl, ap}
use smartmontools_go.MessageCache.{
  MessageCache, hash_string, get_ttl, load, store, is_fresh, should_log,
}
use smartmontools_go.MessageCache.Dedup.{Query}

-- one call: not begun, behind a load that found no fresh entry, or returned
pub data Phase : Type 0 where
  asking storing : Query → Phase
  answered : Query → Bool → Phase

abbrev pub key_of : Query → ℕ
key_of q = hash_string q.msg

abbrev pub expiry_of : Query → ℕ
expiry_of q = q.now + get_ttl q.severity

-- the next step of one call
unfoldable pub advance : Phase → MessageCache → Phase × MessageCache
advance (asking q) mc =
    (if is_fresh q.now (load (key_of q) mc) then answered q false else storing q, mc)
advance (storing q) mc = (answered q true, store (key_of q) (expiry_of q) mc)
advance (answered q b) mc = (answered q b, mc)

unfoldable pub all_asking : List Query → List Phase
all_asking [] = []
all_asking (q ∷ qs) = asking q ∷ all_asking qs

-- both steps of a call with no other between them
unfoldable pub alone : Query → MessageCache → Phase × MessageCache
alone q mc = let (p, md) = advance (asking q) mc in advance p md
