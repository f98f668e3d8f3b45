-- ===== src/Witnesses/Logging.antt =====
-- The message cache and the health-bit log at concrete inputs.
use mathlib.Core.List.{Memᴰ}
use smartmontools_go.Base.{true, false, List, [], ◌∷◌, ◌≡◌, refl, length, lookup, arith}
use smartmontools_go.MessageCache.{
  MessageCache, hash_string, get_ttl, load, store, is_fresh, should_log,
}
use smartmontools_go.Interleave.{here, there, Steps, start, next}
use smartmontools_go.MessageCache.Dedup.{Query, logged_hashes, Avoids, logged_once_per_ttl}
use smartmontools_go.MessageCache.Concurrent.{
  Phase, asking, answered, key_of, expiry_of, advance, all_asking, alone,
}
use smartmontools_go.MessageCache.Concurrent.NoLoss.{no_message_lost}
use smartmontools_go.MessageCache.Concurrent.Race.{load_stale, store_entry, again, both_may_log}
use smartmontools_go.Backend.Logging.{log_health_bits}
use smartmontools_go.Backend.Logging.HealthBits.{log_health_bits_alternating}
use smartmontools_go.Witnesses.{flagged, known}

abbrev two_queries : List Query
two_queries =
    record { now = 8; msg = "x"; severity = "" }
    ∷ record { now = 9; msg = "y"; severity = "error" }
    ∷ []

logged_once_per_ttl_example :
    Avoids (hash_string "x") (logged_hashes two_queries (should_log 7 "x" "error" []).1)
unfolding load should_log get_ttl
logged_once_per_ttl_example =
    logged_once_per_ttl 7 "x" "error" [] two_queries refl (ground arith, (ground arith, tt))

log_health_bits_alternating_example :
    length
      (log_health_bits "/dev/sda"
        (flagged 0x40)
        (log_health_bits "/dev/sda" (flagged 8) known)).logs
    ≡ 2
log_health_bits_alternating_example =
    log_health_bits_alternating "/dev/sda" (flagged 8) (flagged 0x40) known (ground arith)
      (ground arith) (ground arith) (unfold lookup in refl)

-- the second call begins after the first has returned
abbrev a_query : Query
a_query = record { now = 7; msg = "x"; severity = "error" }

later_query : Query
later_query = record { now = 8; msg = "x"; severity = "warning" }

abbrev two_calls : List Phase
two_calls = answered a_query true ∷ answered later_query false ∷ []

two_calls-Steps :
    Steps advance
      (all_asking (a_query ∷ later_query ∷ []))
      []
      two_calls
      (store (key_of a_query) (expiry_of a_query) [])
unfolding all_asking advance load store is_fresh get_ttl later_query hash_string
two_calls-Steps =
    next
      (next (next start (load_stale a_query (asking later_query ∷ []) [] refl))
        (store_entry a_query (asking later_query ∷ []) []))
      (there here)

no_message_lost_example :
    (w : Query) × Memᴰ (answered w true) two_calls × (key_of w ≡ key_of later_query)
unfolding load is_fresh
no_message_lost_example =
    no_message_lost (a_query ∷ later_query ∷ []) later_query false two_calls-Steps
      (Memᴰ.tail (Memᴰ.head refl)) refl

both_may_log_example :
    ((mc : MessageCache) × Steps advance
        (all_asking (a_query ∷ again a_query 8 "warning" ∷ []))
        []
        (answered a_query true ∷ answered (again a_query 8 "warning") true ∷ [])
        mc)
    × ((alone (again a_query 8 "warning") (alone a_query []).1).0
        ≡ answered (again a_query 8 "warning") false)
unfolding load is_fresh get_ttl
both_may_log_example = both_may_log a_query 8 "warning" [] refl (omega arith) (ground arith)
