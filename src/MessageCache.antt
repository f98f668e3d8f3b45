-- ===== src/MessageCache.antt =====
-- cache.go and backends/exec/cache.go, the same file in two packages: the cache that keeps a smartctl
-- message from being logged on every poll. `time.Now()` is an argument, a number of nanoseconds.
pub mod Dedup
pub mod Concurrent
use Prim.Native.Nat.{bit_xor}
use Prim.Native.Char.{code}
use Prim.Native.String.{[], ◌∷◌}
use smartmontools_go.Base.{
  ℕ, ◌+◌, ◌*◌, ◌/◌, ◌%◌, ◌^◌, String, Bool, true, false, Option, none, some, List, [], ◌∷◌, ◌++◌,
  if◌then◌else◌, ltb, eqb, ◌==◌, ◌≡◌, refl,
}

abbrev pub second : ℕ
second = 1_000_000_000

abbrev pub msg_cache_ttl_information : ℕ
msg_cache_ttl_information = 3600 * second

abbrev pub msg_cache_ttl_warning : ℕ
msg_cache_ttl_warning = 30 * 60 * second

abbrev pub msg_cache_ttl_error : ℕ
msg_cache_ttl_error = 5 * 60 * second

abbrev pub msg_cache_ttl_default : ℕ
msg_cache_ttl_default = 2 * 3600 * second

-- the bytes of a code point in UTF-8
utf8 : ℕ → List ℕ
utf8 c =
    if ltb c 0x80
    then c ∷ []
    else if ltb c 0x800
    then (0xC0 + c / 64) ∷ (0x80 + c % 64) ∷ []
    else if ltb c 0x10000
    then (0xE0 + c / 4096) ∷ (0x80 + c / 64 % 64) ∷ (0x80 + c % 64) ∷ []
    else (0xF0 + c / 262144) ∷ (0x80 + c / 4096 % 64) ∷ (0x80 + c / 64 % 64) ∷ (0x80 + c % 64) ∷ []

-- []byte(s)
bytes : String → List ℕ
unfolding utf8
bytes String.[] = []
bytes (String.◌∷◌ c s) = utf8 (code c) ++ bytes s

-- FNV-1a, 64 bits: xor the byte, then multiply by the prime
fnv_bytes : ℕ → List ℕ → ℕ
fnv_bytes h [] = h
fnv_bytes h (b ∷ bs) = fnv_bytes (bit_xor h b * 1099511628211 % 2 ^ 64) bs

unfoldable pub hash_string : String → ℕ
unfolding fnv_bytes bytes
hash_string s = fnv_bytes 14695981039346656037 (bytes s)

unfoldable pub get_ttl : String → ℕ
get_ttl severity =
    if severity == "information"
    then msg_cache_ttl_information
    else if severity == "warning"
    then msg_cache_ttl_warning
    else if severity == "error"
    then msg_cache_ttl_error
    else msg_cache_ttl_default

-- `sync.Map` from hashes to `messageCacheEntry`; the number is `expiresAt`
abbrev pub MessageCache : Type 0
MessageCache = List (ℕ × ℕ)

-- mc.entries.Load
unfoldable pub load : ℕ → MessageCache → Option ℕ
load k [] = none
load k ((j, t) ∷ m) = if eqb j k then some t else load k m

-- mc.entries.Store
unfoldable pub store : ℕ → ℕ → MessageCache → MessageCache
store k t [] = (k, t) ∷ []
store k t ((j, u) ∷ m) = if eqb j k then (k, t) ∷ m else (j, u) ∷ store k t m

-- an entry exists and is not expired
unfoldable pub is_fresh : ℕ → Option ℕ → Bool
is_fresh now none = false
is_fresh now (some expires_at) = ltb now expires_at

unfoldable pub should_log : ℕ → String → String → MessageCache → Bool × MessageCache
unfolding is_fresh
should_log now msg severity mc =
    let key = hash_string msg in
    if is_fresh now (load key mc)
    then (false, mc)
    else (true, store key (now + get_ttl severity) mc)

-- FNV-1a of "a", from the published test vectors
hash_string_test : hash_string "a" ≡ 0xaf63dc4c8601ec8c
unfolding hash_string
hash_string_test = refl
