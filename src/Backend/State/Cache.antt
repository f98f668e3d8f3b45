-- ===== src/Backend/State/Cache.antt =====
-- The device-type cache, and the arguments that are built from it.
use smartmontools_go.Base.{
  String, Bool, true, false, Option, none, some, List, is_some, ◌≡◌, refl, arith, ◌==◌, eq_iff,
  eq_refl, lookup-insert, if◌then◌else◌,
}
use smartmontools_go.Helpers.{is_ata_device}
use smartmontools_go.Backend.State.{
  Env, State, Method, LogEntry, log, command, get_cached_device_type, set_cached_device_type,
  cache_if_absent,
}

-- No cached type is changed or removed on the way from `s` to `t`.
pub record Keeps (s t : State) : Type 0 where
  pub at :
      (path device_type : String)
      → get_cached_device_type path s ≡ some device_type
      → get_cached_device_type path t ≡ some device_type

pub Keeps-refl : (s : State) → Keeps s s
Keeps-refl s = record { at = λ path device_type h. h }

pub Keeps-trans : {s t u : State} → Keeps s t → Keeps t u → Keeps s u
Keeps-trans h k = record {
  at = λ path device_type e. k.at path device_type (h.at path device_type e);
}

pub Keeps-of_eq : {s t : State} → t.device_type_cache ≡ s.device_type_cache → Keeps s t
Keeps-of_eq e = record { at = λ path device_type h. rw e h }

pub log-Keeps : (e : LogEntry) (s : State) → Keeps s (log e s)
unfolding log
log-Keeps e s = Keeps-of_eq refl

pub command-Keeps :
    (env : Env) (method : Method) (args : List String) (s : State)
    → Keeps s (command env method args s).1
unfolding command
command-Keeps env method args s = Keeps-of_eq refl

pub lookup-set_cached_device_type :
    (path device_type key : String) (s : State)
    → get_cached_device_type key (set_cached_device_type path device_type s)
      ≡ (if path == key then some device_type else get_cached_device_type key s)
unfolding set_cached_device_type
lookup-set_cached_device_type path device_type key s =
    lookup-insert path key device_type s.device_type_cache

pub set_cached_device_type-Keeps :
    (path device_type : String) (s : State)
    → get_cached_device_type path s ≡ none
    → Keeps s (set_cached_device_type path device_type s)
set_cached_device_type-Keeps path device_type s absent = record {
  at = λ key other h.
      ground (arith, lookup-set_cached_device_type path device_type key s, eq_iff path key);
}

pub cache_if_absent-Keeps :
    (path device_type : String) (s : State) → Keeps s (cache_if_absent path device_type s)
unfolding cache_if_absent
cache_if_absent-Keeps path device_type s = record {
  at = λ key other h.
      ground (arith, lookup-set_cached_device_type path device_type key s, eq_iff path key);
}

-- After `cache_if_absent` with a type, the path has one.
pub cache_if_absent-cached :
    (path device_type : String) (s : State)
    → (device_type == "") ≡ false
    → is_some (get_cached_device_type path (cache_if_absent path device_type s)) ≡ true
unfolding cache_if_absent
cache_if_absent-cached path device_type s h =
    ground (arith, lookup-set_cached_device_type path device_type path s, eq_refl path)

-- whether the arguments for a cached type ask to leave a sleeping disk alone
abbrev pub guards_standby : Option String → Bool
guards_standby none = true
guards_standby (some device_type) = is_ata_device device_type

abbrev nocheck : String
nocheck = "--nocheck=standby"
