-- ===== src/Backend/Devices/Scan.antt =====
-- What a scan returns, and what it caches.
use smartmontools_go.Base.{
  ◌||◌, String, true, false, Option, none, some, List, [], ◌∷◌, ◌≡◌, refl, arith, ◌==◌, is_some,
  ◌∙◌, Bool-cases, inl, inr, Option-cases, if◌then◌else◌,
}
use smartmontools_go.Types.{Device}
use smartmontools_go.Backend.State.{
  Env, State, Err, output, log, command, get_cached_device_type, cache_if_absent,
  set_cached_device_type,
}
use smartmontools_go.Backend.State.Cache.{
  Keeps, Keeps-refl, Keeps-trans, log-Keeps, command-Keeps, cache_if_absent-Keeps,
  cache_if_absent-cached,
}
use smartmontools_go.Backend.Devices.{
  Result, ok, cache_devices, scan_parse, scan_second, scan_fallback, scan_open_failed, scan_first,
  scan_devices,
}

cache_device-Keeps :
    (d : Device) (s : State) → Keeps s (if d.name == "" then s else cache_if_absent d.name d.type s)
cache_device-Keeps d s = elim (Bool-cases (d.name == "")) [
  | inl e ↦ rw e (Keeps-refl s)
  | inr e ↦ rw e (cache_if_absent-Keeps d.name d.type s)
]

pub cache_devices-Keeps : (ds : List Device) (s : State) → Keeps s (cache_devices ds s)
unfolding cache_devices
cache_devices-Keeps [] s = Keeps-refl s
cache_devices-Keeps (d ∷ ds) s = Keeps-trans (cache_device-Keeps d s) (cache_devices-Keeps ds _)

-- every device of the list with a name and a type has a cached type
abbrev pub AllCached : List Device → State → Type 0
AllCached [] s = Unit
AllCached (d ∷ ds) s =
    (((d.name == "") || (d.type == "") || is_some (get_cached_device_type d.name s)) ≡ true)
    × AllCached ds s

Keeps-is_some :
    {s t : State} (path : String)
    → Keeps s t
    → is_some (get_cached_device_type path s) ≡ true
    → is_some (get_cached_device_type path t) ≡ true
Keeps-is_some {s} path k h = elim (Option-cases (get_cached_device_type path s)) [
  | inl absent ↦ (let q : false ≡ true = rw absent at h in cc)
  | inr (d, e) ↦ rw (k.at path d e)
]

cache_device-cached :
    (d : Device) (s t : State)
    → Keeps (if d.name == "" then s else cache_if_absent d.name d.type s) t
    → ((d.name == "") || (d.type == "") || is_some (get_cached_device_type d.name t)) ≡ true
cache_device-cached d s t k = elim (Bool-cases (d.name == "")) [
  | inl unnamed ↦ rw unnamed refl
  | inr named ↦ (elim (Bool-cases (d.type == "")) [
    | inl untyped ↦ rw (named, untyped) refl
    | inr typed ↦
        rw (named, typed)
          (Keeps-is_some d.name (rw named at k) (cache_if_absent-cached d.name d.type s typed))
  ])
]

cache_devices-AllCached : (ds : List Device) (s : State) → AllCached ds (cache_devices ds s)
unfolding cache_devices
cache_devices-AllCached [] s = tt
cache_devices-AllCached (d ∷ ds) s =
    (cache_device-cached d s _ (cache_devices-Keeps ds _), cache_devices-AllCached ds _)

cache_device-calls :
    (d : Device) (s : State)
    → (if d.name == "" then s else cache_if_absent d.name d.type s).calls ≡ s.calls
unfolding cache_if_absent set_cached_device_type
cache_device-calls d s = ground arith

pub cache_devices-calls : (ds : List Device) (s : State) → (cache_devices ds s).calls ≡ s.calls
unfolding cache_devices cache_if_absent set_cached_device_type
cache_devices-calls [] s = refl
cache_devices-calls (d ∷ ds) s = cache_devices-calls ds _ ∙ cache_device-calls d s

-- what a scan guarantees of its result and the state behind it
pub record Scanned (s : State) (r : Result (List Device)) (t : State) : Type 0 where
  pub keeps : Keeps s t
  pub cached : (ds : List Device) → r ≡ ok ds → AllCached ds t

module _ (env : Env) where
  scan_parse-Scanned :
      (o : Option (List Device)) (s : State)
      → Scanned s (scan_parse env o s).0 (scan_parse env o s).1
  unfolding scan_parse
  scan_parse-Scanned none s = record { keeps = Keeps-refl s; cached = λ ds e. cc }
  scan_parse-Scanned (some ds) s = record {
    keeps = cache_devices-Keeps ds s;
    cached = λ ds' e. (let same : ds ≡ ds' = cc in rw (← same) (cache_devices-AllCached ds s));
  }

  scan_second-Scanned :
      (e : Option Err) (out : String) (s : State)
      → Scanned s (scan_second env e out s).0 (scan_second env e out s).1
  unfolding scan_second
  scan_second-Scanned none out s = scan_parse-Scanned (env.unmarshal_scan out) s
  scan_second-Scanned (some e) out s = record { keeps = Keeps-refl s; cached = λ ds p. cc }

  Scanned-from :
      {s t u : State} {r : Result (List Device)} → Keeps s t → Scanned t r u → Scanned s r u
  Scanned-from k h = record { keeps = Keeps-trans k h.keeps; cached = h.cached }

  scan_fallback-Scanned : (s : State) → Scanned s (scan_fallback env s).0 (scan_fallback env s).1
  scan_fallback-Scanned s =
      let (reply, s') = command env output ("--scan" ∷ "--json" ∷ []) s in
      unfold scan_fallback in
      Scanned-from (command-Keeps env output ("--scan" ∷ "--json" ∷ []) s)
        (scan_second-Scanned reply.err reply.out s')

  scan_first-Scanned :
      (e : Option Err) (out : String) (s : State)
      → Scanned s (scan_first env e out s).0 (scan_first env e out s).1
  scan_first-Scanned none out s = unfold scan_first in scan_parse-Scanned (env.unmarshal_scan out) s
  scan_first-Scanned (some e) out s =
      unfold scan_first in
      Scanned-from (log-Keeps (scan_open_failed e) s)
        (scan_fallback-Scanned (log (scan_open_failed e) s))

  -- After a scan that succeeds every device found has a cached type, but for one without a name or a
  -- type.
  pub scan_devices-caches :
      (s : State) (ds : List Device)
      → (scan_devices env s).0 ≡ ok ds
      → AllCached ds (scan_devices env s).1
  scan_devices-caches s =
      let (reply, s') = command env output ("--scan-open" ∷ "--json" ∷ []) s in
      let h : Scanned s (scan_devices env s).0 (scan_devices env s).1 =
        unfold scan_devices in
        Scanned-from (command-Keeps env output ("--scan-open" ∷ "--json" ∷ []) s)
          (scan_first-Scanned reply.err reply.out s') in
      h.cached

  -- A scan whose first command prints a list that can be decoded returns it.
  pub scan_devices-read :
      (ds : List Device) (s : State)
      → let (reply, _) = command env output ("--scan-open" ∷ "--json" ∷ []) s in
        reply.err ≡ none → env.unmarshal_scan reply.out ≡ some ds → (scan_devices env s).0 ≡ ok ds
  scan_devices-read ds s done read =
      unfold scan_devices scan_first scan_parse in rw (done, read) refl
