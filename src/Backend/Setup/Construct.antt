-- ===== src/Backend/Setup/Construct.antt =====
-- What `New` builds.
use mathlib.Core.Path.{subst}
use smartmontools_go.Base.{
  String, Bool, true, false, Option, none, some, List, [], ◌∷◌, if◌then◌else◌, ◌==◌, ◌≡◌, refl, ap,
  sym, ◌∙◌, ◌⊎◌, inl, inr, Bool-cases, GoMap, lookup, Unique, copy_into-lookup, newer,
}
use smartmontools_go.MessageCache.{MessageCache}
use smartmontools_go.Backend.State.{State, Err}
use smartmontools_go.Backend.Version.{ensure_compatible_smartctl}
use smartmontools_go.Backend.Setup.{
  Host, is_executable, resolve_smartctl_path, Opt, with_smartctl_path, with_commander,
  with_log_handler, apply_opt, apply_opts, clone_device_type_cache, Built, backend, refused,
  accept_version, version_call, check_commander, with_path, initial, new,
}

-- the first path of a list that is an executable file, or none
pub data First (host : Host) : List String → Option String → Type 0 where
  nothing : First host [] none
  here :
      (p : String) (ps : List String)
      → is_executable (host.stat p) ≡ true
      → First host (p ∷ ps) (some p)
  later :
      (p : String) (ps : List String) (r : Option String)
      → is_executable (host.stat p) ≡ false
      → First host ps r
      → First host (p ∷ ps) r

-- What the options leave as it is: the cached types, and that nothing has been logged or started.
record Fresh (m : GoMap String) (s : State) : Type 0 where
  cached : s.device_type_cache ≡ clone_device_type_cache m
  quiet : s.logs ≡ []
  idle : s.calls ≡ []

apply_opts-Fresh :
    (m : GoMap String) (opts : List Opt) (s : State) → Fresh m s → Fresh m (apply_opts opts s)
unfolding apply_opts apply_opt
apply_opts-Fresh m [] s h = h
apply_opts-Fresh m (with_smartctl_path path ∷ opts) s h =
    apply_opts-Fresh m opts (record s { smartctl_path = path })
      (record { cached = h.cached; quiet = h.quiet; idle = h.idle })
apply_opts-Fresh m (with_commander ∷ opts) s h =
    apply_opts-Fresh m opts (record s { default_commander = false })
      (record { cached = h.cached; quiet = h.quiet; idle = h.idle })
apply_opts-Fresh m (with_log_handler ∷ opts) s h = apply_opts-Fresh m opts s h

-- The commands of `New`: with the real smartctl its version was asked for, and accepted; with a
-- commander of the user's none.
abbrev pub IsChecked : Host → State → Type 0
IsChecked host s =
    ((s.default_commander ≡ true)
      × (s.calls ≡ version_call s.smartctl_path ∷ [])
      × (ensure_compatible_smartctl (host.version s.smartctl_path) ≡ none))
    ⊎ ((s.default_commander ≡ false) × (s.calls ≡ []))

-- the cached types are those of the database, and nothing has been logged
record Untouched (m : GoMap String) (s : State) : Type 0 where
  pub cached : s.device_type_cache ≡ clone_device_type_cache m
  pub quiet : s.logs ≡ []

abbrev Sound : Host → GoMap String → Built → Type 0
Sound host m (backend s) = Untouched m s × IsChecked host s
Sound host m (refused e) = Unit

accept_version-Sound :
    (host : Host) (m : GoMap String) (e : Option Err) (s : State)
    → Fresh m s
    → s.default_commander ≡ true
    → e ≡ ensure_compatible_smartctl (host.version s.smartctl_path)
    → Sound host m (accept_version e (record s { calls = version_call s.smartctl_path ∷ s.calls }))
unfolding accept_version
accept_version-Sound host m none s h d e = (
  record { cached = h.cached; quiet = h.quiet },
  inl (d, ap (λ cs. version_call s.smartctl_path ∷ cs) h.idle, sym e),
)
accept_version-Sound host m (some _) s h d e = tt

check_if :
    (host : Host) (m : GoMap String) (s : State) (b : Bool)
    → s.default_commander ≡ b
    → Fresh m s
    → Sound host m (
        if b
        then accept_version
            (ensure_compatible_smartctl (host.version s.smartctl_path))
            (record s { calls = version_call s.smartctl_path ∷ s.calls })
        else backend s)
check_if host m s true d h = accept_version-Sound host m _ s h d refl
check_if host m s false d h = (record { cached = h.cached; quiet = h.quiet }, inr (d, h.idle))

check_commander-Sound :
    (host : Host) (m : GoMap String) (s : State) → Fresh m s → Sound host m (check_commander host s)
check_commander-Sound host m s h =
    unfold check_commander in check_if host m s s.default_commander refl h

with_path-Sound :
    (host : Host) (m : GoMap String) (path : Option String) (s : State)
    → Fresh m s
    → Sound host m (with_path host path s)
with_path-Sound host m none s h = unfold with_path in tt
with_path-Sound host m (some path) s h =
    unfold with_path in
    check_commander-Sound host m (record s { smartctl_path = path })
      (record { cached = h.cached; quiet = h.quiet; idle = h.idle })

new-Sound :
    (host : Host) (m : GoMap String) (messages : MessageCache) (opts : List Opt)
    → Sound host m (new host m messages opts)
new-Sound host m messages opts =
    let s = apply_opts opts (initial m messages) in
    let h : Fresh m s =
      apply_opts-Fresh m opts (initial m messages)
        (unfold initial in record { cached = refl; quiet = refl; idle = refl }) in
    elim (Bool-cases (s.smartctl_path == "")) [
      | inl e ↦ unfold new in rw e (with_path-Sound host m (resolve_smartctl_path host) s h)
      | inr e ↦ unfold new in rw e (check_commander-Sound host m s h)
    ]

newer-none : (o : Option String) → newer o none ≡ o
newer-none none = refl
newer-none (some v) = refl

clone-lookup :
    (k : String) (m : GoMap String) → Unique m → lookup k (clone_device_type_cache m) ≡ lookup k m
clone-lookup k m u =
    unfold clone_device_type_cache in
    copy_into-lookup k [] m u ∙ unfold lookup in newer-none (lookup k m)

-- A backend that `New` returns has exactly the device types of the drive database and has logged nothing.
-- With the real smartctl the one command started so far asked for its version, which is supported; with
-- a commander given none was started. It holds for every list of options and for any database whose
-- keys are distinct.
pub new-Ready :
    (host : Host) (m : GoMap String) (messages : MessageCache) (opts : List Opt) (s : State)
    → Unique m
    → new host m messages opts ≡ backend s
    → ((k : String) → lookup k s.device_type_cache ≡ lookup k m)
      × (s.logs ≡ [])
      × (((s.default_commander ≡ true)
            × (s.calls ≡ version_call s.smartctl_path ∷ [])
            × (ensure_compatible_smartctl (host.version s.smartctl_path) ≡ none))
          ⊎ ((s.default_commander ≡ false) × (s.calls ≡ [])))
new-Ready host m messages opts s u h =
    let (fresh, checked) = subst (Sound host m) h (new-Sound host m messages opts) in
    (λ k. ap (lookup k) fresh.cached ∙ clone-lookup k m u, fresh.quiet, checked)
