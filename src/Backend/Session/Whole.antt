-- ===== src/Backend/Session/Whole.antt =====
-- What a whole session leaves of the cached device types, how many commands it starts, and what a hint
-- given in it does.
use smartmontools_go.Base.{
  ◌+◌, ◌≤◌, String, Bool, true, false, ◌||◌, some, List, [], ◌∷◌, ◌≡◌, ◌⊎◌, inl, inr, refl, arith,
  length, eq_refl, ◌++◌, if◌then◌else◌,
}
use smartmontools_go.Helpers.{is_ata_device}
use smartmontools_go.Backend.State.{
  Env, State, output, get_cached_device_type, args_for, build_args,
}
use smartmontools_go.Backend.State.Cache.{lookup-set_cached_device_type}
use smartmontools_go.Backend.Commands.Effects.{check_health-calls}
use smartmontools_go.Backend.Session.{
  Op, set_hint, health, tagged, perform, session, hints, discovers, any_op, set_device_type_hint,
  device_type_hint,
}
use smartmontools_go.Backend.Session.Effects.{total_cost, Kept, perform-Effect}

or_false : (a b : Bool) → (a || b) ≡ false → (a ≡ false) × (b ≡ false)
or_false a b h = ground arith

or_right : (a : Bool) {b : Bool} → b ≡ true → (a || b) ≡ true
or_right a h = ground arith

or_left : {a : Bool} (b : Bool) → a ≡ true → (a || b) ≡ true
or_left b h = ground arith

module _ (env : Env) (path : String) where
  -- the type after the rest of the session, from the type after its first operation
  rest_types :
      (device_type : String) (op : Op) (ops : List Op) (u t : State)
      → Kept op path device_type u
      → ((other : String)
          → get_cached_device_type path u ≡ some other
          → (get_cached_device_type path t ≡ some other)
            ⊎ ((any_op discovers ops ≡ true) × (get_cached_device_type path t ≡ some "sat")))
      → (get_cached_device_type path t ≡ some device_type)
        ⊎ (((discovers op || any_op discovers ops) ≡ true)
            × (get_cached_device_type path t ≡ some "sat"))
  rest_types device_type op ops u t (inl same) next = elim (next device_type same) [
    | inl e ↦ inl e
    | inr (d, e) ↦ inr (or_right (discovers op) d, e)
  ]
  rest_types device_type op ops u t (inr (d, sat)) next = elim (next "sat" sat) [
    | inl e ↦ inr (or_left (any_op discovers ops) d, e)
    | inr (_, e) ↦ inr (or_left (any_op discovers ops) d, e)
  ]

  -- In a session that gives no hint for a path, the type cached for the path stays; only a discovery
  -- can change it, and only to "sat".
  pub session_types :
      (ops : List Op) (s : State) (device_type : String)
      → any_op (hints path) ops ≡ false
      → get_cached_device_type path s ≡ some device_type
      → let t = (session env ops s).1 in
        (get_cached_device_type path t ≡ some device_type)
        ⊎ ((any_op discovers ops ≡ true) × (get_cached_device_type path t ≡ some "sat"))
  unfolding session any_op
  session_types [] s device_type h c = inl c
  session_types (op ∷ ops) s device_type h c =
      let (first, later) = or_false (hints path op) (any_op (hints path) ops) h in
      let u = (perform env op s).1 in
      rest_types device_type op ops u (session env ops u).1
        ((perform-Effect env op s).kept path device_type first c)
        (λ other e. session_types ops u other later e)

module _ (env : Env) where
  -- A session starts at most so many commands as its operations allow for, each by what it returned: a
  -- query three, a discovery two and four for each result, disabling SMART four, starting a self-test
  -- and a scan two, every other command one.
  pub session_commands :
      (ops : List Op) (s : State)
      → let (outcomes, t) = session env ops s in
        length t.calls ≤ total_cost outcomes + length s.calls
  unfolding session
  session_commands [] s = omega arith
  session_commands (op ∷ ops) s =
      let (outcome, u) = perform env op s in
      omega (arith, (perform-Effect env op s).calls, session_commands ops u)

  kept_hint :
      (path device_type : String) (ops : List Op) (t : State)
      → any_op discovers ops ≡ false
      → (get_cached_device_type path t ≡ some device_type)
        ⊎ ((any_op discovers ops ≡ true) × (get_cached_device_type path t ≡ some "sat"))
      → get_cached_device_type path t ≡ some device_type
  kept_hint path device_type ops t h (inl e) = e
  kept_hint path device_type ops t h (inr (d, e)) = cc

  health_started :
      (path device_type : String) (t : State)
      → get_cached_device_type path t ≡ some device_type
      → (perform env (health path) t).1.calls
        ≡ record {
          method = output;
          name = t.smartctl_path;
          args =
              "-H"
              ∷ ((if is_ata_device device_type then "--nocheck=standby" ∷ [] else [])
                  ++ "-d" ∷ device_type ∷ path ∷ []);
        }
          ∷ t.calls
  unfolding build_args args_for
  health_started path device_type t e =
      unfold perform tagged in rw (check_health-calls env path t, e) refl

  -- A hint given for a path is read back after any session without another hint for it and without a
  -- discovery, and a health check of the path then starts one command, `smartctl -H [--nocheck=standby]
  -- -d <type> <path>`, with the flag if the hinted type is an ATA one.
  pub session_hint :
      (path device_type : String) (ops : List Op) (s : State)
      → any_op (hints path) ops ≡ false
      → any_op discovers ops ≡ false
      → let t = (session env (set_hint path device_type ∷ ops) s).1 in
        (device_type_hint path t ≡ some device_type)
        × ((perform env (health path) t).1.calls
            ≡ record {
              method = output;
              name = t.smartctl_path;
              args =
                  "-H"
                  ∷ ((if is_ata_device device_type then "--nocheck=standby" ∷ [] else [])
                      ++ "-d" ∷ device_type ∷ path ∷ []);
            }
              ∷ t.calls)
  session_hint path device_type ops s h d =
      let u = set_device_type_hint path device_type s in
      let t = (session env ops u).1 in
      let given : get_cached_device_type path u ≡ some device_type =
        unfold set_device_type_hint in
        rw (lookup-set_cached_device_type path device_type path s, eq_refl path) refl in
      let kept =
        kept_hint path device_type ops t d (session_types env path ops u device_type h given) in
      unfold session perform device_type_hint in (kept, health_started path device_type t kept)
