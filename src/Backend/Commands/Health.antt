-- ===== src/Backend/Commands/Health.antt =====
-- What `CheckHealth` and the queries conclude from the exit of a command.
use smartmontools_go.Base.{
  ℤ, String, true, false, Option, none, some, List, [], ◌∷◌, ◌≡◌, ◌≢◌, refl, arith, has_bits, eqbℤ,
  eqbℤ_iff, GoMap,
}
use smartmontools_go.Json.{Json}
use smartmontools_go.Text.{contains_text}
use smartmontools_go.Backend.State.{
  Env, State, Err, exit_error, plain, wrapped, Reply, output, command, build_args,
}
use smartmontools_go.Backend.Devices.{ok, err}
use smartmontools_go.Backend.Commands.{
  minus_one, health_dispatch, query_result, check_health, get_device_info,
}

-- the reply to a query with these flags
abbrev pub query_reply : Env → String → List String → State → Reply
query_reply env path flags s =
    env.respond s.calls
      (record { method = output; name = s.smartctl_path; args = build_args path flags s })

health_dispatch-true :
    (path : String) (e : Option Err) (out : String) (s : State)
    → (health_dispatch path e out s).0 ≡ ok true
    → contains_text out "PASSED" ≡ true
unfolding health_dispatch
health_dispatch-true path none out s h = cc
health_dispatch-true path (some (exit_error code)) out s h = ground arith
health_dispatch-true path (some _) out s h = cc

killed_health :
    (path : String) (e : Option Err) (out : String) (s : State)
    → e ≡ some (exit_error minus_one)
    → out ≡ ""
    → (health_dispatch path e out s).0
      ≡ err (wrapped "failed to check health" (exit_error minus_one) "")
killed_health path e out s h o = rw (h, o) (unfold health_dispatch eqbℤ in refl)

standby_health :
    (path : String) (e : Option Err) (out : String) (s : State) (code : ℤ)
    → e ≡ some (exit_error code)
    → code ≢ minus_one
    → has_bits code 0x02 ≡ true
    → (health_dispatch path e out s).0 ≡ ok false
standby_health path e out s code h n b =
    rw h (unfold health_dispatch in ground (arith, eqbℤ_iff code minus_one))

killed_query :
    (failed unparsed : String) (reply : Reply) (parsed : Option (GoMap Json))
    → reply.err ≡ some (exit_error minus_one)
    → query_result failed unparsed reply parsed ≡ err (plain "device in standby mode")
killed_query failed unparsed reply parsed h = unfold query_result has_bits in ground arith

module _ (env : Env) (path : String) where
  -- A device is called healthy only if the output says "PASSED".
  check_health_sound :
      (s : State)
      → (check_health env path s).0 ≡ ok true
      → contains_text (query_reply env path ("-H" ∷ []) s).out "PASSED" ≡ true
  check_health_sound s h =
      unfold check_health command in
      health_dispatch-true path (query_reply env path ("-H" ∷ []) s).err
        (query_reply env path ("-H" ∷ []) s).out _ h

  -- If both commands are killed, with exit code -1 and no output, then `CheckHealth` returns an error, and
  -- `GetDeviceInfo` says that the device is in standby.
  pub killed_command :
      (s : State)
      → (query_reply env path ("-H" ∷ []) s).err ≡ some (exit_error minus_one)
      → (query_reply env path ("-H" ∷ []) s).out ≡ ""
      → (query_reply env path ("-i" ∷ "-j" ∷ []) s).err ≡ some (exit_error minus_one)
      → ((check_health env path s).0
          ≡ err (wrapped "failed to check health" (exit_error minus_one) ""))
        × ((get_device_info env path s).0 ≡ err (plain "device in standby mode"))
  killed_command s e o i = (
    unfold check_health command in killed_health path _ _ _ e o,
    unfold get_device_info command in
        killed_query _ _ (query_reply env path ("-i" ∷ "-j" ∷ []) s) _ i,
  )

  -- For an exit code with bit 1 other than -1, whatever the output says, `CheckHealth` returns "not
  -- healthy" with no error.
  check_health-standby :
      (s : State) (code : ℤ)
      → (query_reply env path ("-H" ∷ []) s).err ≡ some (exit_error code)
      → code ≢ minus_one
      → has_bits code 0x02 ≡ true
      → (check_health env path s).0 ≡ ok false
  check_health-standby s code e n b =
      unfold check_health command in
      standby_health path _ (query_reply env path ("-H" ∷ []) s).out _ code e n b
