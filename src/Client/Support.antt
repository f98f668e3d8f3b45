-- ===== src/Client/Support.antt =====
-- The client's construction, its query for SMART support, and the generic discovery.
use mathlib.Core.List.{append-nil, append_assoc}
use smartmontools_go.Base.{
  String, true, false, Option, none, some, List, [], ◌∷◌, ◌++◌, GoMap, is_some, ◌≡◌, ◌≢◌, refl, sym,
  ◌∙◌, ap, ◌⊎◌, inl, inr, arith,
}
use smartmontools_go.Types.{Device, SmartInfo, DiscoveryResult}
use smartmontools_go.MessageCache.{MessageCache}
use smartmontools_go.Backend.State.{Env, State, Err, panic}
use smartmontools_go.Backend.Setup.{
  Host, Opt, with_smartctl_path, with_commander, with_log_handler, Built, backend, refused, new,
}
use smartmontools_go.Backend.Info.{get_smart_info, get_smart_info_internal}
use smartmontools_go.Backend.Info.Result.{get_smart_info_internal-info}
use smartmontools_go.Backend.Devices.{ok, err, unread, read_result}
use smartmontools_go.Client.{
  Backend, exec_backend, ClientOption, client_smartctl_path, client_log_handler, client_commander,
  client_context, client_backend, Client, NewResult, given, made, not_made, apply_client_option,
  apply_client_options, accept_built, finish_client, new_client, support_of_answer,
  is_smart_supported, generic_result, generic_all, generic_scanned, discover_by,
  client_discover_devices,
}

module _ {B C : Type 0} where
  -- what the last option that gives a backend gives, nil included, else `b`
  abbrev pub last_backend : List (ClientOption B C) → Option B → Option B
  last_backend [] b = b
  last_backend (client_backend c ∷ os) b = last_backend os c
  last_backend (_ ∷ os) b = last_backend os b

  -- what the last option that gives a context gives, nil included, else `ctx`
  abbrev pub last_context : List (ClientOption B C) → Option C → Option C
  last_context [] ctx = ctx
  last_context (client_context c ∷ os) ctx = last_context os c
  last_context (_ ∷ os) ctx = last_context os ctx

  -- the options that are meant for the exec backend, in order
  abbrev pub exec_opts : List (ClientOption B C) → List Opt
  exec_opts [] = []
  exec_opts (client_smartctl_path path ∷ os) = with_smartctl_path path ∷ exec_opts os
  exec_opts (client_commander ∷ os) = with_commander ∷ exec_opts os
  exec_opts (_ ∷ os) = exec_opts os

  -- the client that `NewClient` is to return, or the error
  abbrev pub IsClient :
      Host → GoMap String → MessageCache → Option B → Option C → List Opt → NewResult B C → Type 0
  IsClient host db messages (some b) ctx opts r = r ≡ given b ctx
  IsClient host db messages none ctx opts r =
      ((s : State) × (new host db messages opts ≡ backend s) × (r ≡ made s ctx))
      ⊎ ((e : Err) × (new host db messages opts ≡ refused e) × (r ≡ not_made e))

  -- the client that the options lead to, from the backend and context they find
  abbrev staged : List (ClientOption B C) → Option B → Option C → List Opt → Client B C
  staged os b ctx opts = record {
    backend = last_backend os b;
    default_ctx = last_context os ctx;
    pending_exec_opts = opts;
  }

  with_opt :
      (o : Opt) (os : List (ClientOption B C)) (c : Client B C) {r : Client B C}
      → r ≡ staged os c.backend c.default_ctx (c.pending_exec_opts ++ o ∷ [] ++ exec_opts os)
      → r ≡ staged os c.backend c.default_ctx (c.pending_exec_opts ++ (o ∷ exec_opts os))
  with_opt o os c e =
      e
      ∙ ap (staged os c.backend c.default_ctx)
          (append_assoc c.pending_exec_opts (o ∷ []) (exec_opts os))

  apply_client_options-lem :
      (os : List (ClientOption B C)) (c : Client B C)
      → apply_client_options os c
        ≡ staged os c.backend c.default_ctx (c.pending_exec_opts ++ exec_opts os)
  unfolding apply_client_options apply_client_option
  apply_client_options-lem [] c =
      ap (staged [] c.backend c.default_ctx) (sym (append-nil c.pending_exec_opts))
  apply_client_options-lem (client_smartctl_path path ∷ os) c =
      with_opt (with_smartctl_path path) os c (
        apply_client_options-lem os
          (record c { pending_exec_opts = c.pending_exec_opts ++ with_smartctl_path path ∷ [] }))
  apply_client_options-lem (client_commander ∷ os) c = with_opt with_commander os c (
      apply_client_options-lem os
        (record c { pending_exec_opts = c.pending_exec_opts ++ with_commander ∷ [] }))
  apply_client_options-lem (client_backend b ∷ os) c =
      apply_client_options-lem os (record c { backend = b })
  apply_client_options-lem (client_context ctx ∷ os) c =
      apply_client_options-lem os (record c { default_ctx = ctx })
  apply_client_options-lem (client_log_handler ∷ os) c = apply_client_options-lem os c

  accept_built-IsClient :
      (host : Host) (db : GoMap String) (messages : MessageCache) (ctx : Option C) (opts : List Opt)
      (r : Built)
      → new host db messages opts ≡ r
      → IsClient host db messages none ctx opts (accept_built r ctx)
  unfolding accept_built
  accept_built-IsClient host db messages ctx opts (backend s) e = inl (s, e, refl)
  accept_built-IsClient host db messages ctx opts (refused f) e = inr (f, e, refl)

  finish_client-IsClient :
      (host : Host) (db : GoMap String) (messages : MessageCache) (b : Option B) (ctx : Option C)
      (opts : List Opt)
      → IsClient host db messages b ctx
          (with_log_handler ∷ opts)
          (finish_client host db messages b ctx opts)
  unfolding finish_client
  finish_client-IsClient host db messages none ctx opts =
      accept_built-IsClient host db messages ctx (with_log_handler ∷ opts) _ refl
  finish_client-IsClient host db messages (some b) ctx opts = refl

  -- `NewClient` returns a client of the backend of the last `WithBackend`, whatever paths, commanders and
  -- log handlers are given. Without one, or where the last one gives nil, the backend is what `New` makes
  -- of the log handler and then the paths and commanders, in their order, and an error of `New` is the
  -- result. The default context is that of the last `WithContext`, else the background context.
  pub new_client_options :
      (background : C) (host : Host) (db : GoMap String) (messages : MessageCache)
      (os : List (ClientOption B C))
      → IsClient host db messages
          (last_backend os none)
          (last_context os (some background))
          (with_log_handler ∷ exec_opts os)
          (new_client background host db messages os)
  new_client_options background host db messages os =
      unfold new_client in
      rw
        (apply_client_options-lem os
          (record { backend = none; default_ctx = some background; pending_exec_opts = [] }))
        (finish_client-IsClient host db messages (last_backend os none)
          (last_context os (some background)) (exec_opts os))

support_of_answer-no_panic :
    (e : Option Err) (o : Option SmartInfo)
    → (e ≡ none → is_some o ≡ true)
    → support_of_answer e o ≢ err panic
unfolding support_of_answer
support_of_answer-no_panic (some e) o k h = absurd (ground arith)
support_of_answer-no_panic none none k h = absurd (let q : false ≡ true = k refl in cc)
support_of_answer-no_panic none (some i) k h = absurd (ground arith)

-- With the exec backend, `IsSMARTSupported` never reads through a nil info.
pub is_smart_supported-no_panic :
    (env : Env) (path : String) (s : State)
    → (is_smart_supported (exec_backend env) path s).0 ≢ err panic
is_smart_supported-no_panic env path s =
    unfold is_smart_supported exec_backend get_smart_info in
    support_of_answer-no_panic (get_smart_info_internal env path s).0.err
      (get_smart_info_internal env path s).0.smart_info (get_smart_info_internal-info env path s)

-- what the generic discovery may report of a device
pub data Generic (dev : Device) (r : DiscoveryResult) : Type 0 where
  not_read : r ≡ unread dev → Generic dev r
  plainly_read : (i : SmartInfo) → r ≡ read_result dev i.device.type false i → Generic dev r

pub data AllGeneric : List Device → List DiscoveryResult → Type 0 where
  no_device : AllGeneric [] []
  one_device :
      (dev : Device) (r : DiscoveryResult) (devs : List Device) (rs : List DiscoveryResult)
      → Generic dev r
      → AllGeneric devs rs
      → AllGeneric (dev ∷ devs) (r ∷ rs)

module _ {S : Type 0} (b : Backend S) where
  generic_result-Generic :
      (dev : Device) (e : Option Err) (o : Option SmartInfo)
      → Generic dev (generic_result b dev e o)
  unfolding generic_result
  generic_result-Generic dev none (some i) = plainly_read i refl
  generic_result-Generic dev none none = not_read refl
  generic_result-Generic dev (some e) o = not_read refl

  generic_all-AllGeneric : (devs : List Device) (s : S) → AllGeneric devs (generic_all b devs s).0
  unfolding generic_all
  generic_all-AllGeneric [] s = no_device
  generic_all-AllGeneric (dev ∷ devs) s =
      let (answer, s1) = b.info dev.name s in
      one_device dev _ devs _ (generic_result-Generic dev answer.err answer.smart_info)
        (generic_all-AllGeneric devs s1)

  generic_scanned-ok :
      (devs : List Device) (s : S)
      → (rs : List DiscoveryResult) × ((generic_scanned b (ok devs) s).0 ≡ ok rs)
        × AllGeneric devs rs
  unfolding generic_scanned
  generic_scanned-ok devs s = ((generic_all b devs s).0, refl, generic_all-AllGeneric devs s)

  -- With a backend that has no discovery of its own, a scan that succeeds leads to one result for each
  -- device in the scan's order, which is untouched or that of a plain query, and never says that a SAT
  -- fallback was required.
  client_discover_devices-AllGeneric :
      (devs : List Device) (s : S)
      → b.discovery ≡ none
      → (b.scan s).0 ≡ ok devs
      → (rs : List DiscoveryResult) × ((client_discover_devices b s).0 ≡ ok rs) × AllGeneric devs rs
  client_discover_devices-AllGeneric devs s h e =
      unfold client_discover_devices in
      rw h (unfold discover_by in rw e (generic_scanned-ok devs (b.scan s).1))
