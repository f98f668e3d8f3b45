-- ===== src/Backend/Info/Rule.antt =====
-- `getSMARTInfoInternal` ends in one of the ways of the relation, so that a property that holds at each
-- end holds of the call.
use smartmontools_go.Base.{
  ℤ, String, true, Option, none, some, [], ◌∷◌, ◌≡◌, ◌==◌, refl, arith, Option-cases, Bool-cases,
  inl, inr, has_bits,
}
use smartmontools_go.Types.{SmartInfo}
use smartmontools_go.Drivedb.Bridge.{is_unknown_usb_bridge, extract_usb_bridge_id}
use smartmontools_go.Backend.State.{
  Env, State, Err, exit_error, Reply, output, command, get_cached_device_type, cache_if_absent,
  build_args,
}
use smartmontools_go.Backend.Logging.{log_smartctl_messages}
use smartmontools_go.Backend.Retry.{retry_with_device_type, retry_sat_fallback}
use smartmontools_go.Backend.Info.Ends.{
  BridgeType, in_database, no_identifier, not_in_database, HasDocument, NoDocument, Bridged, Ends,
  LogsOnly, NotStandby, Tried, bridge_failed, bridge_read, failure_read, failure_unread, more_logs,
  no_bridge, not_tried, read, sat_failed, sat_read, standby_bare, standby_read, unparsed,
}
use smartmontools_go.Backend.Info.{
  get_smart_info_internal, after_bridge_retry, retry_bridge, parsed_failure, parse_failure, standby,
  after_sat, exit_failure, success, info_dispatch, parse_if_any, log_choice, bridge_lookup,
  bridge_type,
}

log_choice-LogsOnly :
    (device_path bridge_id : String) (known : Option String) (s : State)
    → LogsOnly s (log_choice device_path bridge_id known s)
unfolding log_choice
log_choice-LogsOnly device_path bridge_id known s = more_logs (ground arith)

bridge_lookup-BridgeType :
    (i : SmartInfo) (s : State)
    → BridgeType s i (bridge_type (bridge_lookup (extract_usb_bridge_id i) s))
unfolding bridge_lookup bridge_type
bridge_lookup-BridgeType i s = elim (Bool-cases (extract_usb_bridge_id i == "")) [
  | inl e ↦ rw e (no_identifier e)
  | inr e ↦ elim (Option-cases (get_cached_device_type (extract_usb_bridge_id i) s)) [
    | inl absent ↦ rw (e, absent) (not_in_database e absent)
    | inr (known, cached) ↦ rw (e, cached) (in_database e cached)
  ]
]

module _ (env : Env) (device_path : String) where
  after_bridge_retry-Bridged :
      (i : SmartInfo) (device_type : String) (o : Option SmartInfo) (r s t : State)
      → is_unknown_usb_bridge i ≡ true
      → get_cached_device_type device_path s ≡ none
      → BridgeType s i device_type
      → LogsOnly s r
      → retry_with_device_type env device_path device_type r ≡ (o, t)
      → Bridged env device_path s i
          (after_bridge_retry env device_path i device_type o t).0
          (after_bridge_retry env device_path i device_type o t).1
  unfolding after_bridge_retry
  after_bridge_retry-Bridged i device_type none r s t unknown absent chosen logs e =
      bridge_failed device_type r unknown absent chosen logs e
  after_bridge_retry-Bridged i device_type (some j) r s t unknown absent chosen logs e =
      bridge_read device_type r unknown absent chosen logs e

  retry_bridge-Bridged :
      (i : SmartInfo) (s : State)
      → is_unknown_usb_bridge i ≡ true
      → get_cached_device_type device_path s ≡ none
      → Bridged env device_path s i
          (retry_bridge env device_path i s).0
          (retry_bridge env device_path i s).1
  unfolding retry_bridge
  retry_bridge-Bridged i s unknown absent =
      let bridge_id = extract_usb_bridge_id i in
      let known = bridge_lookup bridge_id s in
      let r = log_choice device_path bridge_id known s in
      after_bridge_retry-Bridged i (bridge_type known) _ r s _ unknown absent
        (bridge_lookup-BridgeType i s) (log_choice-LogsOnly device_path bridge_id known s) refl

  parsed_failure-Bridged :
      (i : SmartInfo) (s : State)
      → Bridged env device_path
          (log_smartctl_messages env i (cache_if_absent device_path i.device.type s))
          i
          (parsed_failure env device_path i s).0
          (parsed_failure env device_path i s).1
  unfolding parsed_failure
  parsed_failure-Bridged i s =
      let s1 = log_smartctl_messages env i (cache_if_absent device_path i.device.type s) in
      elim (Bool-cases (is_unknown_usb_bridge i)) [
        | inr known ↦ rw known (no_bridge (inl known))
        | inl unknown ↦ elim (Option-cases (get_cached_device_type device_path s1)) [
          | inr (t, cached) ↦ rw (unknown, cached) (no_bridge (inr (t, cached)))
          | inl absent ↦ rw (unknown, absent) (retry_bridge-Bridged i s1 unknown absent)
        ]
      ]

  parse_if_any-some :
      (out : String) {i : SmartInfo}
      → parse_if_any env device_path out ≡ some i
      → HasDocument env device_path out i
  unfolding parse_if_any
  parse_if_any-some out h = ground arith

  parse_if_any-none :
      (out : String) → parse_if_any env device_path out ≡ none → NoDocument env device_path out
  unfolding parse_if_any
  parse_if_any-none out h = ground arith

  module _ (reply : Reply) (s t : State) where
    standby-Ends :
        (code : ℤ) (o : Option SmartInfo)
        → Tried env device_path s (exit_error code) t
        → reply.err ≡ some (exit_error code)
        → has_bits code 0x02 ≡ true
        → parse_if_any env device_path reply.out ≡ o
        → Ends env device_path s reply
            (standby env device_path o t).0
            (standby env device_path o t).1
    unfolding standby
    standby-Ends code none tried e b p = standby_bare e b (parse_if_any-none reply.out p) tried
    standby-Ends code (some i) tried e b p = standby_read e b (parse_if_any-some reply.out p) tried

    parse_failure-Ends :
        (e : Err) (o : Option SmartInfo)
        → Tried env device_path s e t
        → reply.err ≡ some e
        → NotStandby e
        → parse_if_any env device_path reply.out ≡ o
        → Ends env device_path s reply
            (parse_failure env device_path e o t).0
            (parse_failure env device_path e o t).1
    parse_failure-Ends e none tried h n p =
        unfold parse_failure in failure_unread h n (parse_if_any-none reply.out p) tried
    parse_failure-Ends e (some i) tried h n p =
        unfold parse_failure in
        failure_read h n (parse_if_any-some reply.out p) tried (parsed_failure-Bridged i t)

    after_sat-Ends :
        (code : ℤ)
        → Tried env device_path s (exit_error code) t
        → reply.err ≡ some (exit_error code)
        → Ends env device_path s reply
            (after_sat env device_path code reply.out none t).0
            (after_sat env device_path code reply.out none t).1
    after_sat-Ends code tried e = elim (Bool-cases (has_bits code 0x02)) [
      | inl b ↦ unfold after_sat in rw b (standby-Ends code _ tried e b refl)
      | inr b ↦ unfold after_sat in rw b (parse_failure-Ends (exit_error code) _ tried e b refl)
    ]

  sat_result-Ends :
      (reply : Reply) (code : ℤ) (s t : State) (o : Option SmartInfo)
      → reply.err ≡ some (exit_error code)
      → has_bits code 0x05 ≡ true
      → get_cached_device_type device_path s ≡ none
      → retry_sat_fallback env device_path s ≡ (o, t)
      → Ends env device_path s reply
          (after_sat env device_path code reply.out o t).0
          (after_sat env device_path code reply.out o t).1
  sat_result-Ends reply code s t none e b absent r =
      after_sat-Ends reply s t code (sat_failed refl b absent r) e
  sat_result-Ends reply code s t (some j) e b absent r = unfold after_sat in sat_read e b absent r

  exit_failure-Ends :
      (reply : Reply) (code : ℤ) (s : State)
      → reply.err ≡ some (exit_error code)
      → Ends env device_path s reply
          (exit_failure env device_path code reply.out s).0
          (exit_failure env device_path code reply.out s).1
  exit_failure-Ends reply code s e = elim (Bool-cases (has_bits code 0x05)) [
    | inr b ↦ unfold exit_failure in rw b (after_sat-Ends reply s s code (not_tried (inl b)) e)
    | inl b ↦ elim (Option-cases (get_cached_device_type device_path s)) [
      | inr (t, cached) ↦
          unfold exit_failure in
          rw (b, cached) (after_sat-Ends reply s s code (not_tried (inr (t, cached))) e)
      | inl absent ↦
          unfold exit_failure in rw (b, absent) (sat_result-Ends reply code s _ _ e b absent refl)
    ]
  ]

  success-Ends :
      (reply : Reply) (s : State) (o : Option SmartInfo)
      → reply.err ≡ none
      → env.unmarshal_info reply.out ≡ o
      → Ends env device_path s reply (success env device_path o s).0 (success env device_path o s).1
  unfolding success
  success-Ends reply s none e p = unparsed e p
  success-Ends reply s (some i) e p = read e p

  info_dispatch-Ends :
      (reply : Reply) (s : State) (e : Option Err)
      → reply.err ≡ e
      → Ends env device_path s reply
          (info_dispatch env device_path e reply.out s).0
          (info_dispatch env device_path e reply.out s).1
  info_dispatch-Ends reply s none h = unfold info_dispatch in success-Ends reply s _ h refl
  info_dispatch-Ends reply s (some (exit_error code)) h =
      unfold info_dispatch in exit_failure-Ends reply code s h
  info_dispatch-Ends reply s (some e) h =
      unfold info_dispatch in parse_failure-Ends reply s s e _ (not_tried tt) h tt refl

  -- the command of the call: its reply and the state behind it
  abbrev pub asked : State → Reply × State
  asked s = command env output (build_args device_path ("-a" ∷ "-j" ∷ []) s) s

  -- Every call ends, from the state behind its command, in one of the ways of `Ends`: with the document of a
  -- success, or an error without one; with the info of a SAT retry, made for an exit with bit 0 or 2 and no
  -- cached type and only then; else, for bit 1, as a device in standby; else with the document of the
  -- failure, after a bridge retry where the document names an unknown bridge and no type is cached and
  -- only then, with the type that the drive database has for the bridge or "sat"; or, without a document,
  -- with an error.
  pub get_smart_info_internal-Ends :
      (s : State)
      → Ends env device_path
          (asked s).1
          (asked s).0
          (get_smart_info_internal env device_path s).0
          (get_smart_info_internal env device_path s).1
  get_smart_info_internal-Ends s =
      unfold get_smart_info_internal in info_dispatch-Ends (asked s).0 (asked s).1 _ refl
