-- ===== src/Backend/Info/Result.antt =====
-- What `getSMARTInfoInternal` returns and leaves behind, on every way in which it ends.
use smartmontools_go.Base.{String, true, ◌||◌, none, some, is_some, ◌≡◌, refl, arith}
use smartmontools_go.Types.{SmartInfo}
use smartmontools_go.Helpers.{classify}
use smartmontools_go.Backend.State.{Env, State, Reply}
use smartmontools_go.Backend.Info.{
  Answer, found, success, info_dispatch, answer_named, get_smart_info_internal,
}
use smartmontools_go.Backend.Info.Ends.{
  Bridged, no_bridge, bridge_read, bridge_failed, Ends, read, unparsed, sat_read, standby_bare,
  standby_read, failure_read, failure_unread,
}
use smartmontools_go.Backend.Info.Rule.{asked, get_smart_info_internal-Ends}

-- there is an error or an info
abbrev pub HasInfo : Answer → Type 0
HasInfo a = (is_some a.err || is_some a.smart_info) ≡ true

answer_named-HasInfo : (i : SmartInfo) → HasInfo (answer_named i)
unfolding answer_named
answer_named-HasInfo i = ground arith

info_of : (a : Answer) → a.err ≡ none → HasInfo a → is_some a.smart_info ≡ true
info_of a h k = rw h at k

module _ (env : Env) (device_path : String) where
  Bridged-HasInfo :
      {s t : State} {i : SmartInfo} {a : Answer} → Bridged env device_path s i a t → HasInfo a
  Bridged-HasInfo {i} (no_bridge n) = answer_named-HasInfo (classify i)
  Bridged-HasInfo (bridge_read d r unknown absent chosen logs e) = refl
  Bridged-HasInfo {i} (bridge_failed d r unknown absent chosen logs e) =
      answer_named-HasInfo (classify i)

  Ends-HasInfo :
      {s t : State} {reply : Reply} {a : Answer} → Ends env device_path s reply a t → HasInfo a
  Ends-HasInfo (read e p) = refl
  Ends-HasInfo (unparsed e p) = refl
  Ends-HasInfo (sat_read e b absent r) = refl
  Ends-HasInfo (standby_bare e b d t) = refl
  Ends-HasInfo (standby_read e b p t) = refl
  Ends-HasInfo (failure_read e n p t b) = Bridged-HasInfo b
  Ends-HasInfo (failure_unread e n d t) = refl

  -- A nil error comes with a non-nil info: the caller may read through the pointer that it gets.
  pub get_smart_info_internal-HasInfo :
      (s : State) → HasInfo (get_smart_info_internal env device_path s).0
  get_smart_info_internal-HasInfo s = Ends-HasInfo (get_smart_info_internal-Ends env device_path s)

  -- A query whose command succeeds with a document that can be decoded returns it classified.
  pub get_smart_info_internal-read :
      (i : SmartInfo) (s : State)
      → (asked env device_path s).0.err ≡ none
      → env.unmarshal_info (asked env device_path s).0.out ≡ some i
      → (get_smart_info_internal env device_path s).0 ≡ found (classify i)
  get_smart_info_internal-read i s done decoded =
      unfold get_smart_info_internal info_dispatch success in rw (done, decoded) refl

  -- what a caller that has looked at the error may rely on
  pub get_smart_info_internal-info :
      (s : State)
      → let a = (get_smart_info_internal env device_path s).0 in
        a.err ≡ none → is_some a.smart_info ≡ true
  get_smart_info_internal-info s h =
      let a = (get_smart_info_internal env device_path s).0 in
      info_of a h (get_smart_info_internal-HasInfo s)
