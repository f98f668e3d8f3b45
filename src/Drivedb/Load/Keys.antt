-- ===== src/Drivedb/Load/Keys.antt =====
-- The keys under which `getSMARTInfoInternal` looks a bridge up.
use smartmontools_go.Base.{String, Option, none, some, List, [], ◌∷◌, ◌≡◌, refl, ◌∙◌, ◌⊎◌, inl, inr}
use smartmontools_go.Text.{concat, to_lower, to_lower-concat, to_lower_again}
use smartmontools_go.Types.{SmartInfo, Message, SmartctlInfo, elements}
use smartmontools_go.Drivedb.Bridge.{
  bridge_or, first_bridge, bridge_of, find_bridge, extract_usb_bridge_id,
}

colon : to_lower ":" ≡ ":"
unfolding to_lower
colon = refl

lower_id :
    (vendor product : String)
    → let id = concat (to_lower vendor) (concat ":" (to_lower product)) in to_lower id ≡ id
lower_id vendor product =
    to_lower-concat (to_lower vendor) (concat ":" (to_lower product))
    ∙ (rw
        (
          to_lower-concat ":" (to_lower product),
          colon,
          to_lower_again vendor,
          to_lower_again product,
        )
        refl)

-- nothing, or "usb:" and an identifier in lower case
abbrev pub IsKey : String → Type 0
IsKey k = (k ≡ "") ⊎ ((id : String) × (k ≡ concat "usb:" id) × (to_lower id ≡ id))

bridge_or-IsKey :
    (later : String) (m : Option (String × String)) → IsKey later → IsKey (bridge_or later m)
bridge_or-IsKey later none h = unfold bridge_or in h
bridge_or-IsKey later (some (vendor, product)) h =
    unfold bridge_or in
    inr (concat (to_lower vendor) (concat ":" (to_lower product)), refl, lower_id vendor product)

first_bridge-IsKey : (msgs : List Message) → IsKey (first_bridge msgs)
unfolding first_bridge
first_bridge-IsKey [] = inl refl
first_bridge-IsKey (msg ∷ msgs) =
    bridge_or-IsKey (first_bridge msgs) (find_bridge msg.string) (first_bridge-IsKey msgs)

bridge_of-IsKey : (ctl : Option SmartctlInfo) → IsKey (bridge_of ctl)
unfolding bridge_of
bridge_of-IsKey none = inl refl
bridge_of-IsKey (some ctl) = first_bridge-IsKey (elements ctl.messages)

-- Whatever case of letters smartctl prints, the key under which an unknown bridge is looked up is empty,
-- or "usb:" and an identifier in lower case.
pub extract_usb_bridge_id-IsKey :
    (i : SmartInfo)
    → (extract_usb_bridge_id i ≡ "")
      ⊎ ((id : String) × (extract_usb_bridge_id i ≡ concat "usb:" id) × (to_lower id ≡ id))
unfolding extract_usb_bridge_id
extract_usb_bridge_id-IsKey i = bridge_of-IsKey i.smartctl
