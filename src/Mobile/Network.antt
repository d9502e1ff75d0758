-- ===== src/Mobile/Network.antt =====
-- mobile/src/sync/networkMonitor.ts: what the client knows of its connection.
use flow_logix.Common.{
  ◌≡◌, ◌↔◌, ◌⊎◌, inl, inr, Bool, true, false, Option, none, some, Text, text_eq, codes, arith, cmp,
  if◌then◌else◌, eq_of_cmp, Bool-cases, refl, ◌∙◌,
}

pub data ConnectionType : Type 0 where
  wifi cellular ethernet offline_type unknown : ConnectionType

-- `isConnected` may be null.
pub record NetInfoState : Type 0 where
  pub is_connected : Option Bool
  pub type : Text

-- `NetInfoNetworkMonitor`, without its listeners.
pub record Monitor : Type 0 where
  pub online : Bool
  pub type : ConnectionType

abbrev pub before_hydrate : Monitor
before_hydrate = record { online = false; type = unknown }

unfoldable pub normalise : Text → ConnectionType
normalise type =
    if text_eq type (codes "wifi")
    then wifi
    else (if text_eq type (codes "cellular")
        then cellular
        else (if text_eq type (codes "ethernet")
            then ethernet
            else (if text_eq type (codes "none") then offline_type else unknown)))

abbrev pub is_true : Option Bool → Bool
is_true none = false
is_true (some b) = b

unfoldable pub update : NetInfoState → Monitor → Monitor
update state m = record { online = is_true state.is_connected; type = normalise state.type }

unfoldable pub is_suitable_for_large_upload : Monitor → Bool
is_suitable_for_large_upload m = elim m.online [
  | false ↦ false
  | true ↦ elim m.type [ wifi ↦ true | ethernet ↦ true | cellular ↦ true | _ ↦ false ]
]

unfoldable suits : Monitor → Option Bool → Text → Bool
suits m connected type =
    is_suitable_for_large_upload (update (record { is_connected = connected; type = type }) m)

suits_named :
    (m : Monitor)
    → (suits m (some true) (codes "wifi") ≡ true)
      × (suits m (some true) (codes "cellular") ≡ true)
      × (suits m (some true) (codes "ethernet") ≡ true)
unfolding suits is_suitable_for_large_upload update normalise cmp
suits_named m = (refl, refl, refl)

suits-only :
    (m : Monitor) (connected : Option Bool) (type : Text)
    → suits m connected type ≡ true
    → (connected ≡ some true)
      × ((type ≡ codes "wifi") ⊎ (type ≡ codes "cellular") ⊎ (type ≡ codes "ethernet"))
unfolding suits is_suitable_for_large_upload update normalise
suits-only m none type h = absurd (ground arith)
suits-only m (some false) type h = absurd (ground arith)
suits-only m (some true) type h = (
  refl,
  elim (Bool-cases (text_eq type (codes "wifi"))) [
    | inl w ↦ inl (eq_of_cmp type (codes "wifi") (ground arith))
    | inr v ↦ elim (Bool-cases (text_eq type (codes "cellular"))) [
      | inl w ↦ inr (inl (eq_of_cmp type (codes "cellular") (ground arith)))
      | inr u ↦ inr (inr (eq_of_cmp type (codes "ethernet") (ground arith)))
    ]
  ],
)

-- After an update the queue may upload exactly if the device is known to be connected, over a
-- network that calls itself wifi, cellular or ethernet; nothing else that the state or the earlier
-- updates said matters.
pub update-suitable :
    (state : NetInfoState) (m : Monitor)
    → (is_suitable_for_large_upload (update state m) ≡ true) ↔ (
        (state.is_connected ≡ some true)
        × ((state.type ≡ codes "wifi")
            ⊎ (state.type ≡ codes "cellular")
            ⊎ (state.type ≡ codes "ethernet")))
update-suitable state m =
    let (wifi_suits, cellular_suits, ethernet_suits) = suits_named m in
    (
      λ h. suits-only m state.is_connected state.type (unfold suits in h),
      λ (connected, named). elim named [
        | inl w ↦ ap2 connected w ∙ wifi_suits
        | inr (inl c) ↦ ap2 connected c ∙ cellular_suits
        | inr (inr e) ↦ ap2 connected e ∙ ethernet_suits
      ],
    )
  where
    ap2 :
        {type : Text}
        → state.is_connected ≡ some true
        → state.type ≡ type
        → is_suitable_for_large_upload (update state m) ≡ suits m (some true) type
    ap2 p q =
        unfold suits in
        (λ i. is_suitable_for_large_upload (update (record { is_connected = p i; type = q i }) m))
