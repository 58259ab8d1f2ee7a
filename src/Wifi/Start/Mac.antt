-- ===== src/Wifi/Start/Mac.antt =====
-- The rotation of the station's address and the access point's start in src/wifi_manager.c.
use esp_nmea_bridge.Prelude.{
  ℕ, ◌≡◌, refl, Bool, true, false, not, ◌||◌, List, [], ◌∷◌, Option, none, some, ◌==◌, if-either,
  ◌⊎◌, inl, inr,
}
use esp_nmea_bridge.Config.{Ret, ok, error}
use esp_nmea_bridge.Wifi.{Wifi}
use esp_nmea_bridge.Wifi.Request.{Call, iface_down, iface_up, set_mac_address, set_sta_mode}
use esp_nmea_bridge.Wifi.Start.{
  MacEnv, rotate_sta_mac, with_mode, with_link_addr, change_mac, rotated_mac, is_mac,
}

-- Whether the interface is up after the calls, for whether it was, and what taking it down and
-- bringing it up return: a call that fails leaves it as it is.
unfoldable pub is_up_after : List Call → Bool → Ret → Ret → Bool
is_up_after [] up down up_again = up
is_up_after (iface_down ∷ calls) up ok up_again = is_up_after calls false ok up_again
is_up_after (iface_up ∷ calls) up down ok = is_up_after calls true down ok
is_up_after (_ ∷ calls) up down up_again = is_up_after calls up down up_again

-- Whether the calls ask for an address while the interface is up.
unfoldable pub changes_up : List Call → Bool → Ret → Ret → Bool
changes_up [] up down up_again = false
changes_up (iface_down ∷ calls) up ok up_again = changes_up calls false ok up_again
changes_up (iface_up ∷ calls) up down ok = changes_up calls true down ok
changes_up (set_mac_address mac ∷ calls) true down up_again = true
changes_up (_ ∷ calls) up down up_again = changes_up calls up down up_again

-- The interface was up and was taken down, and the request to bring it up again failed.
pub record StaysDown (env : MacEnv) (calls : List Call) : Type 0 where
  pub was_up : env.is_up ≡ true
  pub taken_down : env.down ≡ ok
  pub code : ℕ
  pub fails : env.up_again ≡ error code
  pub stays : is_up_after calls env.is_up env.down env.up_again ≡ false

-- The calls change the address only while the interface is down, and leave the interface as it was
-- unless bringing it up fails.
abbrev Restored : MacEnv → List Call → Type 0
Restored env calls =
    (changes_up calls env.is_up env.down env.up_again ≡ false)
    × ((is_up_after calls env.is_up env.down env.up_again ≡ env.is_up) ⊎ StaysDown env calls)

change_mac-Restored :
    (env : MacEnv) (up : Bool) (down up_again : Ret) (mac : List ℕ)
    → env.is_up ≡ up
    → env.down ≡ down
    → env.up_again ≡ up_again
    → Restored env (change_mac env.is_up env.down mac)
unfolding change_mac is_up_after changes_up
change_mac-Restored env false down up_again mac e f g =
    rw (e, change_mac, is_up_after, changes_up) (refl, inl refl)
change_mac-Restored env true (error k) up_again mac e f g =
    rw (e, f, change_mac, is_up_after, changes_up) (refl, inl refl)
change_mac-Restored env true ok ok mac e f g =
    rw (e, f, g, change_mac, is_up_after, changes_up) (refl, inl refl)
change_mac-Restored env true ok (error k) mac e f g = (
  rw (e, f, g, change_mac, changes_up) refl,
  inr (record {
    was_up = e;
    taken_down = f;
    code = k;
    fails = g;
    stays = rw (e, f, g, change_mac, is_up_after) refl;
  }),
)

with_link_addr-Restored : (env : MacEnv) (a : Option (List ℕ)) → Restored env (with_link_addr env a)
unfolding is_up_after changes_up change_mac
with_link_addr-Restored env none = (refl, inl refl)
with_link_addr-Restored env (some addr) =
    if-either (Restored env) (is_mac addr)
      (λ _.
        change_mac-Restored env env.is_up env.down env.up_again (rotated_mac addr env.random) refl
          refl refl)
      (λ _. (refl, inl refl))

restored-mode :
    (env : MacEnv) (calls : List Call)
    → (is_up_after calls env.is_up env.down env.up_again ≡ env.is_up) ⊎ StaysDown env calls
    → (is_up_after (set_sta_mode ∷ calls) env.is_up env.down env.up_again ≡ env.is_up)
      ⊎ StaysDown env (set_sta_mode ∷ calls)
unfolding is_up_after
restored-mode env calls (inl u) = inl u
restored-mode env calls (inr s) = inr (record {
  was_up = s.was_up;
  taken_down = s.taken_down;
  code = s.code;
  fails = s.fails;
  stays = s.stays;
})

with_mode-Restored : (env : MacEnv) (mode : Ret) → Restored env (with_mode env mode)
unfolding is_up_after changes_up
with_mode-Restored env ok =
    let (c, u) = with_link_addr-Restored env env.link_addr in (c, restored-mode env _ u)
with_mode-Restored env (error e) = (refl, inl refl)

-- However the requests answer, the rotation of the station's address asks for the new address only
-- while the interface is down, and it leaves the interface up if it was up and down if it was down,
-- but for one case: the interface was up and was taken down, and bringing it up again failed, and
-- then it is down.
pub rotate_sta_mac-restores :
    (env : MacEnv) (w : Wifi)
    → (changes_up (rotate_sta_mac env w) env.is_up env.down env.up_again ≡ false)
      × ((is_up_after (rotate_sta_mac env w) env.is_up env.down env.up_again ≡ env.is_up)
          ⊎ StaysDown env (rotate_sta_mac env w))
unfolding rotate_sta_mac is_up_after changes_up
rotate_sta_mac-restores env w =
    if-either (Restored env) (not w.sta_cfg.enabled || not w.sta_cfg.rotate_mac || w.sta_iface == 0)
      (λ _. (refl, inl refl)) (λ _. with_mode-Restored env env.mode)
