-- ===== src/Lobby/Kept.antt =====
-- The lobby's handlers keep the text fields inside their buffers, and the client intact.
use mathlib.Core.Path.{subst}
use fury_clash.Prelude.{
  ℕ, ◌+◌, ◌-◌, ◌≤◌, ℤ, pos, List, length, length-take, ◌++◌, take, Option, none, some, if_ind,
  OnSome, Option-cases, inl, inr, if◌then◌else◌, arith,
}
use fury_clash.Prelude.Text.{codes}
use fury_clash.Floats.{Floats}
use fury_clash.Network.Os.{Os}
use fury_clash.Network.Rollback.{Engine}
use fury_clash.Network.Client.{Session}
use fury_clash.Network.Client.Connect.{net_client_configure, net_client_connect}
use fury_clash.Network.Client.Intact.{IsIntact}
use fury_clash.Network.Client.Calls.{
  configure-kept, connect-kept, send_loadout-kept, disconnect-kept,
}
use fury_clash.Lobby.{
  Lobby, LobbySubState, ls_setup, ls_role, ls_show_code, ls_enter_code, ls_waiting, ls_loadout, Key,
  key_backspace, key_return, key_kp_enter, key_escape, key_1, key_2, key_3, key_f, key_r, is_empty,
  is_unset, lobby_field_backspace, backspace_in, role_key, lobby_join_room, enter_in, escape_in,
  choose_loadout, loadout_key, edit_key, lobby_handle_key,
}
use fury_clash.Lobby.Fields.{HasFields}
use fury_clash.Lobby.Touch.{
  inside, setup_touch, create_button, join_button, local_button, role_touch, code_touch,
  pick_loadout, fire_button, frost_button, touch_in, lobby_handle_touch,
}

backspace-le : (b : List ℕ) (n : ℕ) → length b + 2 ≤ n → length (lobby_field_backspace b) + 2 ≤ n
unfolding lobby_field_backspace
backspace-le b n h = omega (arith, length-take (length b - 1) b)

backspace-HasFields :
    (sub : LobbySubState) (l : Lobby) → HasFields l → HasFields (backspace_in sub l)
backspace-HasFields ls_setup l (u, c) = (backspace-le l.server_url 128 u, c)
backspace-HasFields ls_enter_code l (u, c) = (u, backspace-le l.code_input 8 c)
backspace-HasFields sub l h = h

role_key-HasFields :
    (sub : LobbySubState) (key : Key) (l : Lobby) → HasFields l → HasFields (role_key sub key l)
role_key-HasFields ls_role key_1 l h = h
role_key-HasFields ls_role key_2 l h = h
role_key-HasFields ls_role key_3 l h = h
role_key-HasFields sub key l h = h

module _ (os : Os) (en : Engine) where
  abbrev P : Type 0
  P = Lobby × Session os en

  -- the fields in their buffers, the client intact
  abbrev pub IsKept : P → Type 0
  IsKept (l, s) = HasFields l × IsIntact os en s

  join_room-IsKept : (p : P) → IsKept p → OnSome IsKept (lobby_join_room os en p)
  unfolding lobby_join_room
  join_room-IsKept (l, s) (f, g) =
      let room = some (take 7 l.code_input) in
      let id = some (take 15 (l.code_input ++ codes "P2")) in
      let url = some l.server_url in
      if_ind (OnSome IsKept) (is_empty l.code_input) (λ _. (f, g))
        (λ _. elim (Option-cases (net_client_configure os en url room id (pos 1) s)) [
          | inl n ↦ rw n tt
          | inr (s1, e) ↦
              let g1 =
                subst (OnSome (IsIntact os en)) e (configure-kept os en url room id (pos 1) s g) in
              elim (Option-cases (net_client_connect os en none s1)) [
                | inl n ↦ rw (e, n) tt
                | inr (r, k) ↦
                    rw (e, k)
                      (f, subst (OnSome (λ r. IsIntact os en r.1)) k (connect-kept os en s1 g1))
              ]
        ])

  enter-IsKept : (sub : LobbySubState) (p : P) → IsKept p → OnSome IsKept (enter_in os en sub p)
  enter-IsKept ls_setup (l, s) (f, g) =
      (if_ind HasFields (is_empty l.server_url) (λ _. f) (λ _. f), g)
  enter-IsKept ls_enter_code p h = join_room-IsKept p h
  enter-IsKept sub p h = h

  escape-IsKept : (sub : LobbySubState) (p : P) → IsKept p → IsKept (escape_in os en sub p)
  escape-IsKept ls_show_code (l, s) (f, g) = (f, disconnect-kept os en s g)
  escape-IsKept ls_waiting (l, s) (f, g) = (f, disconnect-kept os en s g)
  escape-IsKept sub p h = h

  choose-IsKept : (lt : ℤ) (p : P) → IsKept p → IsKept (choose_loadout os en lt p)
  unfolding choose_loadout
  choose-IsKept lt (l, s) (f, g) =
      if_ind IsKept (is_unset l.my_loadout)
        (λ _. if_ind IsKept l.local_mode (λ _. (f, g)) (λ _. (f, send_loadout-kept os en lt s g)))
        (λ _. (f, g))

  loadout-IsKept :
      (sub : LobbySubState) (key : Key) (p : P) → IsKept p → IsKept (loadout_key os en sub key p)
  loadout-IsKept ls_loadout key_f p h =
      if_ind IsKept p.0.loadout_sent (λ _. h) (λ _. choose-IsKept (pos 1) p h)
  loadout-IsKept ls_loadout key_r p h =
      if_ind IsKept p.0.loadout_sent (λ _. h) (λ _. choose-IsKept (pos 2) p h)
  loadout-IsKept sub key p h = h

  edit-IsKept : (key : Key) (p : P) → IsKept p → OnSome IsKept (edit_key os en key p)
  edit-IsKept key_backspace (l, s) (f, g) = (backspace-HasFields l.sub l f, g)
  edit-IsKept key_return (l, s) h = enter-IsKept l.sub (l, s) h
  edit-IsKept key_kp_enter (l, s) h = enter-IsKept l.sub (l, s) h
  edit-IsKept key_escape (l, s) h = escape-IsKept l.sub (l, s) h
  edit-IsKept key p h = h

  pub key-IsKept : (key : Key) (p : P) → IsKept p → OnSome IsKept (lobby_handle_key os en key p)
  unfolding lobby_handle_key
  key-IsKept key p h = elim (Option-cases (edit_key os en key p)) [
    | inl n ↦ rw n tt
    | inr (q, e) ↦
        let k = subst (OnSome IsKept) e (edit-IsKept key p h) in
        let l = role_key q.0.sub key q.0 in
        rw e (loadout-IsKept l.sub key (l, q.1) (role_key-HasFields q.0.sub key q.0 k.0, k.1))
  ]

  module _ (fl : Floats) where
    open fl use {Float}

    setup-HasFields : (x y : Float) (l : Lobby) → HasFields l → HasFields (setup_touch fl x y l)
    unfolding setup_touch
    setup-HasFields x y l h =
        if_ind HasFields (inside fl 160 1120 220 290 x y) (λ _. h)
          (λ _.
            if_ind HasFields (inside fl 490 790 380 450 x y)
              (λ _. if_ind HasFields (is_empty l.server_url) (λ _. h) (λ _. h)) (λ _. h))

    role-HasFields : (x y : Float) (l : Lobby) → HasFields l → HasFields (role_touch fl x y l)
    unfolding role_touch create_button join_button local_button
    role-HasFields x y l h =
        let c = create_button fl x y l in
        let j = join_button fl x y c in
        let hc = if_ind HasFields (inside fl 100 440 300 390 x y) (λ _. h) (λ _. h) in
        let hj = if_ind HasFields (inside fl 480 820 300 390 x y) (λ _. hc) (λ _. hc) in
        if_ind HasFields (inside fl 860 1180 300 390 x y) (λ _. hj) (λ _. hj)

    pick-IsKept : (lt : ℤ) (p : P) → IsKept p → IsKept (pick_loadout fl os en lt p)
    unfolding pick_loadout
    pick-IsKept lt (l, s) (f, g) =
        if_ind IsKept l.loadout_sent (λ _. (f, g))
          (λ _. if_ind IsKept l.local_mode (λ _. (f, g)) (λ _. (f, send_loadout-kept os en lt s g)))

    code-IsKept : (x y : Float) (p : P) → IsKept p → OnSome IsKept (code_touch fl os en x y p)
    unfolding code_touch
    code-IsKept x y (l, s) (f, g) =
        let pressed = inside fl 480 800 390 460 x y in
        let joined = lobby_join_room os en (l, s) in
        let o : Option P = if pressed then joined else some (l, s) in
        let k : OnSome IsKept o =
          if_ind (OnSome IsKept) pressed (λ _. join_room-IsKept (l, s) (f, g)) (λ _. (f, g)) in
        if_ind (OnSome IsKept) (inside fl 340 940 270 340 x y) (λ _. (f, g))
          (λ _. elim (Option-cases o) [
            | inl n ↦ rw n tt
            | inr (q, e) ↦
                let kq = subst (OnSome IsKept) e k in
                rw e
                  (if_ind HasFields (inside fl 120 320 390 460 x y) (λ _. kq.0) (λ _. kq.0), kq.1)
          ])

    buttons-IsKept :
        (x y : Float) (p : P)
        → IsKept p
        → IsKept (frost_button fl os en x y (fire_button fl os en x y p))
    unfolding fire_button frost_button
    buttons-IsKept x y p h =
        let fire = fire_button fl os en x y p in
        let hf =
          if_ind IsKept (inside fl 160 540 260 390 x y) (λ _. pick-IsKept (pos 1) p h) (λ _. h) in
        if_ind IsKept (inside fl 740 1120 260 390 x y) (λ _. pick-IsKept (pos 2) fire hf) (λ _. hf)

    touch_in-IsKept :
        (x y : Float) (sub : LobbySubState) (p : P)
        → IsKept p
        → OnSome IsKept (touch_in fl os en x y sub p)
    touch_in-IsKept x y ls_setup (l, s) (f, g) = (setup-HasFields x y l f, g)
    touch_in-IsKept x y ls_role (l, s) (f, g) = (role-HasFields x y l f, g)
    touch_in-IsKept x y ls_enter_code p h = code-IsKept x y p h
    touch_in-IsKept x y ls_loadout p h = buttons-IsKept x y p h
    touch_in-IsKept x y sub p h = h

    pub touch-IsKept :
        (x y : Float) (p : P) → IsKept p → OnSome IsKept (lobby_handle_touch fl os en x y p)
    unfolding lobby_handle_touch
    touch-IsKept x y (l, s) h = touch_in-IsKept x y l.sub (l, s) h
