-- ===== src/Lobby/Create.antt =====
-- Room creation in the lobby of main.c. `none` is an overflow inside `atoi`, or the fuel for the
-- response spent, or a random number beyond the alphabet.
pub mod Kept
use fury_clash.Prelude.{
  ℕ, zero, suc, pos, true, eqb_ℤ, ◌||◌, List, [], ◌∷◌, ◌++◌, get_elem?, Option, none, some, ◌>>=◌,
  if◌then◌else◌,
}
use fury_clash.Prelude.Text.{codes, print_int}
use fury_clash.Network.Os.{Os}
use fury_clash.Network.Url.{fit}
use fury_clash.Network.Http.{
  Blocking, HttpUrl, bad_http_url, http_url, http_parse_ws_url, Posted, http_post,
}
use fury_clash.Network.Rollback.{Engine}
use fury_clash.Network.Client.{Session}
use fury_clash.Network.Client.Connect.{net_client_configure, net_client_connect}
use fury_clash.Lobby.{Lobby, ls_role, ls_show_code}

-- `SDL_rand` of a bound
pub record Dice (os : Os) : Type 0 where
  pub rand : ℕ → os.World → ℕ × os.World

abbrev pub alphabet : List ℕ
alphabet = codes "ABCDEFGHJKLMNPQRSTUVWXYZ23456789"

-- `"…%s…"` with the code in three places
unfoldable pub room_body : List ℕ → List ℕ
room_body code = fit 256 (
    (codes "{\"roomId\":\"" ++ code)
    ++ ((codes "\",\"p1Id\":\"" ++ code)
        ++ ((codes "P1\",\"p2Id\":\"" ++ code) ++ codes "P2\",\"p1Fighter\":0,\"p2Fighter\":0}")))

-- the role screen again, with a message
unfoldable pub creation_failed : List ℕ → Lobby → Lobby
creation_failed msg l = record l { error_msg = fit 128 msg; sub = ls_role }

module _ (os : Os) (dice : Dice os) where
  open os use {World}
  open dice use {rand}

  -- the loop of `gen_room_code`, with `left` characters to go
  unfoldable pub code_chars : ℕ → World → Option (List ℕ × World)
  code_chars zero w = some ([], w)
  code_chars (suc left) w = do
    c ← get_elem? alphabet (rand 32 w).0
    (rest, w') ← code_chars left (rand 32 w).1
    some (c ∷ rest, w')

  unfoldable pub gen_room_code : World → Option (List ℕ × World)
  gen_room_code w = code_chars 6 w

  module _ (net : Blocking os) (en : Engine) where
    abbrev Net : Type 0
    Net = Session os en

    -- the status 200 or 201: this player is P1 of the new room
    unfoldable pub room_created : Lobby × Net → Option (Lobby × Net)
    room_created (l, s) =
        net_client_configure os en (some l.server_url) (some l.room_code)
          (some (fit 16 (l.room_code ++ codes "P1"))) (pos 0) s
        >>= λ s1. net_client_connect os en none s1 >>= λ r.
            some (record l { is_p1 = true; sub = ls_show_code; error_msg = [] }, r.1)

    unfoldable pub after_post : Lobby → Net → Posted os → Option (Lobby × Net)
    after_post l s p =
        let s' = record s { world = p.world } in
        let msg = codes "Room creation failed (HTTP " ++ (print_int p.status ++ codes ")") in
        let made = room_created (l, s') in
        if eqb_ℤ p.status (pos 200) || eqb_ℤ p.status (pos 201)
        then made
        else some (creation_failed msg l, s')

    abbrev pub post_room : ℕ → Lobby → Net → HttpUrl → Option (Lobby × Net)
    post_room fuel l s bad_http_url = some (creation_failed (codes "Invalid server URL") l, s)
    post_room fuel l s (http_url host port) =
        http_post os net fuel host port (codes "/rooms") (room_body l.room_code) 512 s.world
        >>= λ p. after_post l s p

    -- with the code written
    unfoldable pub create_with : ℕ → Lobby → Net → Option (Lobby × Net)
    create_with fuel l s = http_parse_ws_url 128 l.server_url >>= λ u. post_room fuel l s u

    unfoldable pub lobby_create_room : ℕ → Lobby × Net → Option (Lobby × Net)
    lobby_create_room fuel (l, s) = gen_room_code s.world >>= λ (c : List ℕ × World).
        create_with fuel (record l { room_code = c.0 }) (record s { world = c.1 })
