-- ===== src/Lobby/Create/Kept.antt =====
-- The creation of a room keeps what the other handlers of the lobby keep.
use mathlib.Core.Path.{subst}
use fury_clash.Prelude.{
  ℕ, eqb_ℤ, pos, ◌||◌, List, ◌++◌, none, some, if_ind, OnSome, Option-cases, inl, inr,
}
use fury_clash.Prelude.Text.{codes}
use fury_clash.Network.Os.{Os}
use fury_clash.Network.Url.{fit}
use fury_clash.Network.Http.{
  Blocking, HttpUrl, bad_http_url, http_url, http_parse_ws_url, Posted, http_post,
}
use fury_clash.Network.Rollback.{Engine}
use fury_clash.Network.Client.{Session}
use fury_clash.Network.Client.Connect.{net_client_configure, net_client_connect}
use fury_clash.Network.Client.Intact.{IsIntact}
use fury_clash.Network.Client.Calls.{configure-kept, connect-kept}
use fury_clash.Lobby.{Lobby}
use fury_clash.Lobby.Fields.{HasFields}
use fury_clash.Lobby.Kept.{IsKept}
use fury_clash.Lobby.Create.{
  Dice, room_body, creation_failed, gen_room_code, room_created, after_post, post_room, create_with,
  lobby_create_room,
}

module _ (os : Os) (en : Engine) where
  abbrev P : Type 0
  P = Lobby × Session os en

  abbrev Kept : P → Type 0
  Kept p = IsKept os en p

  module _ (dice : Dice os) (net : Blocking os) where
    created-Kept : (p : P) → Kept p → OnSome Kept (room_created os dice net en p)
    unfolding room_created
    created-Kept (l, s) (f, g) =
        let id = some (fit 16 (l.room_code ++ codes "P1")) in
        let code = some l.room_code in
        let url = some l.server_url in
        elim (Option-cases (net_client_configure os en url code id (pos 0) s)) [
          | inl n ↦ rw n tt
          | inr (s1, e) ↦
              let g1 =
                subst (OnSome (IsIntact os en)) e (configure-kept os en url code id (pos 0) s g) in
              elim (Option-cases (net_client_connect os en none s1)) [
                | inl n ↦ rw (e, n) tt
                | inr (r, k) ↦
                    rw (e, k)
                      (f, subst (OnSome (λ r. IsIntact os en r.1)) k (connect-kept os en s1 g1))
              ]
        ]

    failed-HasFields : (msg : List ℕ) (l : Lobby) → HasFields l → HasFields (creation_failed msg l)
    unfolding creation_failed
    failed-HasFields msg l h = h

    after_post-Kept :
        (l : Lobby) (s : Session os en) (q : Posted os)
        → Kept (l, s)
        → OnSome Kept (after_post os dice net en l s q)
    unfolding after_post
    after_post-Kept l s q (f, g) =
        if_ind (OnSome Kept) (eqb_ℤ q.status (pos 200) || eqb_ℤ q.status (pos 201))
          (λ _. created-Kept (l, record s { world = q.world }) (f, g))
          (λ _. (failed-HasFields _ l f, g))

    post_room-Kept :
        (fuel : ℕ) (l : Lobby) (s : Session os en) (u : HttpUrl)
        → Kept (l, s)
        → OnSome Kept (post_room os dice net en fuel l s u)
    post_room-Kept fuel l s bad_http_url (f, g) = (failed-HasFields _ l f, g)
    post_room-Kept fuel l s (http_url host port) h =
        elim (Option-cases
          (http_post os net fuel host port (codes "/rooms") (room_body l.room_code) 512 s.world)) [
            | inl n ↦ rw n tt
            | inr (q, e) ↦ rw e (after_post-Kept l s q h)
          ]

    create_with-Kept :
        (fuel : ℕ) (l : Lobby) (s : Session os en)
        → Kept (l, s)
        → OnSome Kept (create_with os dice net en fuel l s)
    unfolding create_with
    create_with-Kept fuel l s h = elim (Option-cases (http_parse_ws_url 128 l.server_url)) [
      | inl n ↦ rw n tt
      | inr (u, e) ↦ rw e (post_room-Kept fuel l s u h)
    ]

    pub create-Kept :
        (fuel : ℕ) (p : P) → Kept p → OnSome Kept (lobby_create_room os dice net en fuel p)
    unfolding lobby_create_room
    create-Kept fuel (l, s) h = elim (Option-cases (gen_room_code os dice s.world)) [
      | inl n ↦ rw n tt
      | inr (c, e) ↦
          rw e (create_with-Kept fuel (record l { room_code = c.0 }) (record s { world = c.1 }) h)
    ]
