-- ===== src/Render/Buttons.antt =====
-- The touch handler of the lobby reacts where its buttons and fields are drawn.
use mathlib.Core.Path.{subst}
use mathlib.Core.List.{append-nil}
use fury_clash.Prelude.{
  ℕ, ◌+◌, ◌^◌, ◌≤◌, ℤ, Bool, false, ◌&&◌, List, [], ◌∷◌, ◌++◌, take, drop, some, All, ◌≡◌, refl, ap,
  ◌∙◌, arith,
}
use fury_clash.Floats.{Floats, IsIeee}
use fury_clash.Gameplay.Types.{Rect}
use fury_clash.Network.Os.{Os}
use fury_clash.Network.Rollback.{Engine}
use fury_clash.Network.Client.{NetState, Session}
use fury_clash.Lobby.{
  Lobby, LobbySubState, ls_setup, ls_role, ls_creating, ls_show_code, ls_enter_code, ls_waiting,
  ls_loadout, ls_ready,
}
use fury_clash.Lobby.Touch.{
  inside, setup_touch, create_button, join_button, local_button, role_touch, code_touch,
  fire_button, frost_button, touch_in, lobby_handle_touch,
}
use fury_clash.Render.{Draw, color, clear, present, fill, outline, text, fills, rect}
use fury_clash.Render.Lobby.{
  draw_field, draw_button, render_setup, render_role, render_creating, draw_code, code_status,
  render_show_code, render_enter_code, render_waiting, draw_pick, draw_opponent, draw_local,
  render_loadout, render_sub, draw_heading, draw_url, render_lobby,
}

module _ {F : Type 0} where
  fills-append : (a b : List (Draw F)) → fills (a ++ b) ≡ fills a ++ fills b
  fills-append [] b = refl
  fills-append (color r g b' a ∷ ds) b = fills-append ds b
  fills-append (clear ∷ ds) b = fills-append ds b
  fills-append (present ∷ ds) b = fills-append ds b
  fills-append (fill r ∷ ds) b = ap (λ rs. r ∷ rs) (fills-append ds b)
  fills-append (outline r ∷ ds) b = fills-append ds b
  fills-append (text x y s ∷ ds) b = fills-append ds b

  -- a call that fills nothing
  abbrev IsPlain : List (Draw F) → Type 0
  IsPlain ds = fills ds ≡ []

  plain_before : (a b : List (Draw F)) → IsPlain a → fills (a ++ b) ≡ fills b
  plain_before a b h = rw (fills-append a b, h)

  plain_behind : (a b : List (Draw F)) → IsPlain b → fills (a ++ b) ≡ fills a
  plain_behind a b h = fills-append a b ∙ (rw h (append-nil (fills a)))

module _ (fl : Floats) where
  open fl use {Float, of_int, add, fle}

  -- the point lies in the rectangle, its edge included
  abbrev pub covers : Rect Float → Float → Float → Bool
  covers r tx ty = (fle r.x tx && fle tx (add r.x r.w)) && (fle r.y ty && fle ty (add r.y r.h))

  -- the rectangles that a screen fills
  abbrev boxes : LobbySubState → List (Rect Float)
  boxes ls_setup = rect fl 160 220 960 70 ∷ rect fl 490 380 300 70 ∷ []
  boxes ls_role = rect fl 100 300 340 90 ∷ rect fl 480 300 340 90 ∷ rect fl 860 300 320 90 ∷ []
  boxes ls_show_code = rect fl 280 240 720 120 ∷ []
  boxes ls_enter_code =
      rect fl 340 270 600 70 ∷ rect fl 480 390 320 70 ∷ rect fl 120 390 200 70 ∷ []
  boxes ls_loadout = rect fl 160 260 380 130 ∷ rect fl 740 260 380 130 ∷ []
  boxes _ = []

  heading-IsPlain : (l : Lobby) → IsPlain (draw_heading fl l)
  unfolding draw_heading
  heading-IsPlain l = ground arith

  url-IsPlain : (l : Lobby) → IsPlain (draw_url fl l)
  unfolding draw_url
  url-IsPlain l = ground arith

  chars-IsPlain : (i : ℕ) (cs : List ℕ) → IsPlain (draw_code fl i cs)
  unfolding draw_code
  chars-IsPlain i [] = refl
  chars-IsPlain i (c ∷ cs) = chars-IsPlain (i + 1) cs

  status-IsPlain : (ns : NetState) (ticks : ℕ) → IsPlain (code_status fl ns ticks)
  unfolding code_status
  status-IsPlain ns ticks = ground arith

  waiting-IsPlain : (ns : NetState) → IsPlain (render_waiting fl ns)
  unfolding render_waiting
  waiting-IsPlain ns = ground arith

  pick-IsPlain : (l : Lobby) → IsPlain (draw_pick fl l)
  unfolding draw_pick
  pick-IsPlain l = ground arith

  opponent-IsPlain : (opp : ℤ) (l : Lobby) → IsPlain (draw_opponent fl opp l)
  unfolding draw_opponent
  opponent-IsPlain opp l = ground arith

  local-IsPlain : (l : Lobby) → IsPlain (draw_local fl l)
  unfolding draw_local
  local-IsPlain l = ground arith

  fills-sub :
      (ns : NetState) (opp : ℤ) (ticks : ℕ) (sub : LobbySubState) (l : Lobby)
      → fills (render_sub fl ns opp ticks sub l) ≡ boxes sub
  unfolding render_setup render_role render_creating render_show_code render_enter_code
      render_loadout draw_field draw_button
  fills-sub ns opp ticks ls_setup l = refl
  fills-sub ns opp ticks ls_role l = refl
  fills-sub ns opp ticks ls_creating l = refl
  fills-sub ns opp ticks ls_show_code l =
      ap (λ rs. rect fl 280 240 720 120 ∷ rs)
        (plain_before (draw_code fl 0 (take 6 l.room_code)) _ (chars-IsPlain 0 _)
          ∙ status-IsPlain ns ticks)
  fills-sub ns opp ticks ls_enter_code l = refl
  fills-sub ns opp ticks ls_waiting l = waiting-IsPlain ns
  fills-sub ns opp ticks ls_loadout l =
      ap (λ rs. rect fl 160 260 380 130 ∷ rect fl 740 260 380 130 ∷ rs)
        (plain_before (draw_pick fl l) _ (pick-IsPlain l)
          ∙ (plain_before (draw_opponent fl opp l) _ (opponent-IsPlain opp l) ∙ local-IsPlain l))
  fills-sub ns opp ticks ls_ready l = refl

  fills-render_lobby :
      (ns : NetState) (opp : ℤ) (ticks : ℕ) (l : Lobby)
      → fills (render_lobby fl ns opp ticks l) ≡ rect fl 0 0 1280 720 ∷ boxes l.sub
  unfolding render_lobby
  fills-render_lobby ns opp ticks l =
      ap (λ rs. rect fl 0 0 1280 720 ∷ rs)
        (plain_before (draw_heading fl l) _ (heading-IsPlain l)
          ∙ (plain_behind (render_sub fl ns opp ticks l.sub l) _ (url-IsPlain l)
              ∙ fills-sub ns opp ticks l.sub l))

  module _ (ieee : IsIeee fl) where
    open ieee use {exact_sum}

    abbrev Misses : Float → Float → Rect Float → Type 0
    Misses tx ty r = covers r tx ty ≡ false

    missed :
        (x w y h : ℕ) (tx ty : Float)
        → x + w ≤ 2 ^ 24
        → y + h ≤ 2 ^ 24
        → Misses tx ty (rect fl x y w h)
        → inside fl x (x + w) y (y + h) tx ty ≡ false
    unfolding inside
    missed x w y h tx ty hx hy e = rw (← exact_sum x w hx, ← exact_sum y h hy) e

    setup_missed :
        (l : Lobby) (tx ty : Float)
        → All (Misses tx ty) (boxes ls_setup)
        → setup_touch fl tx ty l ≡ l
    unfolding setup_touch
    setup_missed l tx ty (e1, (e2, _)) = rw (
      missed 160 960 220 70 tx ty (omega arith) (omega arith) e1,
      missed 490 300 380 70 tx ty (omega arith) (omega arith) e2,
    )

    role_missed :
        (l : Lobby) (tx ty : Float) → All (Misses tx ty) (boxes ls_role) → role_touch fl tx ty l ≡ l
    unfolding role_touch create_button join_button local_button
    role_missed l tx ty (e1, (e2, (e3, _))) = rw (
      missed 100 340 300 90 tx ty (omega arith) (omega arith) e1,
      missed 480 340 300 90 tx ty (omega arith) (omega arith) e2,
      missed 860 320 300 90 tx ty (omega arith) (omega arith) e3,
    )

    module _ (os : Os) (en : Engine) where
      code_missed :
          (tx ty : Float) (l : Lobby) (s : Session os en)
          → All (Misses tx ty) (boxes ls_enter_code)
          → code_touch fl os en tx ty (l, s) ≡ some (l, s)
      unfolding code_touch
      code_missed tx ty l s (e1, (e2, (e3, _))) = rw (
        missed 340 600 270 70 tx ty (omega arith) (omega arith) e1,
        missed 480 320 390 70 tx ty (omega arith) (omega arith) e2,
        missed 120 200 390 70 tx ty (omega arith) (omega arith) e3,
      )

      loadout_missed :
          (tx ty : Float) (p : Lobby × Session os en)
          → All (Misses tx ty) (boxes ls_loadout)
          → frost_button fl os en tx ty (fire_button fl os en tx ty p) ≡ p
      unfolding fire_button frost_button
      loadout_missed tx ty p (e1, (e2, _)) = rw (
        missed 160 380 260 130 tx ty (omega arith) (omega arith) e1,
        missed 740 380 260 130 tx ty (omega arith) (omega arith) e2,
      )

      sub_missed :
          (tx ty : Float) (sub : LobbySubState) (l : Lobby) (s : Session os en)
          → All (Misses tx ty) (boxes sub)
          → touch_in fl os en tx ty sub (l, s) ≡ some (l, s)
      sub_missed tx ty ls_setup l s h = ap (λ k. some (k, s)) (setup_missed l tx ty h)
      sub_missed tx ty ls_role l s h = ap (λ k. some (k, s)) (role_missed l tx ty h)
      sub_missed tx ty ls_creating l s h = refl
      sub_missed tx ty ls_show_code l s h = refl
      sub_missed tx ty ls_enter_code l s h = code_missed tx ty l s h
      sub_missed tx ty ls_waiting l s h = refl
      sub_missed tx ty ls_loadout l s h = ap some (loadout_missed tx ty (l, s) h)
      sub_missed tx ty ls_ready l s h = refl

      -- A touch that lies in none of the rectangles that `render_lobby` fills on top of its background
      -- changes nothing, on every screen of the lobby.
      pub touch_missed :
          (tx ty : Float) (ticks : ℕ) (l : Lobby) (s : Session os en)
          → All (Misses tx ty) (
              drop 1 (fills (render_lobby fl (s.client).state (s.client).opponent_loadout ticks l)))
          → lobby_handle_touch fl os en tx ty (l, s) ≡ some (l, s)
      unfolding lobby_handle_touch
      touch_missed tx ty ticks l s h =
          let drawn = fills-render_lobby (s.client).state (s.client).opponent_loadout ticks l in
          sub_missed tx ty l.sub l s (subst (λ rs. All (Misses tx ty) (drop 1 rs)) drawn h)
