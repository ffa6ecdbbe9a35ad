-- ===== src/Game/Whole/Fight.antt =====
-- The frames of a fight in which no byte arrives.
use mathlib.Core.Bool.{true≢false}
use mathlib.Core.Path.{subst}
use fury_clash.Prelude.{
  ℕ, ◌-◌, ◌≡◌, refl, sym, ap, ◌∙◌, leb, ◌==◌, ltb_ℤ, pos, Bool, true, false, not, ◌&&◌, ◌||◌, List,
  [], ◌∷◌, Option, some, OnSome, if_ind,
}
use fury_clash.Floats.{Floats}
use fury_clash.Core.StateMachine.{
  GameState, StateMachine, game_state_code, gs_title, gs_lobby, gs_match_search, gs_fight,
  gs_results,
}
use fury_clash.Core.GameLoop.{gameloop_begin_frame}
use fury_clash.Input.{InputEvent, input_handle_event}
use fury_clash.Input.Gamepad.{PadButton}
use fury_clash.Network.Os.{Os, IsStream, RecvResult, received, recv_blocks, recv_fails}
use fury_clash.Network.Http.{Blocking}
use fury_clash.Network.Frame.{ws_recv_buf}
use fury_clash.Network.Client.{Session, hs_code}
use fury_clash.Network.Client.Receive.{after_recv, read_socket, net_client_receive}
use fury_clash.Lobby.{Key}
use fury_clash.Lobby.Create.{Dice}
use fury_clash.Game.{App, game_engine, on_screen, lobby_frame, match_search_frame, results_frame}
use fury_clash.Game.Tick.{
  Event, quit, nothing, click, typed, key_pressed, is_confirm, is_escape, title_key, search_key,
  results_key, screen_event, handle_event, handle_events, receive_frame, main_frame,
}
use fury_clash.Game.Whole.{IsApp, search-IsApp, results-IsApp}
use fury_clash.Game.Whole.Events.{events-IsApp, receive-IsApp}
use fury_clash.Game.Whole.Ticks.{run_ticks-Returns}

-- whether bytes came
abbrev pub brings : RecvResult → Bool
brings (received (x ∷ b)) = true
brings _ = false

and_off : (x y : Bool) → y ≡ false → (x && y) ≡ false
and_off true y h = h
and_off false y h = refl

elsewhere :
    (other : GameState) (sm : StateMachine)
    → sm.current ≡ gs_fight
    → (game_state_code gs_fight == game_state_code other) ≡ false
    → on_screen other sm ≡ false
elsewhere other sm on differ = ap (λ s. game_state_code s == game_state_code other) on ∙ differ

module _ (fl : Floats) (os : Os) where
  open fl use {Float}

  abbrev A : Type 0
  A = App fl os

  abbrev S : Type 0
  S = Session os (game_engine fl)

  -- no byte comes, however many are asked for
  abbrev pub IsQuiet : S → Type 0
  IsQuiet s = (n : ℕ) → brings (os.recv (s.client).fd n s.world).0 ≡ false

  abbrev Returns : Option S → Type 0
  Returns o = (s : S) × (o ≡ some s)

  after_recv-Returns :
      (r : RecvResult) (s : S) → brings r ≡ false → Returns (after_recv os (game_engine fl) r s)
  after_recv-Returns recv_blocks s h = (_, refl)
  after_recv-Returns recv_fails s h = (_, refl)
  after_recv-Returns (received []) s h = (_, refl)
  after_recv-Returns (received (x ∷ b)) s h = absurd (true≢false h)

  read_socket-Returns : (s : S) → IsQuiet s → Returns (read_socket os (game_engine fl) s)
  unfolding read_socket
  read_socket-Returns s quiet =
      if_ind Returns (leb ws_recv_buf (s.client).rbuf_head) (λ _. (_, refl))
        (λ _. after_recv-Returns _ _ (quiet (ws_recv_buf - (s.client).rbuf_head)))

  receive-Returns : (s : S) → IsQuiet s → Returns (net_client_receive os (game_engine fl) s)
  unfolding net_client_receive
  receive-Returns s quiet =
      if_ind Returns (not (s.client).configured || ltb_ℤ (s.client).fd (pos 0)) (λ _. (_, refl))
        (λ _.
          if_ind Returns (hs_code (s.client).hs == 1) (λ _. (_, refl))
            (λ _. read_socket-Returns s quiet))

  key_ignored :
      (key : Key) (a : A)
      → (a.screen).current ≡ gs_fight
      → screen_event fl os (key_pressed key) a ≡ a
  unfolding screen_event title_key search_key results_key
  key_ignored key a on =
      rw
        (
          and_off (is_confirm key) (on_screen gs_title a.screen)
              (elsewhere gs_title a.screen on refl),
          and_off (is_escape key) (on_screen gs_match_search a.screen)
              (elsewhere gs_match_search a.screen on refl),
          and_off (is_confirm key) (on_screen gs_results a.screen)
              (elsewhere gs_results a.screen on refl),
        )
        refl

  -- an event that leaves the screen and the network
  abbrev Stays : A → Option A → Type 0
  Stays a o = (b : A) × (o ≡ some b) × (b.screen ≡ a.screen) × (b.net ≡ a.net)

  screen_same :
      (ev : Event Float) (a : A)
      → (a.screen).current ≡ gs_fight
      → ((screen_event fl os ev a).screen ≡ a.screen) × ((screen_event fl os ev a).net ≡ a.net)
  unfolding screen_event
  screen_same quit a on = (refl, refl)
  screen_same nothing a on = (refl, refl)
  screen_same (click x y) a on = (refl, refl)
  screen_same (typed text) a on = (refl, refl)
  screen_same (key_pressed key) a on =
      let same = key_ignored key a on in (ap (λ (b : A). b.screen) same, ap (λ (b : A). b.net) same)

  event-Stays :
      (ev : Event Float × InputEvent Float) (a : A)
      → (a.screen).current ≡ gs_fight
      → Stays a (handle_event fl os ev a)
  unfolding handle_event
  event-Stays (ev, input) a on =
      let out = elsewhere gs_lobby a.screen on refl in
      let same = screen_same ev a on in
      let c = screen_event fl os ev a in
      (record c { devices = input_handle_event fl input c.devices }, rw out refl, same.0, same.1)

  events-Stays :
      (evs : List (Event Float × InputEvent Float)) (a : A)
      → (a.screen).current ≡ gs_fight
      → Stays a (handle_events fl os evs a)
  unfolding handle_events
  events-Stays [] a on = (a, refl, refl, refl)
  events-Stays (ev ∷ evs) a on =
      let (b, e, screen, net) = event-Stays ev a on in
      let (c, e', screen', net') =
        events-Stays evs b (ap (λ (sm : StateMachine). sm.current) screen ∙ on) in
      (c, rw e e', screen' ∙ screen, net' ∙ net)

  out_of_lobby :
      (net : Blocking os) (dice : Dice os) (fuel : ℕ) (a : A)
      → (a.screen).current ≡ gs_fight
      → lobby_frame fl os net dice fuel a ≡ some a
  unfolding lobby_frame
  out_of_lobby net dice fuel a on = rw (elsewhere gs_lobby a.screen on refl) refl

  received_frame :
      (a : A) (s : S)
      → net_client_receive os (game_engine fl) a.net ≡ some s
      → receive_frame fl os a ≡ some (record a { net = s })
  unfolding receive_frame
  received_frame a s e = rw e refl

  -- In a fight of a sound game, a frame in which recv, when it is asked, brings no byte (it would
  -- block, it fails or the stream has ended) returns, with no access that C leaves undefined, and
  -- the game is sound again, whatever events there are, whatever is held and however late it is.
  pub fight_frame-Returns :
      (net : Blocking os) (dice : Dice os) (stream : IsStream os) (fuel now : ℕ)
      (evs : List (Event Float × InputEvent Float)) (held : PadButton → Bool) (a : A)
      → IsApp fl os a
      → (a.screen).current ≡ gs_fight
      → IsQuiet a.net
      → (b : A) × (main_frame fl os net dice fuel now evs held a ≡ some b) × IsApp fl os b
  unfolding main_frame
  fight_frame-Returns net dice stream fuel now evs held a k on quiet =
      let (b, eb, screen, same) = events-Stays evs a on in
      let kb = subst (OnSome (IsApp fl os)) eb (events-IsApp fl os evs a k) in
      let (s, es) = receive-Returns b.net (subst IsQuiet (sym same) quiet) in
      let c : A = record b { net = s } in
      let ec : receive_frame fl os b ≡ some c = received_frame b s es in
      let kc = subst (OnSome (IsApp fl os)) ec (receive-IsApp fl os stream b kb) in
      let ed = out_of_lobby net dice fuel c (ap (λ (sm : StateMachine). sm.current) screen ∙ on) in
      let e = results_frame fl os (match_search_frame fl os c) in
      let ke = results-IsApp fl os (match_search_frame fl os c) (search-IsApp fl os c kc) in
      let f : A = record e { loop = (gameloop_begin_frame fl now e.loop).1 } in
      let kf : IsApp fl os f = record { kept = ke.kept; inputs = ke.inputs; shown = ke.shown } in
      let (g, eg, kg) = run_ticks-Returns fl os 5 held f kf in (g, rw (eb, ec, ed, eg) refl, kg)
