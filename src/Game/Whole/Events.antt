-- ===== src/Game/Whole/Events.antt =====
-- The events of a frame and the bytes received: what they keep.
use mathlib.Core.Path.{subst}
use fury_clash.Prelude.{
  refl, ◌&&◌, List, [], ◌∷◌, Option, some, OnSome, if◌then◌else◌, if_ind, Option-cases, inl, inr,
  arith,
}
use fury_clash.Floats.{Floats}
use fury_clash.Core.StateMachine.{gs_title, gs_lobby, gs_match_search, gs_results}
use fury_clash.Input.{InputEvent}
use fury_clash.Input.Laws.{event-AreInputs}
use fury_clash.Network.Os.{Os, IsStream}
use fury_clash.Network.Client.Receive.{net_client_receive}
use fury_clash.Network.Client.Intact.{net_client_receive-IsIntact}
use fury_clash.Network.Client.Calls.{disconnect-kept}
use fury_clash.Lobby.{Key, lobby_init, lobby_handle_key}
use fury_clash.Lobby.Fields.{HasFields, lobby_handle_text_input-HasFields}
use fury_clash.Lobby.Touch.{lobby_handle_touch}
use fury_clash.Lobby.Kept.{IsKept, key-IsKept, touch-IsKept}
use fury_clash.Game.{App, game_engine, on_screen}
use fury_clash.Game.Tick.{
  Event, quit, nothing, click, typed, key_pressed, is_confirm, is_escape, lobby_event, title_key,
  search_key, results_key, screen_event, handle_event, handle_events, receive_frame,
}
use fury_clash.Game.Whole.{IsApp, request-IsApp}

module _ (fl : Floats) (os : Os) where
  open fl use {Float}

  abbrev A : Type 0
  A = App fl os

  abbrev Good : A → Type 0
  Good a = IsApp fl os a

  lobby_event-IsApp : (ev : Event Float) (a : A) → Good a → OnSome Good (lobby_event fl os ev a)
  unfolding lobby_event
  lobby_event-IsApp (click x y) a k =
      let h = touch-IsKept os (game_engine fl) fl x y (a.lobby, a.net) k.kept in
      elim (Option-cases (lobby_handle_touch fl os (game_engine fl) x y (a.lobby, a.net))) [
        | inl n ↦ rw n tt
        | inr (r, e) ↦ rw e (record {
          kept = subst (OnSome (IsKept os (game_engine fl))) e h;
          inputs = k.inputs;
          shown = k.shown;
        })
      ]
  lobby_event-IsApp (typed text) a k = record {
    kept = (lobby_handle_text_input-HasFields text a.lobby k.kept.0, k.kept.1);
    inputs = k.inputs;
    shown = k.shown;
  }
  lobby_event-IsApp (key_pressed key) a k =
      let h = key-IsKept os (game_engine fl) key (a.lobby, a.net) k.kept in
      elim (Option-cases (lobby_handle_key os (game_engine fl) key (a.lobby, a.net))) [
        | inl n ↦ rw n tt
        | inr (r, e) ↦ rw e (record {
          kept = subst (OnSome (IsKept os (game_engine fl))) e h;
          inputs = k.inputs;
          shown = k.shown;
        })
      ]
  lobby_event-IsApp quit a k = k
  lobby_event-IsApp nothing a k = k

  pub lobby_init-HasFields : HasFields lobby_init
  unfolding lobby_init
  lobby_init-HasFields = (omega arith, omega arith)

  title-IsApp : (key : Key) (a : A) → Good a → Good (title_key fl os key a)
  unfolding title_key
  title-IsApp key a k =
      if_ind Good (is_confirm key && on_screen gs_title a.screen)
        (λ _. request-IsApp fl os gs_lobby a refl k) (λ _. k)

  search_key-IsApp : (key : Key) (a : A) → Good a → Good (search_key fl os key a)
  unfolding search_key
  search_key-IsApp key a k =
      if_ind Good (is_escape key && on_screen gs_match_search a.screen)
        (λ _. request-IsApp fl os gs_title _ refl (record {
          kept = (k.kept.0, disconnect-kept os (game_engine fl) a.net k.kept.1);
          inputs = k.inputs;
          shown = k.shown;
        }))
        (λ _. k)

  results_key-IsApp : (key : Key) (a : A) → Good a → Good (results_key fl os key a)
  unfolding results_key
  results_key-IsApp key a k =
      if_ind Good (is_confirm key && on_screen gs_results a.screen)
        (λ _. request-IsApp fl os gs_lobby _ refl (record {
          kept = (lobby_init-HasFields, disconnect-kept os (game_engine fl) a.net k.kept.1);
          inputs = k.inputs;
          shown = k.shown;
        }))
        (λ _. k)

  screen_event-IsApp : (ev : Event Float) (a : A) → Good a → Good (screen_event fl os ev a)
  unfolding screen_event
  screen_event-IsApp (key_pressed key) a k =
      results_key-IsApp key _ (search_key-IsApp key _ (title-IsApp key a k))
  screen_event-IsApp quit a k = record { kept = k.kept; inputs = k.inputs; shown = k.shown }
  screen_event-IsApp nothing a k = k
  screen_event-IsApp (click x y) a k = k
  screen_event-IsApp (typed text) a k = k

  handle_event-IsApp :
      (ev : Event Float × InputEvent Float) (a : A) → Good a → OnSome Good (handle_event fl os ev a)
  unfolding handle_event
  handle_event-IsApp (ev, input) a k =
      let o : Option A = if on_screen gs_lobby a.screen then lobby_event fl os ev a else some a in
      let h : OnSome Good o =
        if_ind (OnSome Good) (on_screen gs_lobby a.screen) (λ _. lobby_event-IsApp ev a k)
          (λ _. k) in
      elim (Option-cases o) [
        | inl n ↦ rw n tt
        | inr (b, e) ↦
            let c = screen_event fl os ev b in
            let g = screen_event-IsApp ev b (subst (OnSome Good) e h) in
            rw e (record {
              kept = g.kept;
              inputs = event-AreInputs fl input c.devices g.inputs;
              shown = g.shown;
            })
      ]

  pub events-IsApp :
      (evs : List (Event Float × InputEvent Float)) (a : A)
      → Good a
      → OnSome Good (handle_events fl os evs a)
  unfolding handle_events
  events-IsApp [] a k = k
  events-IsApp (ev ∷ evs) a k = elim (Option-cases (handle_event fl os ev a)) [
    | inl n ↦ rw n tt
    | inr (b, e) ↦ rw e (events-IsApp evs b (subst (OnSome Good) e (handle_event-IsApp ev a k)))
  ]

  pub receive-IsApp : IsStream os → (a : A) → Good a → OnSome Good (receive_frame fl os a)
  unfolding receive_frame
  receive-IsApp stream a k = elim (Option-cases (net_client_receive os (game_engine fl) a.net)) [
    | inl n ↦ rw n tt
    | inr (s, e) ↦ rw e (record {
      kept = (k.kept.0, net_client_receive-IsIntact os (game_engine fl) a.net stream k.kept.1 e);
      inputs = k.inputs;
      shown = k.shown;
    })
  ]
