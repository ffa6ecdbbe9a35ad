-- ===== src/Game/Whole/Frame.antt =====
-- The whole frame of main.c, and every state that frames lead to.
use mathlib.Core.Path.{subst}
use fury_clash.Prelude.{ℕ, Bool, List, Option, some, OnSome, Option-cases, inl, inr}
use fury_clash.Floats.{Floats}
use fury_clash.Core.GameLoop.{gameloop_begin_frame}
use fury_clash.Input.{InputEvent}
use fury_clash.Input.Gamepad.{PadButton}
use fury_clash.Network.Os.{Os, IsStream}
use fury_clash.Network.Http.{Blocking}
use fury_clash.Lobby.Create.{Dice}
use fury_clash.Game.{App, lobby_frame, match_search_frame, results_frame}
use fury_clash.Game.Tick.{Event, handle_events, receive_frame, main_frame}
use fury_clash.Game.Whole.Events.{events-IsApp, receive-IsApp}
use fury_clash.Game.Whole.Ticks.{run_ticks-Returns}
use fury_clash.Game.Whole.{IsApp, search-IsApp, results-IsApp, lobby_frame-IsApp}

module _ (fl : Floats) (os : Os) where
  open fl use {Float}

  abbrev A : Type 0
  A = App fl os

  abbrev Good : A → Type 0
  Good a = IsApp fl os a

  module _ (net : Blocking os) (dice : Dice os) where
    -- What comes of the game after some frames, on whatever events, inputs and bytes: the game, or
    -- `none` where the last of them made an access that C leaves undefined.
    pub data Frames (first : A) : Option A → Type 0 where
      begun : Frames first (some first)
      frame :
          {a : A} (fuel now : ℕ) (evs : List (Event Float × InputEvent Float))
          (held : PadButton → Bool)
          → Frames first (some a)
          → Frames first (main_frame fl os net dice fuel now evs held a)

    frame-IsApp :
        (stream : IsStream os) (fuel now : ℕ) (evs : List (Event Float × InputEvent Float))
        (held : PadButton → Bool) (a : A)
        → Good a
        → OnSome Good (main_frame fl os net dice fuel now evs held a)
    unfolding main_frame
    frame-IsApp stream fuel now evs held a k = elim (Option-cases (handle_events fl os evs a)) [
      | inl n ↦ rw n tt
      | inr (b, eb) ↦
          let kb = subst (OnSome Good) eb (events-IsApp fl os evs a k) in
          elim (Option-cases (receive_frame fl os b)) [
            | inl n ↦ rw (eb, n) tt
            | inr (c, ec) ↦
                let kc = subst (OnSome Good) ec (receive-IsApp fl os stream b kb) in
                elim (Option-cases (lobby_frame fl os net dice fuel c)) [
                  | inl n ↦ rw (eb, ec, n) tt
                  | inr (d, ed) ↦
                      let kd =
                        subst (OnSome Good) ed (lobby_frame-IsApp fl os net dice fuel c kc) in
                      let e = results_frame fl os (match_search_frame fl os d) in
                      let ke =
                        results-IsApp fl os (match_search_frame fl os d)
                          (search-IsApp fl os d kd) in
                      let f : A = record e { loop = (gameloop_begin_frame fl now e.loop).1 } in
                      let kf : Good f = record {
                        kept = ke.kept;
                        inputs = ke.inputs;
                        shown = ke.shown;
                      } in
                      let (g, eg, kg) = run_ticks-Returns fl os 5 held f kf in
                      rw (eb, ec, ed, eg) kg
                ]
          ]
    ]

    -- From a game that is sound, frames lead to a sound game or to an undefined access.
    pub Frames-IsApp :
        IsStream os
        → (first : A) → IsApp fl os first
        → (o : Option A) → Frames first o
        → OnSome Good o
    Frames-IsApp stream first k _ begun = k
    Frames-IsApp stream first k _ (frame {a = a} fuel now evs held r) =
        frame-IsApp stream fuel now evs held a (Frames-IsApp stream first k (some a) r)
