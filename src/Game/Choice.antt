-- ===== src/Game/Choice.antt =====
-- From the key that chooses a loadout to the fight.
use fury_clash.Prelude.{ℕ, ◌≡◌, leb_ℤ, ℤ, pos, true, false, some}
use fury_clash.Floats.{Floats}
use fury_clash.Gameplay.Simulation.{simulation_init}
use fury_clash.Core.StateMachine.{gs_fight, gs_lobby, gs_count, statemachine_tick}
use fury_clash.Input.{InputEvent, input_handle_event}
use fury_clash.Network.Os.{Os}
use fury_clash.Network.Http.{Blocking}
use fury_clash.Network.Client.{net_client_send_loadout}
use fury_clash.Lobby.{Key, key_f, key_r, ls_loadout, ls_ready}
use fury_clash.Lobby.Create.{Dice}
use fury_clash.Game.{App, game_engine, on_screen, lobby_frame}

-- F chooses the first loadout and R the second.
pub data Names : Key → ℤ → Type 0 where
  fire : Names key_f (pos 1)
  frost : Names key_r (pos 2)

module _ (fl : Floats) (os : Os) where
  open fl use {Float}

  abbrev A : Type 0
  A = App fl os

  -- The loadouts of P1 and P2 where this player has chosen `choice`: in local play it is P1, and P2
  -- has none; over the network the player who made the room is P1, and the opponent's loadout has
  -- arrived.
  pub data Sides (a : A) (choice : ℤ) : ℤ → ℤ → Type 0 where
    alone : (a.lobby).local_mode ≡ true → Sides a choice choice (pos 0)
    host :
        {theirs : ℤ}
        → (a.lobby).local_mode ≡ false
        → (a.lobby).is_p1 ≡ true
        → ((a.net).client).opponent_loadout ≡ theirs
        → leb_ℤ (pos 0) theirs ≡ true
        → Sides a choice choice theirs
    guest :
        {theirs : ℤ}
        → (a.lobby).local_mode ≡ false
        → (a.lobby).is_p1 ≡ false
        → ((a.net).client).opponent_loadout ≡ theirs
        → leb_ℤ (pos 0) theirs ≡ true
        → Sides a choice theirs choice

  -- the loadout screen with nothing chosen
  pub record IsOpen (a : A) : Type 0 where
    pub here : on_screen gs_lobby a.screen ≡ true
    pub choosing : (a.lobby).sub ≡ ls_loadout
    pub unset : (a.lobby).my_loadout ≡ pos 0
    pub unsent : (a.lobby).loadout_sent ≡ false

  -- what the key makes of it in local play, and over the network
  abbrev alone_with : ℤ → InputEvent Float → A → A
  alone_with choice input a = record a {
    lobby = record (a.lobby) { my_loadout = choice };
    devices = input_handle_event fl input a.devices;
  }

  abbrev sent_with : ℤ → InputEvent Float → A → A
  sent_with choice input a = record a {
    lobby = record (a.lobby) { my_loadout = choice; loadout_sent = true };
    net = net_client_send_loadout os (game_engine fl) choice a.net;
    devices = input_handle_event fl input a.devices;
  }

  -- the app in the fight, if the next frame and the next tick follow the key
  abbrev Fought : (net : Blocking os) (dice : Dice os) (fuel : ℕ) (l1 l2 : ℤ) → A → Type 0
  Fought net dice fuel l1 l2 b =
      (c : A) × (lobby_frame fl os net dice fuel b ≡ some c)
      × (c.sim ≡ simulation_init fl (pos 0) (pos 1) l1 l2)
      × ((c.lobby).sub ≡ ls_ready)
      × (statemachine_tick c.screen
          ≡ record { current = gs_fight; pending = gs_count; transition_frame = 1 })
