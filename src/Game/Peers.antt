-- ===== src/Game/Peers.antt =====
-- The two clients of a match: when they play the same fight.
use fury_clash.Prelude.{
  ℕ, ◌%◌, ◌≡◌, refl, sym, ap, ap₂, ◌∙◌, leb_ℤ, ℤ, pos, Bool, true, false, length, set, some,
  if◌then◌else◌,
}
use fury_clash.Floats.{Floats}
use fury_clash.Gameplay.Types.{LoadoutType}
use fury_clash.Gameplay.Simulation.{SimState, simulation_init, simulation_tick}
use fury_clash.Input.{input_get_local}
use fury_clash.Network.Os.{Os}
use fury_clash.Network.Rollback.{
  Engine, Rollback, rollback_save, rollback_get_remote, rollback_needs_resim,
}
use fury_clash.Network.Rollback.Entry.{entry, entry_at_pos}
use fury_clash.Network.Client.{net_client_send_input}
use fury_clash.Lobby.{ls_loadout, is_unset}
use fury_clash.Game.{
  App, game_engine, opponent_choice, both_loadouts, start_fight, request, lobby_fight,
}
use fury_clash.Game.Flow.{chosen}
use fury_clash.Game.Tick.{seats, rewind_if_needed, advance, fight_tick}

pub save_returns :
    (en : Engine) (f : ℕ) (s : en.State) (r : Rollback en.State)
    → length r.buf ≡ 128
    → (r' : Rollback en.State) × (rollback_save en (pos f) s r ≡ some r')
unfolding rollback_save
save_returns en f s r h = (
  record r {
    buf = set r.buf (f % 128) (record (entry en r.buf (f % 128)) {
      snapshot = s;
      local_input = 0;
      remote_confirmed = false;
    });
  },
  rw (entry_at_pos en f r h) refl,
)

module _ (fl : Floats) (os : Os) where
  abbrev A : Type 0
  A = App fl os

  -- this player's input in the tick
  abbrev pub own_input : A → ℕ
  own_input a = input_get_local fl a.devices

  -- what `rollback_get_remote` gives in the tick
  abbrev pub Expects : A → ℕ → Type 0
  Expects a input =
      rollback_get_remote (game_engine fl) (pos (a.loop).current_frame) (a.net).ring ≡ some input

  -- a ring of 128 entries with no divergence marked
  abbrev pub IsSettled : A → Type 0
  IsSettled a =
      (length ((a.net).ring).buf ≡ 128)
      × (rollback_needs_resim (game_engine fl) (a.net).ring ≡ false)

  -- the tick returns, with the simulation one tick on
  abbrev Advanced : A → ℕ → Type 0
  Advanced a remote =
      (b : A) × (fight_tick fl os a ≡ some b)
      × (b.sim ≡ (
          let both = seats a.local_slot (own_input a) remote in
          simulation_tick fl a.sim both.0 both.1))

  advance-returns :
      (f local remote : ℕ) (a : A)
      → length ((a.net).ring).buf ≡ 128
      → (b : A) × (advance fl os (pos f) local remote a ≡ some b)
        × (b.sim ≡ (
            let both = seats a.local_slot local remote in simulation_tick fl a.sim both.0 both.1))
  unfolding advance
  advance-returns f local remote a h =
      let both = seats a.local_slot local remote in
      let s = simulation_tick fl a.sim both.0 both.1 in
      let (r, e) = save_returns (game_engine fl) f s (a.net).ring h in
      (
        record a {
          sim = s;
          net =
              net_client_send_input os (game_engine fl) (pos f) local (record (a.net) { ring = r });
        },
        rw e refl,
        refl,
      )

  fight_tick-advances : (a : A) (remote : ℕ) → IsSettled a → Expects a remote → Advanced a remote
  unfolding fight_tick rewind_if_needed
  fight_tick-advances a remote (size, calm) e =
      let (b, returns, s) = advance-returns (a.loop).current_frame (own_input a) remote a size in
      (b, rw (e, calm) returns, s)

  -- Two clients in the two slots of a match, with the same simulation and no divergence marked, each
  -- of which predicts or knows the other's input rightly: the fight's tick returns on both, and
  -- leaves them with the same simulation again.
  pub peers_agree :
      (a b : A)
      → a.local_slot ≡ pos 0
      → b.local_slot ≡ pos 1
      → a.sim ≡ b.sim
      → IsSettled a
      → IsSettled b
      → Expects a (own_input b)
      → Expects b (own_input a)
      → (a' b' : A) × (fight_tick fl os a ≡ some a')
        × (fight_tick fl os b ≡ some b')
        × (a'.sim ≡ b'.sim)
  peers_agree a b p1 p2 same oka okb ea eb =
      let (a', ra, sa) = fight_tick-advances a (own_input b) oka ea in
      let (b', rb, sb) = fight_tick-advances b (own_input a) okb eb in
      let seats_a = ap (λ (t : ℤ). seats t (own_input a) (own_input b)) p1 in
      let seats_b = ap (λ (t : ℤ). seats t (own_input b) (own_input a)) p2 in
      let tick_on : SimState fl.Float → ℕ × ℕ → SimState fl.Float =
        λ s t. simulation_tick fl s t.0 t.1 in
      (a', b', ra, rb, sa ∙ ap₂ tick_on same (seats_a ∙ sym seats_b) ∙ sym sb)

  abbrev init_of : LoadoutType × LoadoutType → SimState fl.Float
  init_of lts = simulation_init fl (pos 0) (pos 1) lts.0 lts.1

  start_fight-sim :
      (lts : LoadoutType × LoadoutType) (a : A) → (start_fight fl os lts a).sim ≡ init_of lts
  unfolding start_fight request
  start_fight-sim lts a = refl

  -- over the network, with the opponent's loadout `opp` received
  fight_of :
      (a : A) (opp : LoadoutType)
      → (a.lobby).sub ≡ ls_loadout
      → is_unset (a.lobby).my_loadout ≡ false
      → (a.lobby).local_mode ≡ false
      → ((a.net).client).opponent_loadout ≡ opp
      → leb_ℤ (pos 0) opp ≡ true
      → (lobby_fight fl os a).sim
        ≡ init_of
            (if (a.lobby).is_p1 then ((a.lobby).my_loadout, opp) else (opp, (a.lobby).my_loadout))
  fight_of a opp on mine online got good =
      let heard : opponent_choice fl os a ≡ opp =
        ap (λ (t : Bool). if t then pos 0 else ((a.net).client).opponent_loadout) online ∙ got in
      ap (λ (c : A). c.sim) (chosen fl os a on mine (ap (leb_ℤ (pos 0)) heard ∙ good))
      ∙ start_fight-sim (both_loadouts a.lobby (opponent_choice fl os a)) a
      ∙ ap (λ o. init_of (both_loadouts a.lobby o)) heard
      ∙ ap
          (λ (t : Bool). init_of (
            if t
            then ((a.lobby).my_loadout, pos 0)
            else if (a.lobby).is_p1
            then ((a.lobby).my_loadout, opp)
            else (opp, (a.lobby).my_loadout)))
          online

  -- Two clients on the loadout screen of a match over the network, of which the first made the room,
  -- both with a loadout chosen and that of the other received: the lobby starts the same fight on
  -- both.
  pub loadouts_agree :
      (a b : A)
      → (a.lobby).sub ≡ ls_loadout
      → (b.lobby).sub ≡ ls_loadout
      → (a.lobby).local_mode ≡ false
      → (b.lobby).local_mode ≡ false
      → (a.lobby).is_p1 ≡ true
      → (b.lobby).is_p1 ≡ false
      → is_unset (a.lobby).my_loadout ≡ false
      → is_unset (b.lobby).my_loadout ≡ false
      → leb_ℤ (pos 0) (a.lobby).my_loadout ≡ true
      → leb_ℤ (pos 0) (b.lobby).my_loadout ≡ true
      → ((a.net).client).opponent_loadout ≡ (b.lobby).my_loadout
      → ((b.net).client).opponent_loadout ≡ (a.lobby).my_loadout
      → (lobby_fight fl os a).sim ≡ (lobby_fight fl os b).sim
  loadouts_agree a b oa ob la lb pa pb ma mb ga gb ra rb =
      let x = (a.lobby).my_loadout in
      let y = (b.lobby).my_loadout in
      fight_of a y oa ma la ra gb
      ∙ ap (λ (p : Bool). init_of (if p then (x, y) else (y, x))) pa
      ∙ ap (λ (p : Bool). init_of (if p then (y, x) else (x, y))) (sym pb)
      ∙ sym (fight_of b x ob mb lb rb ga)
