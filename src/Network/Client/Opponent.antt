-- ===== src/Network/Client/Opponent.antt =====
-- What the client sends leaves the opponent's loadout as it was received.
use fury_clash.Prelude.{
  ℕ, zero, suc, ◌+◌, ◌≡◌, refl, ltb, ltb_ℤ, ℤ, pos, not, ◌||◌, List, [], ◌∷◌, length, drop, if_ind,
}
use fury_clash.Network.Os.{Os, SendResult, took, send_blocks, send_fails}
use fury_clash.Network.Frame.{ws_encode_frame}
use fury_clash.Network.Rollback.{Engine}
use fury_clash.Network.Client.{
  Session, with_state, after_send, send_loop, ws_send, is_open, net_client_send_loadout,
}

module _ (os : Os) (en : Engine) where
  abbrev S : Type 0
  S = Session os en

  abbrev Same : S → S → Type 0
  Same s s' = (s'.client).opponent_loadout ≡ (s.client).opponent_loadout

  after_send-Same :
      (more : List ℕ → S → S)
      → ((l : List ℕ) (s : S) → Same s (more l s))
      → (x : ℕ) (rest : List ℕ) (r : SendResult) (s : S) → Same s (after_send os en more x rest r s)
  unfolding after_send with_state
  after_send-Same more ih x rest (took zero) s = refl
  after_send-Same more ih x rest (took (suc n)) s = ih (drop n rest) s
  after_send-Same more ih x rest send_blocks s = refl
  after_send-Same more ih x rest send_fails s = refl

  send_loop-Same : (fuel : ℕ) (l : List ℕ) (s : S) → Same s (send_loop os en fuel l s)
  unfolding send_loop
  send_loop-Same fuel [] s = refl
  send_loop-Same zero (x ∷ rest) s = refl
  send_loop-Same (suc fuel) (x ∷ rest) s =
      after_send-Same (λ l s'. send_loop os en fuel l s') (λ l s'. send_loop-Same fuel l s') x rest
        (os.send (s.client).fd (x ∷ rest) s.world).0
        (record s { world = (os.send (s.client).fd (x ∷ rest) s.world).1 })

  ws_send-Same : (payload : List ℕ) (s : S) → Same s (ws_send os en payload s)
  unfolding ws_send
  ws_send-Same payload s =
      let frame = ws_encode_frame (os.ticks s.world) payload in
      if_ind (Same s) (ltb_ℤ (s.client).fd (pos 0) || not (is_open (s.client).hs)) (λ _. refl)
        (λ _.
          if_ind (Same s) (ltb 4112 (length payload + 16)) (λ _. refl)
            (λ _. send_loop-Same (length frame) frame s))

  -- A call that tells the opponent the loadout keeps the one received from it.
  pub send_loadout_keeps :
      (lt : ℤ) (s : S)
      → ((net_client_send_loadout os en lt s).client).opponent_loadout ≡ (s.client).opponent_loadout
  unfolding net_client_send_loadout
  send_loadout_keeps lt s =
      if_ind (Same s) (not (is_open (s.client).hs)) (λ _. refl) (λ _. ws_send-Same _ s)
