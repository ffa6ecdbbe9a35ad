-- ===== src/Network/Client/Pieces/Call.antt =====
-- One call of `net_client_receive` on an open connection.
use mathlib.Core.List.{append_assoc}
use fury_clash.Prelude.{
  ℕ, suc, ◌+◌, ◌-◌, ◌≤◌, ◌<◌, ◌≡◌, refl, ap, ◌∙◌, leb, List, [], ◌∷◌, ◌++◌, length, length-append,
  drop, take-append, false, true, not, ◌||◌, ltb_ℤ, pos, ◌==◌, some, All, arith,
}
use fury_clash.Network.Os.{Os, received}
use fury_clash.Network.Frame.{ws_recv_buf}
use fury_clash.Network.Frame.Stream.{stream, Stuck}
use fury_clash.Network.Rollback.{Engine, Rollback, confirm_all}
use fury_clash.Network.Client.{Session, state_code, hs_open, hs_code, is_open}
use fury_clash.Network.Client.Receive.{
  frames_loop, read_frames, read_upgrade, append_bytes, read_socket, net_client_receive,
}
use fury_clash.Network.Client.Pieces.{Batch, IsBatch, batch_frame, all_entries, at_buf, drain}

module _ (os : Os) (en : Engine) where
  open os use {World, recv}

  abbrev S : Type 0
  S = Session os en

  -- an open connection without an error
  pub record IsServed (s : S) : Type 0 where
    pub set_up : (s.client).configured ≡ true
    pub socket : ltb_ℤ (s.client).fd (pos 0) ≡ false
    pub open_hs : (s.client).hs ≡ hs_open
    pub calm : (state_code (s.client).state == 6) ≡ false

  appended :
      (part stale p : List ℕ) (s : S)
      → (stale' : List ℕ) × (record s {
        client = append_bytes os en p (at_buf os en (part ++ stale) (length part) s).client;
      }
          ≡ at_buf os en ((part ++ p) ++ stale') (length (part ++ p)) s)
  unfolding append_bytes
  appended part stale p s =
      let stale' = drop (length part + length p) (part ++ stale) in
      (stale', rw (take-append part stale, length-append part p, append_assoc part p stale') refl)

  -- an open connection reads the socket, and then the frames
  reads :
      (s : S)
      → IsServed s
      → (state : (n : ℕ) → (hs_code (s.client).hs == n) ≡ (3 == n))
      → net_client_receive os en s ≡ read_socket os en s
  unfolding net_client_receive
  reads s v state =
      let guard : (not (s.client).configured || ltb_ℤ (s.client).fd (pos 0)) ≡ false =
        ap (λ c. not c || ltb_ℤ (s.client).fd (pos 0)) v.set_up ∙ v.socket in
      rw (guard, state 1) refl

  piece :
      (s : S) (x : ℕ) (p : List ℕ) (w' : World)
      → leb ws_recv_buf (s.client).rbuf_head ≡ false
      → recv (s.client).fd (ws_recv_buf - (s.client).rbuf_head) s.world ≡ (received (x ∷ p), w')
      → read_socket os en s
        ≡ read_upgrade os en (record s { client = append_bytes os en (x ∷ p) s.client; world = w' })
  unfolding read_socket
  piece s x p w' room got = rw (room, got) refl

  opens :
      (s : S)
      → (s.client).hs ≡ hs_open
      → read_upgrade os en s ≡ frames_loop os en (suc (s.client).rbuf_head) s
  unfolding read_upgrade read_frames
  opens s h =
      let waiting : (hs_code (s.client).hs == 2) ≡ false = ap (λ k. hs_code k == 2) h in
      let open_now : is_open (s.client).hs ≡ true = ap is_open h in rw (waiting, open_now) refl

  -- one call, of which `recv` returns a piece
  pub call :
      (part stale p part' : List ℕ) (whole more : List Batch) (s : S) (w' : World)
      (r : Rollback en.State)
      → IsServed s
      → 0 < length p
      → length part ≤ 1538
      → recv (s.client).fd (ws_recv_buf - length part) s.world ≡ (received p, w')
      → part ++ p ≡ stream batch_frame whole ++ part'
      → All IsBatch whole
      → All IsBatch more
      → Stuck batch_frame part' more
      → confirm_all en (all_entries whole) s.ring ≡ some r
      → (stale' : List ℕ) × (net_client_receive os en (at_buf os en (part ++ stale) (length part) s)
          ≡ some
              (at_buf os en (part' ++ stale') (length part') (record s { world = w'; ring = r })))
  call part stale [] part' whole more s w' r v some_bytes short got e ok oks h confirmed =
      absurd (omega (arith, some_bytes))
  call part stale (x ∷ p) part' whole more s w' r v some_bytes short got e ok oks h confirmed =
      let t : S = record s { world = w' } in
      let now = at_buf os en (part ++ stale) (length part) s in
      let (old, filled) = appended part stale (x ∷ p) t in
      let (stale', loop) =
        drain os en whole more part' old (suc (length (stream batch_frame whole ++ part'))) t r ok
          oks h v.calm confirmed (omega arith) in
      let room : leb ws_recv_buf (length part) ≡ false = ground arith in
      let served : IsServed now = record {
        set_up = v.set_up;
        socket = v.socket;
        open_hs = v.open_hs;
        calm = v.calm;
      } in
      (
        stale',
        reads now served (λ n. ap (λ k. hs_code k == n) v.open_hs)
            ∙ piece now x p w' room got
            ∙ ap (λ u. read_upgrade os en u) filled
            ∙ opens (at_buf os en ((part ++ (x ∷ p)) ++ old) (length (part ++ (x ∷ p))) t) v.open_hs
            ∙ ap (λ l. frames_loop os en (suc (length l)) (at_buf os en (l ++ old) (length l) t)) e
            ∙ loop,
      )
