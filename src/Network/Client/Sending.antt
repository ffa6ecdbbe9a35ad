-- ===== src/Network/Client/Sending.antt =====
-- What the loop of `ws_send` hands to the socket.
use fury_clash.Prelude.{
  ℕ, zero, suc, ◌+◌, ◌≤◌, ◌≡◌, refl, sym, ap, ◌∙◌, ℤ, pos, ◌≤ℤ◌, ltb_ℤ, List, [], ◌∷◌, ◌++◌, length,
  length-drop, take, drop, take-rest, not, false, ◌||◌, arith, ltb, if_ind,
}
use mathlib.Core.List.{append_assoc, append-nil}
use fury_clash.Network.Os.{Os, IsSocket, SendResult, took, send_blocks, send_fails}
use fury_clash.Network.Frame.{ws_encode_frame}
use fury_clash.Network.Rollback.{Engine}
use fury_clash.Network.Client.{
  hs_open, is_open, Session, with_state, after_send, send_loop, ws_send,
}

take-none : (n : ℕ) → take {A = ℕ} n [] ≡ []
take-none zero = refl
take-none (suc n) = refl

suc_left : (n m : ℕ) → suc (n + m) ≡ suc n + m
suc_left n m = omega arith

take-drop : (n m : ℕ) (l : List ℕ) → take n l ++ take m (drop n l) ≡ take (n + m) l
take-drop zero m l = ap (λ k. take k l) (omega arith)
take-drop (suc n) m [] = take-none m ∙ sym (take-none (suc n + m))
take-drop (suc n) m (x ∷ l) =
    ap (λ t. x ∷ t) (take-drop n m l) ∙ ap (λ k. take k (x ∷ l)) (suc_left n m)

module _ (os : Os) (en : Engine) (sent : os.World → List ℕ) (sock : IsSocket os sent) where
  open os use {World, send}

  -- The socket got the first bytes of `l`, in order.
  abbrev IsPrefixSent : List ℕ → Session os en → Session os en → Type 0
  IsPrefixSent l s s' = (k : ℕ) × (k ≤ length l) × (sent s'.world ≡ sent s.world ++ take k l)

  after_send_prefix :
      (fuel x : ℕ) (rest : List ℕ) (s : Session os en)
      (more : List ℕ → Session os en → Session os en)
      → length rest ≤ fuel
      → ((l : List ℕ) (s' : Session os en) → length l ≤ fuel → IsPrefixSent l s' (more l s'))
      → (r : SendResult) → (send (s.client).fd (x ∷ rest) s.world).0 ≡ r
      → IsPrefixSent (x ∷ rest) s (
          after_send os en more x rest r
            (record s { world = (send (s.client).fd (x ∷ rest) s.world).1 }))
  unfolding after_send with_state
  after_send_prefix fuel x rest s more h ih (took zero) e =
      (0, omega arith, (sock.takes (s.client).fd (x ∷ rest) s.world 0 e).1)
  after_send_prefix fuel x rest s more h ih (took (suc n)) e =
      let (fits, got) = sock.takes (s.client).fd (x ∷ rest) s.world (suc n) e in
      let (k, le, next) =
        ih (drop n rest) (record s { world = (send (s.client).fd (x ∷ rest) s.world).1 })
          (omega (arith, length-drop n rest)) in
      (
        suc (n + k),
        omega (arith, length-drop n rest),
        next
            ∙ ap (λ t. t ++ take k (drop n rest)) got
            ∙ append_assoc (sent s.world) (take (suc n) (x ∷ rest)) (take k (drop n rest))
            ∙ ap (λ t. sent s.world ++ (x ∷ t)) (take-drop n k rest),
      )
  after_send_prefix fuel x rest s more h ih send_blocks e = (
    0,
    omega arith,
    sock.blocks (s.client).fd (x ∷ rest) s.world e ∙ sym (append-nil (sent s.world)),
  )
  after_send_prefix fuel x rest s more h ih send_fails e = (
    0,
    omega arith,
    sock.fails (s.client).fd (x ∷ rest) s.world e ∙ sym (append-nil (sent s.world)),
  )

  send_loop_prefix :
      (fuel : ℕ) (l : List ℕ) (s : Session os en)
      → length l ≤ fuel
      → IsPrefixSent l s (send_loop os en fuel l s)
  unfolding send_loop
  send_loop_prefix fuel [] s h = (0, omega arith, sym (append-nil (sent s.world)))
  send_loop_prefix zero (x ∷ rest) s h = absurd (omega arith)
  send_loop_prefix (suc fuel) (x ∷ rest) s h =
      after_send_prefix fuel x rest s (λ l s'. send_loop os en fuel l s') (omega arith)
        (λ l s' k. send_loop_prefix fuel l s' k) (send (s.client).fd (x ∷ rest) s.world).0 refl

  -- Whatever the socket answers, `ws_send` adds to the stream a beginning of the payload's frame:
  -- no byte is sent twice, skipped or out of order.
  pub ws_send-prefix :
      (payload : List ℕ) (s : Session os en)
      → (k : ℕ) × (sent (ws_send os en payload s).world
          ≡ sent s.world ++ take k (ws_encode_frame (os.ticks s.world) payload))
  unfolding ws_send
  ws_send-prefix payload s =
      let frame = ws_encode_frame (os.ticks s.world) payload in
      let P = λ (s' : Session os en). (k : ℕ) × (sent s'.world ≡ sent s.world ++ take k frame) in
      let stay : P s = (0, sym (append-nil (sent s.world))) in
      let (k, _, e) = send_loop_prefix (length frame) frame s (omega arith) in
      if_ind P (ltb_ℤ (s.client).fd (pos 0) || not (is_open (s.client).hs)) (λ _. stay)
        (λ _. if_ind P (ltb 4112 (length payload + 16)) (λ _. stay) (λ _. (k, e)))

  -- The kernel takes at least one byte of every send.
  abbrev IsEager : Type 0
  IsEager =
      (fd : ℤ) (x : ℕ) (b : List ℕ) (w : World) → (n : ℕ) × ((send fd (x ∷ b) w).0 ≡ took (suc n))

  send_loop_whole :
      IsEager
      → (fuel : ℕ) (l : List ℕ) (s : Session os en) → length l ≤ fuel
      → sent (send_loop os en fuel l s).world ≡ sent s.world ++ l
  unfolding send_loop after_send
  send_loop_whole eager fuel [] s h = sym (append-nil (sent s.world))
  send_loop_whole eager zero (x ∷ rest) s h = absurd (omega arith)
  send_loop_whole eager (suc fuel) (x ∷ rest) s h =
      let (n, e) = eager (s.client).fd x rest s.world in
      let (fits, got) = sock.takes (s.client).fd (x ∷ rest) s.world (suc n) e in
      let ih =
        send_loop_whole eager fuel (drop n rest)
          (record s { world = (send (s.client).fd (x ∷ rest) s.world).1 })
          (omega (arith, length-drop n rest)) in
      rw e (
        ih
        ∙ ap (λ t. t ++ drop n rest) got
        ∙ append_assoc (sent s.world) (x ∷ take n rest) (drop n rest)
        ∙ ap (λ t. sent s.world ++ (x ∷ t)) (take-rest n rest))

  -- On an open connection whose kernel takes at least a byte at a time, `ws_send` gives it the whole
  -- frame, in however many pieces, for every payload of at most 4096 bytes.
  pub ws_send-whole :
      IsEager
      → (payload : List ℕ) (s : Session os en) → pos 0 ≤ℤ (s.client).fd
      → (s.client).hs ≡ hs_open
      → length payload ≤ 4096
      → sent (ws_send os en payload s).world
        ≡ sent s.world ++ ws_encode_frame (os.ticks s.world) payload
  unfolding ws_send
  ws_send-whole eager payload s fd hs small =
      let frame = ws_encode_frame (os.ticks s.world) payload in
      let loop = send_loop_whole eager (length frame) frame s (omega arith) in
      let up : ltb_ℤ (s.client).fd (pos 0) ≡ false = ground arith in
      let short : ltb 4112 (length payload + 16) ≡ false = ground arith in
      let opened : not (is_open (s.client).hs) ≡ false = ap (λ h. not (is_open h)) hs in
      rw (up, opened, short) loop
