-- ===== src/Network/Http/Totals.antt =====
-- What the loops of `http_post` deliver: the whole request, and a response within its buffer.
use fury_clash.Prelude.{
  ℕ, zero, suc, ◌+◌, ◌-◌, ◌≤◌, ◌<◌, ◌≡◌, ◌≢◌, refl, sym, ap, ◌∙◌, ltb, ℤ, Bool, true, List, [], ◌∷◌,
  ◌++◌, length, length-append, take, drop, take-rest, if_ind, Option, some, arith,
}
use mathlib.Core.List.{append_assoc, append-nil}
use mathlib.Core.Bool.{true≢false}
use fury_clash.Network.Os.{
  Os, IsSocket, SendResult, took, send_blocks, send_fails, RecvResult, received, recv_blocks,
  recv_fails,
}
use fury_clash.Network.Http.{
  Blocking, response_size, after_post_send, post_send, after_post_recv, post_recv,
}

-- What the manual of `recv` says of a blocking socket that no signal interrupts: no more bytes
-- than asked for, and no EAGAIN or EINTR.
pub record IsUninterrupted (os : Os) (net : Blocking os) : Type 0 where
  pub at_most :
      (fd : ℤ) (n : ℕ) (w : os.World) (b : List ℕ)
      → (net.recv_and_wait fd n w).0 ≡ received b
      → length b ≤ n
  pub answers : (fd : ℤ) (n : ℕ) (w : os.World) → (net.recv_and_wait fd n w).0 ≢ recv_blocks

module _ (os : Os) (sent : os.World → List ℕ) (sock : IsSocket os sent) where
  open os use {World, send}

  -- a loop over `l` that reports success has put `l` behind what was sent
  Delivers : List ℕ → World → Bool × World → Type 0
  Delivers l w r = r.0 ≡ true → sent r.1 ≡ sent w ++ l

  after_post_send-Delivers :
      (fd : ℤ) (x : ℕ) (rest : List ℕ) (w : World) (more : List ℕ → World → Bool × World)
      → ((l : List ℕ) (w' : World) → Delivers l w' (more l w'))
      → (r : SendResult) → (send fd (x ∷ rest) w).0 ≡ r
      → Delivers (x ∷ rest) w (after_post_send os more rest (r, (send fd (x ∷ rest) w).1))
  unfolding Delivers
  after_post_send-Delivers fd x rest w more ih (took zero) e = λ h. absurd (true≢false (sym h))
  after_post_send-Delivers fd x rest w more ih (took (suc n)) e = λ h.
      ih (drop n rest) (send fd (x ∷ rest) w).1 h
      ∙ ap (λ t. t ++ drop n rest) (sock.takes fd (x ∷ rest) w (suc n) e).1
      ∙ append_assoc (sent w) (take (suc n) (x ∷ rest)) (drop n rest)
      ∙ ap (λ t. sent w ++ (x ∷ t)) (take-rest n rest)
  after_post_send-Delivers fd x rest w more ih send_blocks e = λ h. absurd (true≢false (sym h))
  after_post_send-Delivers fd x rest w more ih send_fails e = λ h. absurd (true≢false (sym h))

  -- A send loop that succeeds has handed the socket every byte of the request, in order.
  pub post_send_whole :
      (fuel : ℕ) (fd : ℤ) (l : List ℕ) (w : World)
      → (post_send os fuel fd l w).0 ≡ true
      → sent (post_send os fuel fd l w).1 ≡ sent w ++ l
  unfolding post_send Delivers
  post_send_whole zero fd l w h = absurd (true≢false (sym h))
  post_send_whole (suc fuel) fd [] w h = sym (append-nil (sent w))
  post_send_whole (suc fuel) fd (x ∷ rest) w h =
      after_post_send-Delivers fd x rest w (λ l w'. post_send os fuel fd l w')
        (λ l w'. post_send_whole fuel fd l w') (send fd (x ∷ rest) w).0 refl h

module _ (os : Os) (net : Blocking os) (good : IsUninterrupted os net) where
  open os use {World}
  open net use {recv_and_wait}

  -- the loop returns, within the buffer
  abbrev Returns : Option (List ℕ × World) → Type 0
  Returns o = (r : List ℕ × World) × (o ≡ some r) × (length r.0 < response_size)

  after_post_recv-Returns :
      (fuel : ℕ) (resp : List ℕ) (more : List ℕ → World → Option (List ℕ × World))
      → response_size ≤ length resp + suc fuel
      → length resp < response_size
      → ((l : List ℕ) (w : World)
          → response_size ≤ length l + fuel
          → length l < response_size
          → Returns (more l w))
      → (r : RecvResult)
      → ((b : List ℕ) → r ≡ received b → length b ≤ response_size - 1 - length resp)
      → r ≢ recv_blocks
      → (w : World) → Returns (after_post_recv os net more resp (r, w))
  after_post_recv-Returns fuel resp more enough room ih (received []) few never w =
      ((resp, w), refl, room)
  after_post_recv-Returns fuel resp more enough room ih (received (x ∷ b)) few never w =
      let fits = few (x ∷ b) refl in
      ih (resp ++ (x ∷ b)) w (omega (arith, length-append resp (x ∷ b)))
        (omega (arith, length-append resp (x ∷ b)))
  after_post_recv-Returns fuel resp more enough room ih recv_blocks few never w =
      absurd (never refl)
  after_post_recv-Returns fuel resp more enough room ih recv_fails few never w =
      ((resp, w), refl, room)

  post_recv_fuel :
      (fuel : ℕ) (fd : ℤ) (resp : List ℕ) (w : World)
      → response_size ≤ length resp + fuel
      → length resp < response_size
      → Returns (post_recv os net fuel fd resp w)
  unfolding post_recv
  post_recv_fuel zero fd resp w enough room = absurd (omega arith)
  post_recv_fuel (suc fuel) fd resp w enough room =
      if_ind Returns (ltb (length resp) (response_size - 1))
        (λ e.
          after_post_recv-Returns fuel resp (λ r w'. post_recv os net fuel fd r w') enough room
            (λ l w'. post_recv_fuel fuel fd l w')
            (recv_and_wait fd (response_size - 1 - length resp) w).0
            (good.at_most fd (response_size - 1 - length resp) w)
            (good.answers fd (response_size - 1 - length resp) w)
            (recv_and_wait fd (response_size - 1 - length resp) w).1)
        (λ e. ((resp, w), refl, room))

  -- While no signal interrupts `recv`, 4096 rounds end the loop that reads the response, whatever
  -- the server sends, and the NUL behind what was read still lies in the buffer.
  pub post_recv_total :
      (fd : ℤ) (w : World)
      → (r : List ℕ × World) × (post_recv os net response_size fd [] w ≡ some r)
        × (length r.0 < response_size)
  post_recv_total fd w = post_recv_fuel response_size fd [] w (omega arith) (omega arith)
