-- ===== src/Network/Os.antt =====
-- What network/net_client.c asks of the operating system and of SDL: sockets and the clock. They
-- are no code of the repository, so they are a record over an unknown state of the outside world.
use fury_clash.Prelude.{ℕ, ◌≤◌, ◌≡◌, ℤ, List, ◌++◌, length, take}

-- The result of `send`: the bytes taken (`n >= 0`), EAGAIN or EWOULDBLOCK, or another error.
pub data SendResult : Type 0 where
  took : ℕ → SendResult
  send_blocks send_fails : SendResult

-- The result of `recv`: the bytes read, none of them at the end of the stream, or an error.
pub data RecvResult : Type 0 where
  received : List ℕ → RecvResult
  recv_blocks recv_fails : RecvResult

-- `select` on a connecting socket, with SO_ERROR where it is writable
pub data Poll : Type 0 where
  pending writable refused : Poll

-- `getaddrinfo`, `socket` and `connect`; the number is the new descriptor
pub data Opened : Type 0 where
  no_address no_socket : Opened
  connected in_progress rejected : ℕ → Opened

pub record Os : Type 1 where
  pub World : Type 0
  pub send : ℤ → List ℕ → World → SendResult × World
  pub recv : ℤ → ℕ → World → RecvResult × World
  pub poll : ℤ → World → Poll × World
  pub dial : List ℕ → ℤ → World → Opened × World
  pub close : ℤ → World → World
  pub ticks : World → ℕ

-- What the manual of `send` says, over the bytes that the world has taken from the program: a
-- result `n` is the number of bytes taken, in their order, and no error takes any.
pub record IsSocket (os : Os) (sent : os.World → List ℕ) : Type 0 where
  pub takes :
      (fd : ℤ) (b : List ℕ) (w : os.World) (n : ℕ)
      → (os.send fd b w).0 ≡ took n
      → (n ≤ length b) × (sent (os.send fd b w).1 ≡ sent w ++ take n b)
  pub blocks :
      (fd : ℤ) (b : List ℕ) (w : os.World)
      → (os.send fd b w).0 ≡ send_blocks
      → sent (os.send fd b w).1 ≡ sent w
  pub fails :
      (fd : ℤ) (b : List ℕ) (w : os.World)
      → (os.send fd b w).0 ≡ send_fails
      → sent (os.send fd b w).1 ≡ sent w

-- What the manual of `recv` says: no more bytes than asked for.
abbrev pub IsStream : Os → Type 0
IsStream os =
    (fd : ℤ) (n : ℕ) (w : os.World) (b : List ℕ) → (os.recv fd n w).0 ≡ received b → length b ≤ n
