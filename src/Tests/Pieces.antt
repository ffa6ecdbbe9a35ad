-- ===== src/Tests/Pieces.antt =====
-- Two input batches that arrive in three pieces.
use fury_clash.Prelude.{
  ℕ, ◌≡◌, refl, pos, List, [], ◌∷◌, length, take, drop, Option, none, some, arith,
}
use fury_clash.Prelude.Text.{codes}
use fury_clash.Network.Os.{Os, RecvResult, took, received, recv_blocks, pending, no_address}
use fury_clash.Network.Frame.Stream.{stream}
use fury_clash.Network.Rollback.{
  Rollback, rollback_init, rollback_confirm_remote, confirm_all, mark_divergence, entry_at, slot_of,
}
use fury_clash.Network.Client.{Session, net_fighting, hs_open, input_message}
use fury_clash.Network.Client.Connect.{configured_client}
use fury_clash.Network.Client.Pieces.{Batch, batch_frame}
use fury_clash.Network.Client.Pieces.Call.{IsServed}
use fury_clash.Network.Client.Pieces.Arrive.{receives, batches_arrive}
use fury_clash.Tests.Machines.{input_log}

abbrev pop : List (List ℕ) → RecvResult × List (List ℕ)
pop [] = (recv_blocks, [])
pop (p ∷ ps) = (received p, ps)

-- The world is the pieces that are still to come.
abbrev mailbox : Os
mailbox = record {
  World = List (List ℕ);
  send = λ fd b w. (took (length b), w);
  recv = λ fd n w. pop w;
  poll = λ fd w. (pending, w);
  dial = λ host port w. (no_address, w);
  close = λ fd w. w;
  ticks = λ w. 7;
}

abbrev batches : List Batch
batches =
    record { low = 1; high = 0; entries = (pos 3, 8) ∷ [] }
    ∷ record { low = 2; high = 0; entries = (pos 4, 0) ∷ (pos 5, 17) ∷ [] }
    ∷ []

abbrev bytes : List ℕ
bytes = stream batch_frame batches

abbrev pieces : List (List ℕ)
pieces = take 1 bytes ∷ take 14 (drop 1 bytes) ∷ drop 15 bytes ∷ []

abbrev fighting : Session mailbox input_log
fighting = record {
  client =
      record (configured_client (some (codes "ws://host")) (some (codes "AB23CD"))
        (some (codes "AB23CDP1")) (pos 0)) {
          fd = pos 3;
          hs = hs_open;
          state = net_fighting;
          rbuf_head = 0;
        };
  world = pieces;
  ring = rollback_init input_log;
}

abbrev or_ring :
    Rollback (List (ℕ × ℕ)) → Option (Rollback (List (ℕ × ℕ))) → Rollback (List (ℕ × ℕ))
or_ring r none = r
or_ring r (some t) = t

abbrev confirmed : Rollback (List (ℕ × ℕ))
confirmed =
    or_ring fighting.ring
      (confirm_all input_log ((pos 3, 8) ∷ (pos 4, 0) ∷ (pos 5, 17) ∷ []) fighting.ring)

fighting-IsServed : IsServed mailbox input_log fighting
unfolding configured_client
fighting-IsServed = record { set_up = refl; socket = refl; open_hs = refl; calm = refl }

all_there :
    confirm_all input_log ((pos 3, 8) ∷ (pos 4, 0) ∷ (pos 5, 17) ∷ []) fighting.ring
    ≡ some confirmed
unfolding rollback_init confirm_all rollback_confirm_remote mark_divergence entry_at slot_of
all_there = refl

batches_arrive_example :
    (s' : Session mailbox input_log) × (receives mailbox input_log 3 fighting ≡ some s')
    × (s'.ring ≡ confirmed)
    × ((s'.client).rbuf_head ≡ 0)
    × ((s'.client).state ≡ net_fighting)
unfolding configured_client input_message
batches_arrive_example =
    batches_arrive mailbox input_log pieces batches fighting confirmed fighting-IsServed refl
      (
        _,
        (λ n h. refl),
        omega arith,
        (_, (λ n h. refl), omega arith, (_, (λ n h. refl), omega arith, tt)),
      )
      refl (omega arith) all_there
