-- ===== src/Network/Client/Pieces/Arrive.antt =====
-- A sequence of calls of `net_client_receive` on a stream of input batches.
use mathlib.Core.Path.{subst}
use mathlib.Core.List.{append_assoc}
use fury_clash.Prelude.{
  ℕ, zero, suc, ◌-◌, ◌≤◌, ◌<◌, ◌≡◌, refl, sym, ap, ◌∙◌, List, [], ◌∷◌, ◌++◌, length, length-append,
  ℤ, Option, some, Option-cases, inl, inr, ◌>>=◌, All, arith,
}
use fury_clash.Network.Os.{Os, received}
use fury_clash.Network.Frame.{ws_recv_buf}
use fury_clash.Network.Frame.Stream.{stream, Stuck, split}
use fury_clash.Network.Rollback.{Engine, Rollback, confirm_all}
use fury_clash.Network.Client.{Session}
use fury_clash.Network.Client.Receive.{net_client_receive}
use fury_clash.Network.Client.Pieces.Call.{IsServed, call}
use fury_clash.Network.Client.Pieces.{
  Batch, IsBatch, batch_frame, all_entries, confirm_all-append, frame_size, at_buf,
}

abbrev pub concat : List (List ℕ) → List ℕ
concat [] = []
concat (p ∷ ps) = p ++ concat ps

all_entries-append :
    (bs cs : List Batch) → all_entries (bs ++ cs) ≡ all_entries bs ++ all_entries cs
all_entries-append [] cs = refl
all_entries-append (b ∷ bs) cs =
    ap (λ l. b.entries ++ l) (all_entries-append bs cs)
    ∙ sym (append_assoc b.entries (all_entries bs) (all_entries cs))

All-split : (bs cs : List Batch) → All IsBatch (bs ++ cs) → All IsBatch bs × All IsBatch cs
All-split [] cs h = (tt, h)
All-split (b ∷ bs) cs (h, hs) = let (p, q) = All-split bs cs hs in ((h, p), q)

module _ (os : Os) (en : Engine) where
  open os use {World, recv}

  abbrev S : Type 0
  S = Session os en

  -- calls of `net_client_receive`, one behind the other
  abbrev pub receives : ℕ → S → Option S
  receives zero s = some s
  receives (suc n) s = net_client_receive os en s >>= λ s'. receives n s'

  -- `recv` returns the pieces one by one, where it has room for them
  abbrev pub Delivers : ℤ → World → List (List ℕ) → Type 0
  Delivers fd w [] = Unit
  Delivers fd w (p ∷ ps) =
      (w' : World) × ((n : ℕ) → 60000 ≤ n → recv fd n w ≡ (received p, w'))
      × (0 < length p)
      × Delivers fd w' ps

  Stuck-short :
      (part : List ℕ) (bs : List Batch)
      → All IsBatch bs
      → Stuck batch_frame part bs
      → length part ≤ 1538
  Stuck-short part [] ok h = omega (arith, ap length h)
  Stuck-short part (b ∷ bs) ok (y, e, more) =
      omega (arith, ap length e, length-append part y, (frame_size os en b ok.0.1).1)

  Stuck-done :
      (part : List ℕ) (bs : List Batch)
      → Stuck batch_frame part bs
      → part ++ [] ≡ stream batch_frame bs
      → (bs ≡ []) × (part ≡ [])
  Stuck-done part [] h e = (refl, h)
  Stuck-done part (b ∷ bs) (y, e', more) e = absurd (
      omega (
        arith,
        ap length e,
        ap length e',
        length-append part y,
        length-append part [],
        length-append (batch_frame b) (stream batch_frame bs),
      ))

  -- what is left once all calls have returned
  pub record Arrived (s : S) (r : Rollback en.State) (n : ℕ) (start : S) : Type 0 where
    pub after : S
    pub returns : receives n start ≡ some after
    pub ring : after.ring ≡ r
    pub empty : (after.client).rbuf_head ≡ 0
    pub state : (after.client).state ≡ (s.client).state

  arrive :
      (ps : List (List ℕ)) (bs : List Batch) (part stale : List ℕ) (s : S) (r : Rollback en.State)
      → IsServed os en s
      → Delivers (s.client).fd s.world ps
      → part ++ concat ps ≡ stream batch_frame bs
      → Stuck batch_frame part bs
      → All IsBatch bs
      → confirm_all en (all_entries bs) s.ring ≡ some r
      → Arrived s r (length ps) (at_buf os en (part ++ stale) (length part) s)
  unfolding confirm_all
  arrive [] bs part stale s r v del e h ok confirmed =
      let (no_batch, no_part) = Stuck-done part bs h e in
      let same : some s.ring ≡ some r =
        sym (ap (λ l. confirm_all en (all_entries l) s.ring) no_batch) ∙ confirmed in
      record {
        after = at_buf os en (part ++ stale) (length part) s;
        returns = refl;
        ring = cc same;
        empty = ap length no_part;
        state = refl;
      }
  arrive (p ∷ ps) bs part stale s r v (w', got, some_bytes, del) e h ok confirmed =
      let cut =
        split batch_frame (part ++ p) (concat ps) bs (append_assoc part p (concat ps) ∙ e) in
      let (oks, okm) = All-split cut.whole cut.more (subst (All IsBatch) cut.items ok) in
      let parts : (confirm_all en (all_entries cut.whole) s.ring >>= λ t.
      confirm_all en (all_entries cut.more) t)
          ≡ some r =
        sym (confirm_all-append os en (all_entries cut.whole) (all_entries cut.more) s.ring)
        ∙ ap (λ l. confirm_all en l s.ring)
            (sym (ap all_entries cut.items ∙ all_entries-append cut.whole cut.more))
        ∙ confirmed in
      let short = Stuck-short part bs ok h in
      elim (Option-cases (confirm_all en (all_entries cut.whole) s.ring)) [
        | inl n ↦ absurd (let q = rw n at parts in cc)
        | inr (r1, c) ↦
            let (stale', once) =
              call os en part stale p cut.part cut.whole cut.more s w' r1 v some_bytes short
                (got (ws_recv_buf - length part) (omega arith)) cut.begins oks okm cut.stuck c in
            let t : S = record s { world = w'; ring = r1 } in
            let served : IsServed os en t = record {
              set_up = v.set_up;
              socket = v.socket;
              open_hs = v.open_hs;
              calm = v.calm;
            } in
            let rest =
              arrive ps cut.more cut.part stale' t r served del cut.left cut.stuck okm
                (rw c at parts) in
            record {
              after = rest.after;
              returns = ap (λ o. o >>= λ u. receives (length ps) u) once ∙ rest.returns;
              ring = rest.ring;
              empty = rest.empty;
              state = rest.state;
            }
      ]

  Stuck-start : (bs : List Batch) → All IsBatch bs → Stuck batch_frame [] bs
  Stuck-start [] ok = refl
  Stuck-start (b ∷ bs) ok = (batch_frame b, refl, (frame_size os en b ok.0.1).0)

  -- On an open connection with an empty buffer, the frames of any input batches of at most 255
  -- entries, cut by TCP into pieces of any sizes, make `net_client_receive`, called once for each
  -- piece, confirm all entries of all batches in their order; the buffer is empty again, and the
  -- state as it was.
  pub batches_arrive :
      (ps : List (List ℕ)) (bs : List Batch) (s : S) (r : Rollback en.State)
      → IsServed os en s
      → (s.client).rbuf_head ≡ 0
      → Delivers (s.client).fd s.world ps
      → concat ps ≡ stream batch_frame bs
      → All IsBatch bs
      → confirm_all en (all_entries bs) s.ring ≡ some r
      → (s' : S) × (receives (length ps) s ≡ some s')
        × (s'.ring ≡ r)
        × ((s'.client).rbuf_head ≡ 0)
        × ((s'.client).state ≡ (s.client).state)
  batches_arrive ps bs s r v empty del e ok confirmed =
      let done = arrive ps bs [] (s.client).rbuf s r v del e (Stuck-start bs ok) ok confirmed in
      let start : at_buf os en (s.client).rbuf 0 s ≡ s =
        ap (λ n. at_buf os en (s.client).rbuf n s) (sym empty) in
      (
        done.after,
        subst (λ u. receives (length ps) u ≡ some done.after) start done.returns,
        done.ring,
        done.empty,
        done.state,
      )
