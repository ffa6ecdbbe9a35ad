-- ===== src/Tests/Machines.antt =====
-- A machine with whole numbers for `float` and `double`, an engine that logs the inputs, and a
-- kernel that takes one byte of a send at a time.
use mathlib.Core.Path.{subst}
use mathlib.Core.List.{append-nil}
use mathlib.Core.Bool.{true≢false}
use fury_clash.Prelude.{
  ℕ, ◌≤◌, ◌≡◌, refl, sym, ap, ℤ, pos, pos_part, ◌+ℤ◌, ◌-ℤ◌, ◌*ℤ◌, quot_ℤ, ltb_ℤ, leb_ℤ, ◌^◌, List,
  [], ◌∷◌, ◌++◌, length, take, Bool, true, false, ◌∙◌, if◌then◌else◌, arith,
}
use fury_clash.Floats.{Floats}
use fury_clash.Network.Rollback.{Engine}
use fury_clash.Network.Os.{
  Os, IsSocket, SendResult, took, send_blocks, send_fails, received, pending, no_address,
}

abbrev pub whole_numbers : Floats
whole_numbers = record {
  Float = ℤ;
  Double = ℤ;
  lit = λ m k. quot_ℤ m (10 ^ k);
  of_int = λ n. n;
  double_of_int = λ n. n;
  widen = λ x. x;
  narrow = λ x. x;
  add = λ x y. x +ℤ y;
  sub = λ x y. x -ℤ y;
  mul = λ x y. x *ℤ y;
  neg = λ x. pos 0 -ℤ x;
  fabs = λ x. pos (pos_part x);
  flt = λ x y. ltb_ℤ x y;
  fle = λ x y. leb_ℤ x y;
  dadd = λ x y. x +ℤ y;
  dmul = λ x y. x *ℤ y;
  ddiv = λ x y. quot_ℤ x (pos_part y);
  div = λ x y. quot_ℤ x (pos_part y);
  sqrt = λ x. x;
  fmax = λ x y. if ltb_ℤ x y then y else x;
  fmin = λ x y. if ltb_ℤ x y then x else y;
  dlit = λ m k. quot_ℤ m (10 ^ k);
  dsub = λ x y. x -ℤ y;
  dlt = λ x y. ltb_ℤ x y;
  dle = λ x y. leb_ℤ x y;
}

abbrev pub input_log : Engine
input_log = record { State = List (ℕ × ℕ); tick = λ s i j. (i, j) ∷ s; zeroed = [] }

abbrev take_one : List ℕ → List ℕ → SendResult × List ℕ
take_one [] w = (took 0, w)
take_one (x ∷ b) w = (took 1, w ++ (x ∷ []))

-- The world is the bytes that were sent.
abbrev pub slow_kernel : Os
slow_kernel = record {
  World = List ℕ;
  send = λ fd b w. take_one b w;
  recv = λ fd n w. (received [], w);
  poll = λ fd w. (pending, w);
  dial = λ host port w. (no_address, w);
  close = λ fd w. w;
  ticks = λ w. 7;
}

abbrev taken : SendResult → ℕ
taken (took n) = n
taken send_blocks = 0
taken send_fails = 0

take_one-takes :
    (b w : List ℕ) (n : ℕ)
    → (take_one b w).0 ≡ took n
    → (n ≤ length b) × ((take_one b w).1 ≡ w ++ take n b)
take_one-takes [] w n e =
    subst (λ k. (k ≤ 0) × (w ≡ w ++ take k [])) (ap taken e) (omega arith, sym (append-nil w))
take_one-takes (x ∷ b) w n e =
    subst (λ k. (k ≤ length (x ∷ b)) × (w ++ (x ∷ []) ≡ w ++ take k (x ∷ b))) (ap taken e)
      (omega arith, refl)

-- what the tests tell apart
abbrev is_took : SendResult → Bool
is_took (took n) = true
is_took send_blocks = false
is_took send_fails = false

take_one_never : (b w : List ℕ) → is_took (take_one b w).0 ≡ true
take_one_never [] w = refl
take_one_never (x ∷ b) w = refl

pub slow_kernel-IsSocket : IsSocket slow_kernel (λ w. w)
slow_kernel-IsSocket = record {
  takes = λ fd b w n e. take_one-takes b w n e;
  blocks = λ fd b w e. absurd (true≢false (sym (take_one_never b w) ∙ ap is_took e));
  fails = λ fd b w e. absurd (true≢false (sym (take_one_never b w) ∙ ap is_took e));
}
