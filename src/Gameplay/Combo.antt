-- ===== src/Gameplay/Combo.antt =====
-- gameplay/combo.c: damage falls off with the hits of a combo.
use native.Mathlib.Nat.{mul-le-mul_left}
use fury_clash.Prelude.{
  ℕ, ◌+◌, ◌*◌, ◌/◌, ◌≤◌, ◌≡◌, refl, ℤ, pos, ◌*ℤ◌, quot_ℤ, ◌≤ℤ◌, ltb_ℤ, leb_ℤ, leb, ◌&&◌, negsuc,
  Option, some, none, Bool, List, [], ◌∷◌, true, false, if◌then◌else◌, arith,
}

pub record ComboTracker : Type 0 where
  pub active : Bool
  pub hit_count : ℕ
  pub juggle_count : ℕ
  pub damage_scaling : ℕ

unfoldable pub combo_reset : ComboTracker
combo_reset = record { active = false; hit_count = 0; juggle_count = 0; damage_scaling = 100 }

unfoldable pub scaling_curve : ℕ → ℕ
scaling_curve hits =
    if leb hits 2
    then 100
    else if leb hits 4
    then 90
    else if leb hits 6
    then 75
    else if leb hits 9
    then 60
    else 50

unfoldable pub combo_on_hit : Bool → ComboTracker → ComboTracker
combo_on_hit is_launch ct = record {
  active = true;
  hit_count = ct.hit_count + 1;
  juggle_count = if is_launch then ct.juggle_count + 1 else ct.juggle_count;
  damage_scaling = scaling_curve (ct.hit_count + 1);
}

-- a value that an `int` holds
abbrev fits_int : ℤ → Bool
fits_int n = leb_ℤ (negsuc 2147483647) n && leb_ℤ n (pos 2147483647)

-- `none` is the overflow of the product, which C leaves undefined.
unfoldable pub combo_damage_scaled : ComboTracker → ℤ → Option ℤ
combo_damage_scaled ct base_damage =
    let product = base_damage *ℤ pos ct.damage_scaling in
    if fits_int product then some (quot_ℤ product 100) else none

unfoldable pub combo_can_juggle : ComboTracker → ℤ → Bool
combo_can_juggle ct move_juggle_value = ltb_ℤ (pos ct.juggle_count) move_juggle_value

-- the tracker after hits, the last one first, each with whether it launches
abbrev pub combo_of : List Bool → ComboTracker
combo_of [] = combo_reset
combo_of (launch ∷ hits) = combo_on_hit launch (combo_of hits)

scaling-range : (n : ℕ) → (50 ≤ scaling_curve n) × (scaling_curve n ≤ 100)
unfolding scaling_curve
scaling-range n = ground arith

scaling_of :
    (hits : List Bool) → (combo_of hits).damage_scaling ≡ scaling_curve (combo_of hits).hit_count
unfolding combo_reset combo_on_hit scaling_curve
scaling_of [] = refl
scaling_of (launch ∷ hits) = refl

mul_pos : (a b : ℕ) → pos a *ℤ pos b ≡ pos (a * b)
unfolding ◌*ℤ◌
mul_pos a b = ground arith

quot_pos : (a n : ℕ) → quot_ℤ (pos a) n ≡ pos (a / n)
unfolding quot_ℤ
quot_pos a n = ground arith

damage_nat :
    (ct : ComboTracker) (base : ℕ)
    → base * ct.damage_scaling ≤ 2147483647
    → combo_damage_scaled ct (pos base) ≡ some (pos (base * ct.damage_scaling / 100))
unfolding combo_damage_scaled
damage_nat ct base h =
    let fits : fits_int (pos (base * ct.damage_scaling)) ≡ true = ground arith in
    rw (mul_pos base ct.damage_scaling, fits, quot_pos (base * ct.damage_scaling) 100) refl

-- In a combo of any length, a hit of a move of at most 21474836 damage, 100 times which an `int`
-- still holds, is scaled without an overflow to between a half of that damage and the whole.
pub combo_damage_bounds :
    (hits : List Bool) (base : ℕ)
    → base ≤ 21474836
    → (d : ℤ) × (combo_damage_scaled (combo_of hits) (pos base) ≡ some d)
      × (pos (base / 2) ≤ℤ d)
      × (d ≤ℤ pos base)
combo_damage_bounds hits base small =
    let (low, high) = scaling-range (combo_of hits).hit_count in
    let sc = scaling_of hits in
    let lo : base * 50 ≤ base * (combo_of hits).damage_scaling = mul-le-mul_left base (rw sc low) in
    let hi : base * (combo_of hits).damage_scaling ≤ base * 100 =
      mul-le-mul_left base (rw sc high) in
    (
      pos (base * (combo_of hits).damage_scaling / 100),
      damage_nat (combo_of hits) base (omega (arith, hi, small)),
      omega (arith, lo),
      omega (arith, hi),
    )
