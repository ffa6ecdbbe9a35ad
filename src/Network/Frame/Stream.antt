-- ===== src/Network/Frame/Stream.antt =====
-- A stream of items, each of its own bytes, cut anywhere.
use mathlib.Core.List.{append_assoc}
use fury_clash.Prelude.{
  ℕ, ◌≤◌, ◌<◌, ◌≡◌, refl, sym, ap, ◌∙◌, ltb, List, [], ◌∷◌, ◌++◌, length, length-append, ltb,
  Bool-cases, inl, inr, arith,
}

-- What is a beginning of both halves.
prefix_of :
    (x y u v : List ℕ)
    → x ++ y ≡ u ++ v
    → length x ≤ length u
    → (z : List ℕ) × (u ≡ x ++ z) × (y ≡ z ++ v)
prefix_of [] y u v e h = (u, refl, e)
prefix_of (a ∷ x) y [] v e h = absurd (omega arith)
prefix_of (a ∷ x) y (c ∷ u) v e h =
    let head : a ≡ c = cc e in
    let tail : x ++ y ≡ u ++ v = cc e in
    let (z, p, q) = prefix_of x y u v tail (omega arith) in (z, cc, q)

module _ {B : Type 0} (bytes : B → List ℕ) where
  abbrev pub stream : List B → List ℕ
  stream [] = []
  stream (b ∷ bs) = bytes b ++ stream bs

  -- fewer bytes than the next item has
  abbrev pub Stuck : List ℕ → List B → Type 0
  Stuck t [] = t ≡ []
  Stuck t (b ∷ bs) = (y : List ℕ) × (bytes b ≡ t ++ y) × (0 < length y)

  Stuck-end : (t : List ℕ) (y : List ℕ) → t ++ y ≡ [] → t ≡ []
  Stuck-end [] y e = refl
  Stuck-end (a ∷ t) y e = absurd (omega (arith, ap length e))

  -- a beginning of a stream as items and the beginning of another
  pub record Split (x y : List ℕ) (bs : List B) : Type 0 where
    pub whole : List B
    pub more : List B
    pub part : List ℕ
    pub items : bs ≡ whole ++ more
    pub begins : x ≡ stream whole ++ part
    pub left : part ++ y ≡ stream more
    pub stuck : Stuck part more

  pub split : (x y : List ℕ) (bs : List B) → x ++ y ≡ stream bs → Split x y bs
  split x y [] e = record {
    whole = [];
    more = [];
    part = x;
    items = refl;
    begins = refl;
    left = e;
    stuck = Stuck-end x y e;
  }
  split x y (b ∷ bs) e = elim (Bool-cases (ltb (length x) (length (bytes b)))) [
    | inl few ↦
        let (z, p, q) = prefix_of x y (bytes b) (stream bs) e (ground arith) in
        record {
          whole = [];
          more = b ∷ bs;
          part = x;
          items = refl;
          begins = refl;
          left = e;
          stuck = (z, p, ground (arith, ap length p, length-append x z));
        }
    | inr enough ↦
        let (z, p, q) = prefix_of (bytes b) (stream bs) x y (sym e) (ground arith) in
        let rest = split z y bs (sym q) in
        record {
          whole = b ∷ rest.whole;
          more = rest.more;
          part = rest.part;
          items = ap (λ l. b ∷ l) rest.items;
          begins =
              p
              ∙ (ap (λ l. bytes b ++ l) rest.begins
                  ∙ sym (append_assoc (bytes b) (stream rest.whole) rest.part));
          left = rest.left;
          stuck = rest.stuck;
        }
  ]
