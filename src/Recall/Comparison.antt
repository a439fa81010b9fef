-- ===== src/Recall/Comparison.antt =====
-- Comparisons of the standard library, and when one is consistent.
use Prim.Native.Nat.{compare, Ordering}
use Prim.Native.Nat.Ordering.{lt, eq, gt}
use recuerdos_ai.Prelude.{◌≡◌, Bool, true, false, arith}

-- `Ordering::reverse`
abbrev pub reverse : Ordering → Ordering
reverse lt = gt
reverse eq = eq
reverse gt = lt

-- `Ordering::then_with`
abbrev pub then_with : Ordering → Ordering → Ordering
then_with lt second = lt
then_with eq second = second
then_with gt second = gt

-- Whether the first of two items may stand before the second.
abbrev pub may_precede : Ordering → Bool
may_precede gt = false
may_precede _ = true

-- A comparison that is consistent: items that it finds equal compare alike.
pub record IsConsistent {ℓ} {A : Type ℓ} (cmp : A → A → Ordering) : Type ℓ where
  pub flip : (a b : A) → cmp b a ≡ reverse (cmp a b)
  pub chain : (a b c : A) → cmp a b ≡ lt → cmp b c ≡ lt → cmp a c ≡ lt
  pub alike : (a b c : A) → cmp a b ≡ eq → cmp a c ≡ cmp b c

pub compare-IsConsistent : IsConsistent compare
compare-IsConsistent = record {
  flip = λ a b. ground arith;
  chain = λ a b c h k. ground arith;
  alike = λ a b c h. ground arith;
}

module _ {ℓ} {A : Type ℓ} where
  -- Largest first.
  pub reverse-IsConsistent :
      (cmp : A → A → Ordering) → IsConsistent cmp → IsConsistent (λ a b. cmp b a)
  reverse-IsConsistent cmp c = record {
    flip = λ a b. c.flip b a;
    chain = λ x y z h k. c.chain z y x k h;
    alike = λ x y z h. ground (arith, c.flip x z, c.flip y z, c.alike x y z, c.flip x y);
  }

  pub then_with-IsConsistent :
      (first second : A → A → Ordering)
      → IsConsistent first
      → IsConsistent second
      → IsConsistent (λ a b. then_with (first a b) (second a b))
  then_with-IsConsistent first second c d = record {
    flip = λ a b. ground (arith, c.flip a b, d.flip a b);
    chain = λ x y z h k. ground (
      arith,
      c.chain x y z,
      d.chain x y z,
      c.alike x y z,
      c.alike z y x,
      c.flip x y,
      c.flip y z,
      c.flip x z,
    );
    alike = λ x y z h. ground (arith, c.alike x y z, d.alike x y z);
  }

pub on-IsConsistent {ℓ κ} :
    {A : Type ℓ} {B : Type κ} (f : A → B) (cmp : B → B → Ordering)
    → IsConsistent cmp
    → IsConsistent (λ a b. cmp (f a) (f b))
on-IsConsistent f cmp c = record {
  flip = λ a b. c.flip (f a) (f b);
  chain = λ x y z. c.chain (f x) (f y) (f z);
  alike = λ x y z. c.alike (f x) (f y) (f z);
}
