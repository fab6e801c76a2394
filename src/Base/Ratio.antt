-- ===== src/Base/Ratio.antt =====
-- Non-negative quotients of whole numbers, for what the program computes with `/`.
-- A quotient is kept as it was formed, and is compared by multiplying out. `den = 0` stands for a
-- division by zero, which is `Infinity` or `NaN` in the program.
use Prim.Native.Nat.{ℕ, ◌+◌, ◌*◌, ◌≤◌, ◌<◌}
use mathlib.Core.Path.{◌≡◌, sym, subst}
use native.Mathlib.Omega.{arith}

pub record Ratio : Type 0 where
  pub num : ℕ
  pub den : ℕ

unfoldable pub of_ℕ : ℕ → Ratio
of_ℕ n = record { num = n; den = 1 }

unfoldable pub add : Ratio → Ratio → Ratio
add a b = record { num = a.num * b.den + b.num * a.den; den = a.den * b.den }

unfoldable pub scale : Ratio → ℕ → Ratio
scale a n = record { num = a.num * n; den = a.den }

unfoldable pub div : Ratio → ℕ → Ratio
div a n = record { num = a.num; den = a.den * n }

abbrev pub Le : Ratio → Ratio → Type 0
Le a b = a.num * b.den ≤ b.num * a.den

-- `r` is `v / n`, at a positive denominator: `v` measures `r` in units of `1 / n`.
pub record Measures (n v : ℕ) (r : Ratio) : Type 0 where
  pub finite : 0 < r.den
  pub exact : r.num * n ≡ v * r.den

pub of_ℕ-Measures : (n k : ℕ) → Measures n (k * n) (of_ℕ k)
unfolding of_ℕ
of_ℕ-Measures n k = record { finite = omega arith; exact = omega arith }

pub mul-pos : (a b : ℕ) → 0 < a → 0 < b → 0 < a * b
mul-pos a b h k = grind arith

add-exact :
    (n v w a b c d : ℕ) → a * n ≡ v * b → c * n ≡ w * d → (a * d + c * b) * n ≡ (v + w) * (b * d)
add-exact n v w a b c d h k = omega (arith, ap' d h, ap' b k)
  where
    ap' : (t : ℕ) {x y : ℕ} → x ≡ y → x * t ≡ y * t
    ap' t e = λ i. e i * t

pub add-Measures :
    (n v w : ℕ) (r s : Ratio) → Measures n v r → Measures n w s → Measures n (v + w) (add r s)
unfolding add
add-Measures n v w r s h k = record {
  finite = mul-pos r.den s.den h.finite k.finite;
  exact = add-exact n v w r.num r.den s.num s.den h.exact k.exact;
}

scale-exact : (n v a b k : ℕ) → a * n ≡ v * b → (a * k) * n ≡ (v * k) * b
scale-exact n v a b k h = omega (arith, times h)
  where
    times : {x y : ℕ} → x ≡ y → x * k ≡ y * k
    times e = λ i. e i * k

pub scale-Measures : (n v k : ℕ) (r : Ratio) → Measures n v r → Measures n (v * k) (scale r k)
unfolding scale
scale-Measures n v k r h = record {
  finite = h.finite;
  exact = scale-exact n v r.num r.den k h.exact;
}

div-exact : (n v w a b k : ℕ) → a * n ≡ v * b → w * k ≡ v → a * n ≡ w * (b * k)
div-exact n v w a b k h e = omega (arith, h, times e)
  where
    times : {x y : ℕ} → x ≡ y → x * b ≡ y * b
    times e = λ i. e i * b

-- Division is exact in units that `k` divides.
pub div-Measures :
    (n v w k : ℕ) (r : Ratio) → 0 < k → w * k ≡ v → Measures n v r → Measures n w (div r k)
unfolding div
div-Measures n v w k r pos e h = record {
  finite = mul-pos r.den k h.finite pos;
  exact = div-exact n v w r.num r.den k h.exact e;
}

mul-cancel : (a b n : ℕ) → 0 < n → a * n ≤ b * n → a ≤ b
mul-cancel a b n pos h = grind arith

le-exact : (n v w a b c d : ℕ) → a * n ≡ v * b → c * n ≡ w * d → v ≤ w → (a * d) * n ≤ (c * b) * n
le-exact n v w a b c d h k le = omega (arith, times d h, times b k, grow v w (b * d) le)
  where
    times : (t : ℕ) {x y : ℕ} → x ≡ y → x * t ≡ y * t
    times t e = λ i. e i * t

    grow : (v w t : ℕ) → v ≤ w → v * t ≤ w * t
    grow v w t h = grind arith

-- Measures in the same unit order the quotients.
pub Le_of_Measures :
    (n v w : ℕ) (r s : Ratio) → 0 < n → Measures n v r → Measures n w s → v ≤ w → Le r s
Le_of_Measures n v w r s pos h k le =
    mul-cancel (r.num * s.den) (s.num * r.den) n pos
      (le-exact n v w r.num r.den s.num s.den h.exact k.exact le)

-- What was divided by `k`, in the units of the quotient.
pub div-undo : (r q : Ratio) (k : ℕ) → 0 < q.den → q ≡ div r k → Measures q.den (q.num * k) r
unfolding div
div-undo r q k finite e =
    subst (λ t. 0 < t.den → Measures t.den (t.num * k) r) (sym e)
      (λ pos. record { finite = left_pos r.den k pos; exact = omega arith }) finite
  where
    left_pos : (a b : ℕ) → 0 < a * b → 0 < a
    left_pos a b h = grind arith

le-mul : (a b k : ℕ) → a ≤ b → a * k ≤ b * k
le-mul a b k h = grind arith

le_trans_exact : (a b c d e f : ℕ) → 0 < d → a * d ≤ c * b → c * f ≤ e * d → a * f ≤ e * b
le_trans_exact a b c d e f pos h k =
    mul-cancel (a * f) (e * b) d pos
      (omega (arith, le-mul (a * d) (c * b) f h, le-mul (c * f) (e * d) b k))

pub Le_trans : (r s t : Ratio) → 0 < s.den → Le r s → Le s t → Le r t
Le_trans r s t pos h k = le_trans_exact r.num r.den s.num s.den t.num t.den pos h k

pub Le_add_left : (c r s : Ratio) → Le r s → Le (add c r) (add c s)
unfolding add
Le_add_left c r s h = omega (arith, le-mul (r.num * s.den) (s.num * r.den) (c.den * c.den) h)

pub Le_add_self : (r s : Ratio) → Le r (add r s)
unfolding add
Le_add_self r s = omega arith

pub add_assoc : (r s t : Ratio) → add (add r s) t ≡ add r (add s t)
unfolding add
add_assoc r s t = λ i. record { num = nums i; den = dens i }
  where
    nums :
        (r.num * s.den + s.num * r.den) * t.den + t.num * (r.den * s.den)
        ≡ r.num * (s.den * t.den) + (s.num * t.den + t.num * s.den) * r.den
    nums = omega arith

    dens : r.den * s.den * t.den ≡ r.den * (s.den * t.den)
    dens = omega arith
