-- ===== src/Float.antt =====
-- `f64`: the operations that the program uses, with the laws of IEEE 754 that its correctness rests
-- on. The type stays abstract, so that rounding is not modelled away; counters are not negative, so
-- `x as f64` starts from a number.
use gitvote.Prelude.{ℕ, ◌*◌, ◌/◌, ◌≤◌, ◌≡◌, Bool, true, false, ◌<◌, ltb, leb, le→leb, ltb→lt, arith}

pub record Float (F : Type 0) : Type 0 where
  pub of_ℕ : ℕ → F
  pub mul : F → F → F
  pub div : F → F → F
  pub lt : F → F → Bool
  pub le : F → F → Bool
  pub le_trans : (a b c : F) → le a b ≡ true → le b c ≡ true → le a c ≡ true
  -- Rounding is monotonic, so the products by a percentage are.
  pub mul-mono :
      (t : F) (a b : ℕ)
      → lt (of_ℕ 0) t ≡ true
      → le t (of_ℕ 100) ≡ true
      → a ≤ b
      → le (mul t (of_ℕ a)) (mul t (of_ℕ b)) ≡ true
  -- A positive threshold of a positive number is positive.
  pub mul-pos :
      (t : F) (n : ℕ)
      → lt (of_ℕ 0) t ≡ true
      → le t (of_ℕ 100) ≡ true
      → 0 < n
      → le (mul t (of_ℕ n)) (mul (of_ℕ 0) (of_ℕ 100)) ≡ false
  pub scale-mono : (a b : ℕ) → a ≤ b → le (mul (of_ℕ a) (of_ℕ 100)) (mul (of_ℕ b) (of_ℕ 100)) ≡ true

-- Numbers in hundredths, on which programs run and which show that the laws can be met.
abbrev pub hundredths_mul : ℕ → ℕ → ℕ
hundredths_mul a b = a * b / 100

pub leb_trans : (a b c : ℕ) → leb a b ≡ true → leb b c ≡ true → leb a c ≡ true
leb_trans a b c h k = ground arith

not_leb : (a b : ℕ) → b < a → leb a b ≡ false
not_leb a b h = ground arith

mul-le : (t a b : ℕ) → a ≤ b → t * a ≤ t * b
mul-le t a b h = grind arith

pub hundredths_mul_mono :
    (t a b : ℕ) → a ≤ b → leb (hundredths_mul t (a * 100)) (hundredths_mul t (b * 100)) ≡ true
hundredths_mul_mono t a b h = le→leb _ _ (omega (arith, mul-le t a b h))

pub scale_le :
    (a b : ℕ)
    → a ≤ b
    → leb (hundredths_mul (a * 100) (100 * 100)) (hundredths_mul (b * 100) (100 * 100)) ≡ true
scale_le a b h = le→leb _ _ (omega arith)

mul-pos_lem : (t n : ℕ) → 0 < t → 0 < n → 0 < t * n
mul-pos_lem t n h k = grind arith

pub hundredths_mul-pos :
    (t n : ℕ)
    → ltb (0 * 100) t ≡ true
    → 0 < n
    → leb (hundredths_mul t (n * 100)) (hundredths_mul (0 * 100) (100 * 100)) ≡ false
hundredths_mul-pos t n h k = not_leb _ _ (omega (arith, mul-pos_lem t n (ltb→lt _ _ h) k))

abbrev pub hundredths : Float ℕ
hundredths = record {
  of_ℕ = λ n. n * 100;
  mul = hundredths_mul;
  div = λ a b. a * 100 / b;
  lt = ltb;
  le = leb;
  le_trans = leb_trans;
  mul-mono = λ t a b _ _ h. hundredths_mul_mono t a b h;
  mul-pos = λ t n h _ k. hundredths_mul-pos t n h k;
  scale-mono = scale_le;
}
