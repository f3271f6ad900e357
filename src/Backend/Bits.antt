-- ===== src/Backend/Bits.antt =====
-- The operators of `u64` on its 64 binary digits, and their digits.
use rust_jsi.Base.{
  ℕ, zero, suc, ◌+◌, ◌*◌, ◌/◌, ◌%◌, ◌^◌, ◌≤◌, ◌<◌, ◌≡◌, ◌≢◌, ap, refl, ◌∙◌, inl, inr, Bool, true,
  false, ◌&&◌, ◌||◌, not, if◌then◌else◌, ◌==◌, Bool-cases, arith,
}

-- The digit of a number at a place.
pub bit : ℕ → ℕ → Bool
bit zero n = n % 2 == 1
bit (suc i) n = bit i (n / 2)

abbrev digit : Bool → ℕ
digit b = if b then 1 else 0

-- The number whose digits below `width` are those of the arguments, combined.
pub bitwise : (Bool → Bool → Bool) → ℕ → ℕ → ℕ → ℕ
bitwise f zero a b = 0
bitwise f (suc width) a b =
    digit (f (a % 2 == 1) (b % 2 == 1)) + 2 * bitwise f width (a / 2) (b / 2)

abbrev pub u64_bits : ℕ
u64_bits = 64

unfoldable pub bit_and : ℕ → ℕ → ℕ
unfolding bitwise
bit_and = bitwise (λ p q. p && q) u64_bits

unfoldable pub bit_or : ℕ → ℕ → ℕ
unfolding bitwise
bit_or = bitwise (λ p q. p || q) u64_bits

unfoldable pub bit_not : ℕ → ℕ
unfolding bitwise
bit_not a = bitwise (λ p q. not p) u64_bits a 0

digit-half : (b : Bool) (n : ℕ) → (digit b + 2 * n) / 2 ≡ n
digit-half true n = omega arith
digit-half false n = omega arith

pow-suc : (k : ℕ) → 2 ^ suc k ≡ 2 * 2 ^ k
pow-suc k = omega arith

pub bit-bitwise :
    (f : Bool → Bool → Bool) (width i a b : ℕ)
    → i < width
    → bit i (bitwise f width a b) ≡ f (bit i a) (bit i b)
unfolding bit bitwise
bit-bitwise f zero i a b h = absurd (omega arith)
bit-bitwise f (suc width) zero a b h = ground arith
bit-bitwise f (suc width) (suc i) a b h =
    ap (bit i) (digit-half (f (a % 2 == 1) (b % 2 == 1)) (bitwise f width (a / 2) (b / 2)))
    ∙ bit-bitwise f width i (a / 2) (b / 2) (omega arith)

digit-le : (b : Bool) → digit b ≤ 1
digit-le true = omega arith
digit-le false = omega arith

pub bitwise-lt : (f : Bool → Bool → Bool) (width a b : ℕ) → bitwise f width a b < 2 ^ width
unfolding bitwise
bitwise-lt f zero a b = omega arith
bitwise-lt f (suc width) a b = omega (
  arith,
  digit-le (f (a % 2 == 1) (b % 2 == 1)),
  bitwise-lt f width (a / 2) (b / 2),
  pow-suc width,
)

-- Digits decide a number.
pub bits-ext :
    (width m n : ℕ)
    → m < 2 ^ width
    → n < 2 ^ width
    → ((i : ℕ) → i < width → bit i m ≡ bit i n)
    → m ≡ n
unfolding bit
bits-ext zero m n h k all = omega arith
bits-ext (suc width) m n h k all =
    let rest : m / 2 ≡ n / 2 =
      bits-ext width (m / 2) (n / 2) (omega (arith, pow-suc width)) (omega (arith, pow-suc width))
        (λ i l. all (suc i) (omega arith)) in
    ground (arith, all zero (omega arith), rest)

-- A number that is not 0 has a digit that is 1.
pub some_bit : (width n : ℕ) → n < 2 ^ width → n ≢ 0 → (i : ℕ) × (i < width) × (bit i n ≡ true)
unfolding bit
some_bit zero n h k = absurd (k (omega arith))
some_bit (suc width) n h k = elim (Bool-cases (n % 2 == 1)) [
  | inl e ↦ (zero, omega arith, e)
  | inr e ↦
      let (i, l, b) =
        some_bit width (n / 2) (omega (arith, pow-suc width)) (λ z. k (ground arith)) in
      (suc i, omega arith, b)
]

pub bit-zero : (i : ℕ) → bit i 0 ≡ false
unfolding bit
bit-zero zero = refl
bit-zero (suc i) = bit-zero i

pub bit-pow : (i k : ℕ) → bit i (2 ^ k) ≡ (i == k)
unfolding bit
bit-pow zero zero = refl
bit-pow (suc i) zero = bit-zero i ∙ ground arith
bit-pow zero (suc k) = ground (arith, pow-suc k)
bit-pow (suc i) (suc k) = ap (bit i) (omega (arith, pow-suc k)) ∙ bit-pow i k ∙ ground arith
