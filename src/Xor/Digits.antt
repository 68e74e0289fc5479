-- ===== src/Xor/Digits.antt =====
-- Exclusive or, one binary digit at a time: what the two lowest digits give, and the rest.
use Prim.Native.Nat.{bit_xor, bit_xor-bitwise, bitwise, digits, differ}
use native.Mathlib.Nat.{le_refl}
use vada_db.Common.{ℕ, zero, suc, ◌+◌, ◌-◌, ◌*◌, ◌/◌, ◌%◌, ◌≤◌, ◌≡◌, refl, ap, ◌∙◌, arith}

abbrev xor_digits : ℕ → ℕ → ℕ → ℕ
xor_digits rounds a b = digits (λ rest. rest) differ rounds a b

-- One more round changes nothing, once there are as many rounds as the first number says.
round_more : (rounds a b : ℕ) → a ≤ rounds → xor_digits (suc rounds) a b ≡ xor_digits rounds a b
round_more zero zero b enough = refl
round_more (suc rounds) zero b enough = refl
round_more zero (suc a) b enough = absurd (omega arith)
round_more (suc rounds) (suc a) b enough =
    ap (λ high. high * 2 + differ (suc a % 2) (b % 2))
      (round_more rounds (suc a / 2) (b / 2) (omega arith))

rounds_more :
    (extra rounds all a b : ℕ)
    → all ≡ extra + rounds
    → a ≤ rounds
    → xor_digits all a b ≡ xor_digits rounds a b
rounds_more zero rounds all a b e enough = ap (λ r. xor_digits r a b) (omega arith)
rounds_more (suc extra) rounds all a b e enough =
    ap (λ r. xor_digits r a b) {y = suc (extra + rounds)} (omega arith)
    ∙ round_more (extra + rounds) a b (omega arith)
    ∙ rounds_more extra rounds (extra + rounds) a b refl enough

-- Two digits differ when their sum is odd.
differ-eq : (x y : ℕ) → x ≤ 1 → y ≤ 1 → differ x y ≡ (x + y) % 2
differ-eq zero y hx hy = omega arith
differ-eq (suc zero) zero hx hy = refl
differ-eq (suc zero) (suc zero) hx hy = refl
differ-eq (suc zero) (suc (suc y)) hx hy = absurd (omega arith)
differ-eq (suc (suc x)) y hx hy = absurd (omega arith)

lowest_digit :
    (a b : ℕ)
    → bitwise (λ rest. rest) differ (suc a) b
      ≡ bitwise (λ rest. rest) differ (suc a / 2) (b / 2) * 2 + (suc a % 2 + b % 2) % 2
lowest_digit a b =
    let high =
      rounds_more (a - suc a / 2) (suc a / 2) a (suc a / 2) (b / 2) (omega arith) (le_refl _) in
    let low = differ-eq (suc a % 2) (b % 2) (omega arith) (omega arith) in omega (arith, high, low)

pub bit_xor_step : (a b : ℕ) → bit_xor a b ≡ bit_xor (a / 2) (b / 2) * 2 + (a % 2 + b % 2) % 2
bit_xor_step zero b = simp bit_xor-bitwise (omega arith)
bit_xor_step (suc a) b = simp bit_xor-bitwise (lowest_digit a b)
