-- ===== src/Xor.antt =====
-- Exclusive or on machine words (the `^` of core/xor.go), and its laws at every width.
mod Digits
use Digits.{bit_xor_step}
use Prim.Native.Nat.{bit_xor}
use mathlib.Core.WellFounded
use native.Mathlib.Nat.{pow-suc, one-le-pow}
use vada_db.Common.{ℕ, zero, suc, ◌+◌, ◌*◌, ◌/◌, ◌%◌, ◌^◌, ◌≤◌, ◌<◌, ◌≡◌, refl, sym, ap, ◌∙◌, arith}
use vada_db.Common.Order.{lt_wf}

infixl 65 ◌⊕◌
abbrev pub ◌⊕◌ : ℕ → ℕ → ℕ
a ⊕ b = bit_xor a b

-- Each law goes from the halves to the numbers, hence induction on a bound.
xor_comm_below : (n a b : ℕ) → a ≤ n → b ≤ n → a ⊕ b ≡ b ⊕ a
xor_comm_below zero zero zero p q = refl
xor_comm_below zero (suc a) b p q = absurd (omega arith)
xor_comm_below zero zero (suc b) p q = absurd (omega arith)
xor_comm_below (suc n) a b p q = omega (
  arith,
  bit_xor_step a b,
  bit_xor_step b a,
  xor_comm_below n (a / 2) (b / 2) (omega arith) (omega arith),
)

xor_half : (a b : ℕ) → (a ⊕ b) / 2 ≡ (a / 2) ⊕ (b / 2)
xor_half a b = omega (arith, bit_xor_step a b)

xor_parity : (a b : ℕ) → (a ⊕ b) % 2 ≡ (a % 2 + b % 2) % 2
xor_parity a b = omega (arith, bit_xor_step a b)

xor_assoc_below : (n a b c : ℕ) → a ≤ n → b ≤ n → c ≤ n → a ⊕ b ⊕ c ≡ a ⊕ (b ⊕ c)
xor_assoc_below zero zero zero zero p q r = refl
xor_assoc_below zero (suc a) b c p q r = absurd (omega arith)
xor_assoc_below zero zero (suc b) c p q r = absurd (omega arith)
xor_assoc_below zero zero zero (suc c) p q r = absurd (omega arith)
xor_assoc_below (suc n) a b c p q r =
    rw (bit_xor_step (a ⊕ b) c, bit_xor_step a (b ⊕ c), xor_half a b, xor_half b c)
      (omega (
        arith,
        xor_parity a b,
        xor_parity b c,
        xor_assoc_below n (a / 2) (b / 2) (c / 2) (omega arith) (omega arith) (omega arith),
      ))

xor_self_below : (n a : ℕ) → a ≤ n → a ⊕ a ≡ 0
xor_self_below zero zero p = refl
xor_self_below zero (suc a) p = absurd (omega arith)
xor_self_below (suc n) a p = omega (arith, bit_xor_step a a, xor_self_below n (a / 2) (omega arith))

xor_zero_below : (n a : ℕ) → a ≤ n → a ⊕ 0 ≡ a
xor_zero_below zero zero p = refl
xor_zero_below zero (suc a) p = absurd (omega arith)
xor_zero_below (suc n) a p = omega (arith, bit_xor_step a 0, xor_zero_below n (a / 2) (omega arith))

pub xor_comm : (a b : ℕ) → a ⊕ b ≡ b ⊕ a
xor_comm a b = xor_comm_below (a + b) a b (omega arith) (omega arith)

pub xor_assoc : (a b c : ℕ) → a ⊕ b ⊕ c ≡ a ⊕ (b ⊕ c)
xor_assoc a b c = xor_assoc_below (a + b + c) a b c (omega arith) (omega arith) (omega arith)

pub xor_self : (a : ℕ) → a ⊕ a ≡ 0
xor_self a = xor_self_below a a (omega arith)

pub xor-zero : (a : ℕ) → a ⊕ 0 ≡ a
xor-zero a = xor_zero_below a a (omega arith)

pub zero-xor : (a : ℕ) → 0 ⊕ a ≡ a
zero-xor a = xor_comm 0 a ∙ xor-zero a

-- A word taken in twice is gone.
pub xor_cancel : (a b : ℕ) → a ⊕ (a ⊕ b) ≡ b
xor_cancel a b = sym (xor_assoc a a b) ∙ ap (λ t. t ⊕ b) (xor_self a) ∙ zero-xor b

pub xor_cancel_right : (a b : ℕ) → a ⊕ b ⊕ b ≡ a
xor_cancel_right a b = xor_assoc a b b ∙ ap (λ t. a ⊕ t) (xor_self b) ∙ xor-zero a

pub xor_left_comm : (a b c : ℕ) → a ⊕ (b ⊕ c) ≡ b ⊕ (a ⊕ c)
xor_left_comm a b c = sym (xor_assoc a b c) ∙ ap (λ t. t ⊕ c) (xor_comm a b) ∙ xor_assoc b a c

pub xor_right_comm : (a b c : ℕ) → a ⊕ b ⊕ c ≡ a ⊕ c ⊕ b
xor_right_comm a b c = xor_assoc a b c ∙ ap (λ t. a ⊕ t) (xor_comm b c) ∙ sym (xor_assoc a c b)

-- A result of `w` bits from arguments of `w` bits: the operation never leaves the word.
pub xor-lt : (w a b : ℕ) → a < 2 ^ w → b < 2 ^ w → a ⊕ b < 2 ^ w
xor-lt zero zero zero p q = omega arith
xor-lt zero (suc a) b p q = absurd (omega arith)
xor-lt zero zero (suc b) p q = absurd (omega arith)
xor-lt (suc w) a b p q =
    omega
      (arith, bit_xor_step a b, pow-suc 2 w, xor-lt w (a / 2) (b / 2) (omega arith) (omega arith))

pub xor_medial : (a b c d : ℕ) → a ⊕ b ⊕ (c ⊕ d) ≡ a ⊕ c ⊕ (b ⊕ d)
xor_medial a b c d =
    xor_assoc a b (c ⊕ d) ∙ ap (λ t. a ⊕ t) (xor_left_comm b c d) ∙ sym (xor_assoc a c (b ⊕ d))

-- Replacing one of two words: what leaves is taken in once more.
pub xor_exchange : (a b c : ℕ) → a ⊕ b ⊕ (a ⊕ c) ≡ c ⊕ b
xor_exchange a b c =
    xor_medial a b a c ∙ ap (λ t. t ⊕ (b ⊕ c)) (xor_self a) ∙ zero-xor (b ⊕ c) ∙ xor_comm b c
