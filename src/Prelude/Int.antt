-- ===== src/Prelude/Int.antt =====
-- Signed integers over the native numbers, under the library's names.
-- Orders go through the two parts of an integer, which are numbers that `omega` reads.
use reconverse.Prelude.{
  ℕ, suc, ◌+◌, ◌-◌, ◌≤◌, ◌<◌, ◌≡◌, refl, Bool, arith, ltb, leb, ◌==◌, if◌then◌else◌, true, false,
}

-- `negsuc n` is -(n + 1).
pub data ℤ : Type 0 where
  pos : ℕ → ℤ
  negsuc : ℕ → ℤ

abbrev pub pos_part : ℤ → ℕ
pos_part (pos n) = n
pos_part (negsuc n) = 0

abbrev pub neg_part : ℤ → ℕ
neg_part (pos n) = 0
neg_part (negsuc n) = suc n

-- a - b, as an integer.
abbrev pub sub_ℕ : ℕ → ℕ → ℤ
sub_ℕ a b = if leb b a then pos (a - b) else negsuc (b - a - 1)

infix 50 ◌≤ℤ◌ ◌<ℤ◌
abbrev pub ◌≤ℤ◌ : ℤ → ℤ → Type 0
a ≤ℤ b = pos_part a + neg_part b ≤ pos_part b + neg_part a

abbrev pub ◌<ℤ◌ : ℤ → ℤ → Type 0
a <ℤ b = pos_part a + neg_part b < pos_part b + neg_part a

abbrev pub ltb_ℤ : ℤ → ℤ → Bool
ltb_ℤ a b = ltb (pos_part a + neg_part b) (pos_part b + neg_part a)

abbrev pub eqb_ℤ : ℤ → ℤ → Bool
eqb_ℤ a b = (pos_part a + neg_part b) == (pos_part b + neg_part a)

pub eq_of_parts : (a b : ℤ) → pos_part a + neg_part b ≡ pos_part b + neg_part a → a ≡ b
eq_of_parts a b h = ground arith

pub eqb_ℤ→eq : (a b : ℤ) → eqb_ℤ a b ≡ true → a ≡ b
eqb_ℤ→eq a b h = ground arith

-- The three ways in which two integers may stand, with the tests' results.
pub data Compare (a b : ℤ) : Type 0 where
  below : a <ℤ b → Compare a b
  same : a ≡ b → Compare a b
  above : b <ℤ a → Compare a b

pub Compare-total : (a b : ℤ) → Compare a b
Compare-total a b = pick (ltb_ℤ a b) (ltb_ℤ b a) refl refl
  where
    pick : (s t : Bool) → ltb_ℤ a b ≡ s → ltb_ℤ b a ≡ t → Compare a b
    pick true t p q = below (ground arith)
    pick false true p q = above (ground arith)
    pick false false p q = same (eq_of_parts a b (ground arith))
