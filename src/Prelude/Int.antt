-- ===== src/Prelude/Int.antt =====
-- Signed integers over the native numbers, under the library's names: the concrete numbers at
-- which the theorems on floats are applied.
use production_local_llm_inf.Prelude.{ℕ, suc, ◌+◌, ◌-◌, Bool, true, false, ltb, leb, if◌then◌else◌}

-- `negsuc n` is -(n + 1).
pub data ℤ : Type 0 where
  pos : ℕ → ℤ
  negsuc : ℕ → ℤ

abbrev pub pos_part : ℤ → ℕ
pos_part (pos n) = n
pos_part (negsuc n) = 0

abbrev pub neg_part : ℤ → ℕ
neg_part (pos n) = 0
neg_part (negsuc n) = suc n

abbrev pub sub_ℕ : ℕ → ℕ → ℤ
sub_ℕ a b = if leb b a then pos (a - b) else negsuc (b - a - 1)

infixl 65 ◌+ℤ◌ ◌-ℤ◌
abbrev pub ◌+ℤ◌ : ℤ → ℤ → ℤ
a +ℤ b = sub_ℕ (pos_part a + pos_part b) (neg_part a + neg_part b)

abbrev pub ◌-ℤ◌ : ℤ → ℤ → ℤ
a -ℤ b = sub_ℕ (pos_part a + neg_part b) (neg_part a + pos_part b)

abbrev pub ltb_ℤ : ℤ → ℤ → Bool
ltb_ℤ a b = ltb (pos_part a + neg_part b) (pos_part b + neg_part a)

abbrev pub leb_ℤ : ℤ → ℤ → Bool
leb_ℤ a b = leb (pos_part a + neg_part b) (pos_part b + neg_part a)

abbrev pub magnitude : ℤ → ℕ
magnitude a = pos_part a + neg_part a

-- Whether a product of the two is at least 0.
abbrev pub sign : ℤ → ℤ → Bool
sign (pos a) (pos b) = true
sign (negsuc a) (negsuc b) = true
sign _ _ = false

abbrev pub scale : Bool → ℕ → ℤ
scale true n = pos n
scale false n = sub_ℕ 0 n
