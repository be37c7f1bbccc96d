-- ===== src/Kernel/Frames/Bits.antt =====
-- Reading a bit of the bitmap after one was set or cleared.
use prismatic_os.Base.{
  ℕ, ◌/◌, ◌%◌, ◌<◌, ◌≡◌, refl, Bool, true, false, not, ◌&&◌, arith, ◌==◌, if◌then◌else◌,
}
use prismatic_os.Base.Table.{checks, checks_lem}
use prismatic_os.Kernel.Frames.{
  Frames, set_mask, clear_mask, test_mask, write_byte, bitmap_set_bit, bitmap_clear_bit,
  bitmap_test_bit,
}

abbrev same : Bool → Bool → Bool
same true b = b
same false b = not b

eq_of_same : (a b : Bool) → same a b ≡ true → a ≡ b
eq_of_same a b h = ground arith

-- For every byte and all bits `k`, `j` below 8: bit `j` after a write to bit `k`, and the byte's range.
abbrev byte_laws : ℕ → ℕ → ℕ → Bool
byte_laws b k j =
    same (test_mask (set_mask b k) j) (if k == j then true else test_mask b j)
    && same (test_mask (clear_mask b k) j) (if k == j then false else test_mask b j)

byte_table : checks 256 (λ b. checks 8 (λ k. checks 8 (λ j. byte_laws b k j))) ≡ true
unfolding checks set_mask clear_mask test_mask
byte_table = refl

module _ (b k j : ℕ) (hb : b < 256) (hk : k < 8) (hj : j < 8) where
  byte_law : byte_laws b k j ≡ true
  byte_law = checks_lem 8 _ j (checks_lem 8 _ k (checks_lem 256 _ b byte_table hb) hk) hj

  test-set_mask : test_mask (set_mask b k) j ≡ (if k == j then true else test_mask b j)
  test-set_mask = eq_of_same _ _ (ground (arith, byte_law))

  test-clear_mask : test_mask (clear_mask b k) j ≡ (if k == j then false else test_mask b j)
  test-clear_mask = eq_of_same _ _ (ground (arith, byte_law))

set_mask-lt : (b k : ℕ) → set_mask b k < 256
unfolding set_mask
set_mask-lt b k = omega arith

clear_mask-lt : (b k : ℕ) → clear_mask b k < 256
unfolding clear_mask
clear_mask-lt b k = omega arith

-- Every entry of the bitmap is a byte.
abbrev pub AreBytes : Frames → Type 0
AreBytes s = (i : ℕ) → s.bitmap i < 256

module _ (s : Frames) (h : AreBytes s) where
  pub test-bitmap_set_bit :
      (p j : ℕ)
      → bitmap_test_bit (bitmap_set_bit s p) j ≡ (if p == j then true else bitmap_test_bit s j)
  unfolding bitmap_test_bit bitmap_set_bit write_byte
  test-bitmap_set_bit p j = ground (
    arith,
    test-set_mask (s.bitmap (p / 8)) (p % 8) (j % 8) (h (p / 8)) (omega arith) (omega arith),
  )

  pub test-bitmap_clear_bit :
      (p j : ℕ)
      → bitmap_test_bit (bitmap_clear_bit s p) j ≡ (if p == j then false else bitmap_test_bit s j)
  unfolding bitmap_test_bit bitmap_clear_bit write_byte
  test-bitmap_clear_bit p j = ground (
    arith,
    test-clear_mask (s.bitmap (p / 8)) (p % 8) (j % 8) (h (p / 8)) (omega arith) (omega arith),
  )

  pub bitmap_set_bit-AreBytes : (p : ℕ) → AreBytes (bitmap_set_bit s p)
  unfolding bitmap_set_bit write_byte
  bitmap_set_bit-AreBytes p i = ground (arith, h i, set_mask-lt (s.bitmap (p / 8)) (p % 8))

  pub bitmap_clear_bit-AreBytes : (p : ℕ) → AreBytes (bitmap_clear_bit s p)
  unfolding bitmap_clear_bit write_byte
  bitmap_clear_bit-AreBytes p i = ground (arith, h i, clear_mask-lt (s.bitmap (p / 8)) (p % 8))
