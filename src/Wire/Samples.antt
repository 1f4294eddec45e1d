-- ===== src/Wire/Samples.antt =====
-- A few floats with their IEEE 754 single precision patterns, to run the code on.
use quadrocopt.Base.{ℕ, ◌^◌, ◌<◌, ◌≡◌, refl, ◌==◌, if◌then◌else◌, arith}
use quadrocopt.Wire.{FloatRepr}

pub data Sample : Type 0 where
  nought one minus_one gravity : Sample

abbrev sample_bits : Sample → ℕ
sample_bits nought = 0
sample_bits one = 0x3f80_0000
sample_bits minus_one = 0xbf80_0000
sample_bits gravity = 0x411c_f5c3

abbrev sample_of_bits : ℕ → Sample
sample_of_bits n =
    if n == 0x3f80_0000
    then one
    else if n == 0xbf80_0000
    then minus_one
    else if n == 0x411c_f5c3
    then gravity
    else nought

pub sample_bits_lt : (f : Sample) → sample_bits f < 2 ^ 32
sample_bits_lt nought = omega arith
sample_bits_lt one = omega arith
sample_bits_lt minus_one = omega arith
sample_bits_lt gravity = omega arith

pub sample_of_bits-bits : (f : Sample) → sample_of_bits (sample_bits f) ≡ f
sample_of_bits-bits nought = refl
sample_of_bits-bits one = refl
sample_of_bits-bits minus_one = refl
sample_of_bits-bits gravity = refl

abbrev pub samples : FloatRepr Sample
samples = record {
  bits = sample_bits;
  of_bits = sample_of_bits;
  bits_lt = sample_bits_lt;
  of_bits-bits = sample_of_bits-bits;
}
