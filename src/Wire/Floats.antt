-- ===== src/Wire/Floats.antt =====
-- Floats and packet types as four bytes.
use quadrocopt.Base.{◌≡◌, refl, ℕ, List, ◌++◌, length, ok, ap, arith, ◌<◌, ◌^◌}
use quadrocopt.Wire.{
  FloatRepr, float_to_char_arr, char_arr_to_float, PacketT, pack_of_floats, init_pack, to_uint,
  of_uint, pack_type_to_bytes, char_arr_to_pack_type,
}
use quadrocopt.Wire.Bytes.{bytes_arr_to_uint-uint_to_bytes_arr, length-uint_to_bytes_arr}

module _ {F : Type 0} (r : FloatRepr F) where
  -- A float written as bytes, with anything behind them, reads back as itself.
  pub char_arr_to_float-float_to_char_arr :
      (f : F) (rest : List ℕ) → char_arr_to_float r (float_to_char_arr r f ++ rest) ≡ ok f
  unfolding char_arr_to_float float_to_char_arr
  char_arr_to_float-float_to_char_arr f rest =
      rw (bytes_arr_to_uint-uint_to_bytes_arr (r.bits f) rest (r.bits_lt f))
        (ap ok (r.of_bits-bits f))

  pub length-float_to_char_arr : (f : F) → length (float_to_char_arr r f) ≡ 4
  unfolding float_to_char_arr
  length-float_to_char_arr f = length-uint_to_bytes_arr (r.bits f)

-- The two packet types of the protocol.
pub data Known : PacketT → Type 0 where
  known_floats : Known pack_of_floats
  known_init : Known init_pack

to_uint-lt : {t : PacketT} → Known t → to_uint t < 2 ^ 32
to_uint-lt known_floats = omega arith
to_uint-lt known_init = omega arith

of_uint-to_uint : {t : PacketT} → Known t → of_uint (to_uint t) ≡ t
of_uint-to_uint known_floats = refl
of_uint-to_uint known_init = refl

pub length-pack_type_to_bytes : (t : PacketT) → length (pack_type_to_bytes t) ≡ 4
unfolding pack_type_to_bytes
length-pack_type_to_bytes t = length-uint_to_bytes_arr (to_uint t)

pub char_arr_to_pack_type-pack_type_to_bytes :
    {t : PacketT} (rest : List ℕ)
    → Known t
    → char_arr_to_pack_type (pack_type_to_bytes t ++ rest) ≡ ok t
unfolding char_arr_to_pack_type pack_type_to_bytes
char_arr_to_pack_type-pack_type_to_bytes {t} rest k =
    rw (bytes_arr_to_uint-uint_to_bytes_arr (to_uint t) rest (to_uint-lt k))
      (ap ok (of_uint-to_uint k))
