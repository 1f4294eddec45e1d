-- ===== src/Packet/Building.antt =====
-- What `fill_packet` stores and what `get_floats` reads: each float's four bytes, one after another.
use mathlib.Core.List.{append_assoc, append-nil}
use quadrocopt.Base.{
  ℕ, suc, ◌+◌, ◌-◌, ◌*◌, ◌≡◌, refl, ap, ◌∙◌, sym, List, [], ◌∷◌, ◌++◌, arith, length, replicate,
  length-append, get_elem?-append, replicate-add, ok, write_at, read_at-append, write_at-append,
}
use quadrocopt.Wire.{FloatRepr, float_to_char_arr, char_arr_to_float}
use quadrocopt.Wire.Floats.{char_arr_to_float-float_to_char_arr, length-float_to_char_arr}
use quadrocopt.Packet.{fill_loop, get_slice, get_floats_loop}

module _ {F : Type 0} (r : FloatRepr F) where
  abbrev pub encode : List F → List ℕ
  encode [] = []
  encode (f ∷ fs) = float_to_char_arr r f ++ encode fs

  pub length-encode : (fs : List F) → length (encode fs) ≡ 4 * length fs
  length-encode [] = refl
  length-encode (f ∷ fs) = omega (
    arith,
    length-append (float_to_char_arr r f) (encode fs),
    length-float_to_char_arr r f,
    length-encode fs,
  )

  -- One round stores the four bytes behind those that are stored already.
  fill_round :
      (f : F) (done : List ℕ) (left offset : ℕ)
      → offset ≡ length done
      → write_at (done ++ replicate (4 * suc left) 0) offset (float_to_char_arr r f)
        ≡ ok ((done ++ float_to_char_arr r f) ++ replicate (4 * left) 0)
  fill_round f done left offset e =
      let split : 4 * suc left ≡ 4 + 4 * left = omega arith in
      rw split (
        rw (replicate-add {A = ℕ} 4 (4 * left) 0) (
          write_at-append done (replicate 4 0) (replicate (4 * left) 0) (float_to_char_arr r f)
            offset e (length-float_to_char_arr r f)
          ∙ ap ok (sym (append_assoc done (float_to_char_arr r f) (replicate (4 * left) 0)))))

  pub fill_loop-encode :
      (fs before after : List F) (done : List ℕ) (offset : ℕ)
      → offset ≡ length done
      → fill_loop r
          (length fs)
          (length before)
          offset
          (before ++ (fs ++ after))
          (done ++ replicate (4 * length fs) 0)
        ≡ ok (done ++ encode fs)
  unfolding fill_loop
  fill_loop-encode [] before after done offset e = refl
  fill_loop-encode (f ∷ fs) before after done offset e =
      let bytes = float_to_char_arr r f in
      let next : length before + 1 ≡ length (before ++ f ∷ []) =
        omega (arith, length-append before (f ∷ [])) in
      let here : before ++ f ∷ (fs ++ after) ≡ (before ++ f ∷ []) ++ (fs ++ after) =
        sym (append_assoc before (f ∷ []) (fs ++ after)) in
      rw (get_elem?-append before (fs ++ after) f) (
        rw (fill_round f done (length fs) offset e) (
          rw next (
            rw here (
              fill_loop-encode fs (before ++ f ∷ []) after (done ++ bytes) (offset + 4)
                (omega (arith, length-append done bytes, length-float_to_char_arr r f))
              ∙ ap ok (append_assoc done bytes (encode fs))))))

  pub get_floats_loop-encode :
      (fs : List F) (before after : List ℕ) (offset : ℕ)
      → offset ≡ length before
      → get_floats_loop r (length fs) offset (before ++ (encode fs ++ after)) ≡ ok fs
  unfolding get_floats_loop get_slice
  get_floats_loop-encode [] before after offset e = refl
  get_floats_loop-encode (f ∷ fs) before after offset e =
      let bytes = float_to_char_arr r f in
      let size : offset + 4 - offset ≡ 4 = omega arith in
      let whole : (bytes ++ encode fs) ++ after ≡ bytes ++ (encode fs ++ after) =
        append_assoc bytes (encode fs) after in
      let onward : before ++ (bytes ++ (encode fs ++ after))
          ≡ (before ++ bytes) ++ (encode fs ++ after) =
        sym (append_assoc before bytes (encode fs ++ after)) in
      let read : char_arr_to_float r bytes ≡ ok f =
        ap (char_arr_to_float r) (sym (append-nil bytes))
        ∙ char_arr_to_float-float_to_char_arr r f [] in
      rw (size, whole)
        (rw
          (read_at-append before bytes (encode fs ++ after) offset 4 e
            (sym (length-float_to_char_arr r f)))
          (rw read (
            rw onward (
              rw (
                get_floats_loop-encode fs (before ++ bytes) after (offset + 4)
                  (omega (arith, length-append before bytes, length-float_to_char_arr r f)))))))
