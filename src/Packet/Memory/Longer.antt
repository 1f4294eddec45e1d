-- ===== src/Packet/Memory/Longer.antt =====
-- A packet is read the same where more stands behind it in the buffer.
use quadrocopt.Base.{
  ℕ, zero, suc, ◌≤◌, ◌≡◌, refl, ap, sym, ◌∙◌, List, [], ◌∷◌, ◌++◌, length, take, drop, arith, inl,
  inr, ok, read_at, read_at-ok, read_at-eq-ok, length-append, length-drop,
}
use quadrocopt.Wire.{PacketT}
use quadrocopt.Packet
use quadrocopt.Packet.{Packet}
use quadrocopt.Packet.Memory.Parsing.{populate-parts, type-parts}

-- What is read of an array stays what it is with more behind the array.
drop_longer : (l zs : List ℕ) (o : ℕ) → o ≤ length l → drop o (l ++ zs) ≡ drop o l ++ zs
drop_longer [] zs zero le = refl
drop_longer [] zs (suc o) le = absurd (omega arith)
drop_longer (x ∷ l) zs zero le = refl
drop_longer (x ∷ l) zs (suc o) le = drop_longer l zs o (omega arith)

take_longer : (l zs : List ℕ) (n : ℕ) → n ≤ length l → take n (l ++ zs) ≡ take n l
take_longer [] [] zero le = refl
take_longer [] (z ∷ zs) zero le = refl
take_longer [] zs (suc n) le = absurd (omega arith)
take_longer (x ∷ l) zs zero le = refl
take_longer (x ∷ l) zs (suc n) le = ap (λ t. x ∷ t) (take_longer l zs n (omega arith))

read_longer :
    (l zs : List ℕ) (o n : ℕ) {x : List ℕ} → read_at l o n ≡ ok x → read_at (l ++ zs) o n ≡ ok x
read_longer l zs o n {x} reads =
    let fits = (read_at-eq-ok l o n reads).0 in
    read_at-ok (l ++ zs) o n (omega (arith, fits, length-append l zs))
    ∙ ap (λ t. ok (take n t)) (drop_longer l zs o (omega (arith, fits)))
    ∙ ap ok (take_longer (drop o l) zs n (omega (arith, fits, length-drop o l)))
    ∙ sym (read_at-ok l o n fits)
    ∙ reads

populate_longer :
    (l zs : List ℕ) (t : PacketT) {p : Packet}
    → Packet.populate_pack_of_floats l t ≡ ok p
    → Packet.populate_pack_of_floats (l ++ zs) t ≡ ok p
unfolding Packet.populate_pack_of_floats
populate_longer l zs t runs =
    let (len, n, buf, first, second, third, is_p) = populate-parts l t runs in
    rw (read_longer l zs 4 4 first) (rw second (rw (read_longer l zs 8 n third) (ap ok (sym is_p))))

pub parse_longer :
    (l zs : List ℕ) {p : Packet}
    → Packet.bytes_to_pack l ≡ ok p
    → Packet.bytes_to_pack (l ++ zs) ≡ ok p
unfolding Packet.bytes_to_pack
parse_longer l zs runs =
    let (t_arr, t, first, second, populates, known) = type-parts l runs in
    let longer = populate_longer l zs t populates in
    rw (read_longer l zs 0 4 first)
      (rw second (elim known [ inl e ↦ rw e (rw e at longer) | inr e ↦ rw e (rw e at longer) ]))
