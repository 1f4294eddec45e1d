-- ===== src/Text/Strings.antt =====
-- Texts without a NUL, in memory.
use quadrocopt.Base.{
  ℕ, zero, suc, ◌+◌, ◌-◌, ◌<◌, ◌≤◌, ◌≡◌, ◌≢◌, refl, ap, arith, List, [], ◌∷◌, ◌++◌, length, take,
  drop, All, ok, write_at, write_at-append, le→leb, length-append, length-drop,
}
use mathlib.Core.List.{append-nil, append_assoc}
use quadrocopt.Text.{strlen, snprintf, write_terminated}

abbrev pub IsText : List ℕ → Type 0
IsText = All (λ c. c ≢ 0)

pub strlen-append : (s rest : List ℕ) → IsText s → strlen (s ++ 0 ∷ rest) ≡ ok (length s)
strlen-append [] rest is = refl
strlen-append (zero ∷ s) rest is = absurd (is.0 refl)
strlen-append (suc c ∷ s) rest is = rw (strlen-append s rest is.1) refl

pub take_enough : (n : ℕ) (l : List ℕ) → length l ≤ n → take n l ≡ l
take_enough zero [] fits = refl
take_enough (suc n) [] fits = refl
take_enough zero (x ∷ l) fits = absurd (omega arith)
take_enough (suc n) (x ∷ l) fits = rw (take_enough n l (omega arith)) refl

-- A write at the start of a block.
pub write_at-start :
    (l src : List ℕ) → length src ≤ length l → write_at l 0 src ≡ ok (src ++ drop (length src) l)
unfolding write_at
write_at-start l src fits =
    let e : 0 + length src ≡ length src = omega arith in
    rw e (rw (le→leb (length src) (length l) fits) refl)

-- What `snprintf` leaves in a block: the text and its NUL, then what is left of the block.
pub record Written (buf text : List ℕ) (size : ℕ) : Type 0 where
  pub rest : List ℕ
  pub writes : snprintf buf size text ≡ ok (text ++ 0 ∷ rest)
  pub count : length text + suc (length rest) ≡ length buf

-- A text that fits is written whole.
pub snprintf-Written :
    (buf text : List ℕ) (size : ℕ) → length text < size → size ≤ length buf → Written buf text size
snprintf-Written buf text size fits room =
    let src = text ++ 0 ∷ [] in
    let len : length src ≡ length text + 1 = length-append text (0 ∷ []) in
    record {
      rest = drop (length src) buf;
      writes = rw (take_enough (size - 1) text (omega arith)) (
          rw (write_at-start buf src (omega arith))
            (ap ok (append_assoc text (0 ∷ []) (drop (length src) buf))));
      count = omega (arith, length-drop (length src) buf);
    }

-- A write over the end of a block.
pub write_at-end :
    (xs ys src : List ℕ) (offset : ℕ)
    → offset ≡ length xs
    → length src ≡ length ys
    → write_at (xs ++ ys) offset src ≡ ok (xs ++ src)
write_at-end xs ys src offset e d =
    let h = write_at-append xs ys [] src offset e d in
    rw (append-nil ys) at (rw (append-nil src) at h)

-- A text and then its NUL, put into a block of just that size.
pub write_terminated-ok :
    (block text : List ℕ)
    → length block ≡ length text + 1
    → write_terminated block text (length text) ≡ ok (text ++ 0 ∷ [])
write_terminated-ok block text size = rw (write_at-start block text (omega arith)) (
    write_at-end text (drop (length text) block) (0 ∷ []) (length text) refl
      (omega (arith, length-drop (length text) block)))

pub append-IsText : (s t : List ℕ) → IsText s → IsText t → IsText (s ++ t)
append-IsText [] t is is' = is'
append-IsText (c ∷ s) t is is' = (is.0, append-IsText s t is.1 is')
