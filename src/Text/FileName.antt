-- ===== src/Text/FileName.antt =====
-- The name of a log file: `gen_file_name` of client/io_stuff.c and server/io_stuff.c.
use quadrocopt.Base.{
  ℕ, zero, suc, ◌+◌, ◌-◌, ◌≤◌, ◌<◌, ◌≡◌, refl, ap, ◌∙◌, arith, List, [], ◌∷◌, ◌++◌, length, take,
  drop, map, Outcome, ok, fault, ◌>>=◌, read_at, write_at, read_at-append, read_at-ok,
  length-append, length-map, length-take, length-drop, ◌==◌, if◌then◌else◌,
}
use mathlib.Core.List.{append_assoc}
use quadrocopt.Text.{strlen}
use quadrocopt.Text.Strings.{IsText, strlen-append, write_at-start, write_at-end, append-IsText}

-- "./log/REC_".
abbrev pub log_prefix : List ℕ
log_prefix = 46 ∷ 47 ∷ 108 ∷ 111 ∷ 103 ∷ 47 ∷ 82 ∷ 69 ∷ 67 ∷ 95 ∷ []

abbrev pub underscore : ℕ → ℕ
underscore c = if c == 32 then 95 else c

-- The loop of `gen_file_name` over the bytes up to the NUL.
abbrev pub replace_loop : List ℕ → Outcome (List ℕ)
replace_loop [] = fault
replace_loop (zero ∷ p) = ok (0 ∷ p)
replace_loop (suc c ∷ p) = do rest ← replace_loop p; ok (underscore (suc c) ∷ rest)

-- From `sprintf` on; `plain` is what it writes, `stack` what `buf` holds at the start.
abbrev pub name_of : (malloc : ℕ → List ℕ) (stack plain : List ℕ) → Outcome (List ℕ)
name_of malloc stack plain = do
  buf ← write_at stack 0 (plain ++ 0 ∷ [])
  buf ← replace_loop buf
  res_len ← strlen buf
  start ← read_at buf 0 (res_len - 6)
  res ← write_at (malloc (res_len + 1)) 0 start
  write_at res res_len (0 ∷ [])

-- `t_repr` is the text that `ctime` gives.
unfoldable pub gen_file_name : (malloc : ℕ → List ℕ) (stack t_repr : List ℕ) → Outcome (List ℕ)
gen_file_name malloc stack t_repr = do
  t_len ← strlen t_repr
  text ← read_at t_repr 0 t_len
  name_of malloc stack (log_prefix ++ text)

replace_loop-append :
    (s rest : List ℕ) → IsText s → replace_loop (s ++ 0 ∷ rest) ≡ ok (map underscore s ++ 0 ∷ rest)
replace_loop-append [] rest is = refl
replace_loop-append (zero ∷ s) rest is = absurd (is.0 refl)
replace_loop-append (suc c ∷ s) rest is = rw (replace_loop-append s rest is.1) refl

underscore-IsText : (s : List ℕ) → IsText s → IsText (map underscore s)
underscore-IsText [] is = tt
underscore-IsText (c ∷ s) is = let first = is.0 in (λ e. ground arith, underscore-IsText s is.1)

take-append_left : (n : ℕ) (s t : List ℕ) → n ≤ length s → take n (s ++ t) ≡ take n s
take-append_left zero s t within = refl
take-append_left (suc n) [] t within = absurd (omega arith)
take-append_left (suc n) (c ∷ s) t within = ap (λ r. c ∷ r) (take-append_left n s t (omega arith))

log_prefix-IsText : IsText log_prefix
log_prefix-IsText = (
  λ e. cc,
  (
    λ e. cc,
    (λ e. cc, (λ e. cc, (λ e. cc, (λ e. cc, (λ e. cc, (λ e. cc, (λ e. cc, (λ e. cc, tt)))))))),
  ),
)

-- A text with an underscore, 95, for each space, 32, and every other byte as it is.
abbrev pub spaced : List ℕ → List ℕ
spaced [] = []
spaced (c ∷ s) = (if c == 32 then 95 else c) ∷ spaced s

underscore-spaced : (s : List ℕ) → map underscore s ≡ spaced s
underscore-spaced [] = refl
underscore-spaced (c ∷ s) = ap (λ r. (if c == 32 then 95 else c) ∷ r) (underscore-spaced s)

-- What a block that was asked for with `m + 1` bytes keeps when all but the last six of `m` bytes
-- and a NUL at its end are written: the six bytes between are what the memory held.
abbrev pub all_but_six : (malloc : ℕ → List ℕ) (name : List ℕ) → List ℕ
all_but_six malloc name =
    let m = length name in take (m - 6) name ++ (take 6 (drop (m - 6) (malloc (m + 1))) ++ 0 ∷ [])

take_append_drop : (n : ℕ) (l : List ℕ) → take n l ++ drop n l ≡ l
take_append_drop zero l = refl
take_append_drop (suc n) [] = refl
take_append_drop (suc n) (c ∷ l) = ap (λ r. c ∷ r) (take_append_drop n l)

-- A write of one byte behind the first part of a block and six bytes more, where the block ends.
write_at-seventh :
    (xs rest : List ℕ) (offset : ℕ)
    → offset ≡ length xs + 6
    → length rest ≡ 7
    → write_at (xs ++ rest) offset (0 ∷ []) ≡ ok (xs ++ (take 6 rest ++ 0 ∷ []))
write_at-seventh xs rest offset at seven =
    let six = take 6 rest in
    let h =
      write_at-end (xs ++ six) (drop 6 rest) (0 ∷ []) offset
        (omega (arith, length-append xs six, length-take 6 rest))
        (omega (arith, length-drop 6 rest)) in
    rw (take_append_drop 6 rest) at
      (rw (append_assoc xs six (drop 6 rest)) at (rw (append_assoc xs six (0 ∷ [])) at h))

name_of-all_but_six :
    (malloc : ℕ → List ℕ) (stack plain : List ℕ)
    → ((n : ℕ) → length (malloc n) ≡ n)
    → IsText plain
    → 6 ≤ length plain
    → length plain < length stack
    → name_of malloc stack plain ≡ ok (all_but_six malloc (map underscore plain))
name_of-all_but_six malloc stack plain size is long short =
    let name = map underscore plain in
    let m = length name in
    let left = drop (length (plain ++ 0 ∷ [])) stack in
    let named : m ≡ length plain = length-map underscore plain in
    let start : length (take (m - 6) name) ≡ m - 6 = omega (arith, length-take (m - 6) name) in
    let rest = drop (m - 6) (malloc (m + 1)) in
    let seven : length rest ≡ 7 =
      omega (arith, size (m + 1), length-drop (m - 6) (malloc (m + 1))) in
    rw (write_at-start stack (plain ++ 0 ∷ []) (omega (arith, length-append plain (0 ∷ [])))) (
      rw (append_assoc plain (0 ∷ []) left) (
        rw (replace_loop-append plain left is) (
          rw (strlen-append name left (underscore-IsText plain is)) (
            rw
              (read_at-ok (name ++ 0 ∷ left) 0 (m - 6)
                (omega (arith, length-append name (0 ∷ left))))
              (rw (take-append_left (m - 6) name (0 ∷ left) (omega arith)) (
                rw
                  (write_at-start (malloc (m + 1)) (take (m - 6) name)
                    (omega (arith, size (m + 1))))
                  (rw start (write_at-seventh (take (m - 6) name) rest m (omega arith) seven))))))))

-- For a time of at most 244 bytes: the name of ./log/REC_ and the time is written without an
-- access outside its block, with the byte 95 for every byte 32, a space, of the time and a NUL
-- behind it, but the six bytes before the NUL are not written: they are what the new memory held.
pub gen_file_name-all_but_six :
    (malloc : ℕ → List ℕ) (stack text after : List ℕ)
    → ((n : ℕ) → length (malloc n) ≡ n)
    → length stack ≡ 255
    → IsText text
    → length text ≤ 244
    → gen_file_name malloc stack (text ++ 0 ∷ after)
      ≡ ok (all_but_six malloc (46 ∷ 47 ∷ 108 ∷ 111 ∷ 103 ∷ 47 ∷ 82 ∷ 69 ∷ 67 ∷ 95 ∷ spaced text))
unfolding gen_file_name
gen_file_name-all_but_six malloc stack text after size size' is short =
    rw (strlen-append text after is) (
      rw (read_at-append [] text (0 ∷ after) 0 (length text) refl refl) (
        name_of-all_but_six malloc stack (log_prefix ++ text) size
          (append-IsText log_prefix text log_prefix-IsText is) (omega arith) (omega arith)
        ∙ ap (λ s. ok (all_but_six malloc s)) (underscore-spaced (log_prefix ++ text))))
