-- ===== src/Client/AngleCommand/Laws.antt =====
-- What a command holds after it is set, and what its clean frees.
use quadrocopt.Base.{
  ℕ, ◌+◌, ◌≤◌, ◌≡◌, ◌≢◌, arith, List, [], ◌∷◌, ◌++◌, length, length-append, take, none, some, ok,
  fault, ◌∙◌, sym, refl, read_at-ok,
}
use quadrocopt.Heap.{Ptr, Heap, release, block_at, free, live, copy_arr_of_floats}
use quadrocopt.Heap.Laws.{
  Points, Keeps, block_at-release, block_at-release_other, block_at-append, block_at-new,
  block_at-lt, live-new, live-release,
}
use quadrocopt.Client.AngleCommand.{
  AngleCoordCommand, set_angle_position, set_angle_command_u, clean_angle_position,
}

module _ {F : Type 0} where
  -- The first floats of a block, copied.
  copy_first :
      (h : Heap F) (src : Ptr) (n : ℕ) {b : List F}
      → Points h src b
      → n ≤ length b
      → copy_arr_of_floats h src n ≡ ok (some (length h), h ++ some (take n b) ∷ [])
  unfolding copy_arr_of_floats
  copy_first h src n {b} at fits = rw at (rw (read_at-ok b 0 n (omega (arith, fits))) refl)

  Points-append : (h t : Heap F) (p : Ptr) {b : List F} → Points h p b → Points (h ++ t) p b
  Points-append h t none at = cc
  Points-append h t (some i) at = block_at-append h t i at

  -- A position of at least seven floats and angles of at least eight, each in a block in use: the
  -- command gets copies of the first seven and of the first eight, keeps its u, and its clean
  -- frees both copies, so that all is in use as before and nothing else; to clean it again frees a
  -- block that is no longer in use.
  pub set_angle_position-clean :
      (h : Heap F) (c : AngleCoordCommand) (position angle : Ptr) (xs ys : List F)
      → Points h position xs
      → Points h angle ys
      → 7 ≤ length xs
      → 8 ≤ length ys
      → (made : AngleCoordCommand) × (g after : Heap F) × (set_angle_position h c position angle
          ≡ ok (made, g))
        × Points g made.position (take 7 xs)
        × Points g made.angle (take 8 ys)
        × (made.u ≡ c.u)
        × (clean_angle_position g made ≡ ok after)
        × Keeps h none after
        × (live after ≡ live h)
        × (clean_angle_position after made ≡ fault)
  unfolding set_angle_position clean_angle_position free
  set_angle_position-clean h c position angle xs ys at_position at_angle enough enough' =
      let first = take 7 xs in
      let second = take 8 ys in
      let h1 : Heap F = h ++ some first ∷ [] in
      let g : Heap F = h1 ++ some second ∷ [] in
      let i = length h in
      let j = length h1 in
      let apart : i ≢ j = λ e. omega (arith, e, length-append h (some first ∷ [])) in
      let at_i : block_at g i ≡ ok first = block_at-append h1 _ i (block_at-new h first) in
      let at_j : block_at g j ≡ ok second = block_at-new h1 second in
      let k = release g i in
      let at_j' : block_at k j ≡ ok second = block_at-release_other g i j apart ∙ at_j in
      (
        record c { position = some i; angle = some j },
        g,
        release k j,
        rw (copy_first h position 7 at_position enough)
            (rw (copy_first h1 angle 8 (Points-append h _ angle at_angle) enough') refl),
        at_i,
        at_j,
        refl,
        rw at_i (rw at_j' refl),
        λ l b _ at.
            let l_in = block_at-lt h l at in
            block_at-release_other k j l
              (λ e. omega (arith, e, l_in, length-append h (some first ∷ [])))
            ∙ block_at-release_other g i l (λ e. omega (arith, e, l_in))
            ∙ block_at-append h1 _ l (block_at-append h _ l at),
        omega (
          arith,
          live-new h first,
          live-new h1 second,
          live-release g i at_i,
          live-release k j at_j',
        ),
        rw (block_at-release_other k j i (λ e. apart (sym e)) ∙ block_at-release g i) refl,
      )

  -- A command of at least four floats, set: the one that was there is neither freed nor kept.
  set_angle_command_u-copy :
      (h : Heap F) (c : AngleCoordCommand) (u_vec : Ptr) (us : List F)
      → Points h u_vec us
      → 4 ≤ length us
      → (made : AngleCoordCommand) × (g : Heap F) × (set_angle_command_u h c u_vec ≡ ok (made, g))
        × Points g made.u (take 4 us)
        × (made.position ≡ c.position)
        × (made.angle ≡ c.angle)
        × (live g ≡ live h + 1)
  unfolding set_angle_command_u
  set_angle_command_u-copy h c u_vec us at enough = (
    record c { u = some (length h) },
    h ++ some (take 4 us) ∷ [],
    rw (copy_first h u_vec 4 at enough) refl,
    block_at-new h (take 4 us),
    refl,
    refl,
    omega (arith, live-new h (take 4 us)),
  )
