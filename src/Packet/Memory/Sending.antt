-- ===== src/Packet/Memory/Sending.antt =====
-- What the senders and the listeners leave in memory.
use mathlib.Core.List.{append-nil}
use quadrocopt.Base.{
  Bool, Bool-cases, ◌&&◌, if◌then◌else◌, exit, inl, inr, ℕ, ◌+◌, ◌*◌, ◌^◌, ◌<◌, ◌≡◌, refl, ap, sym,
  ◌∙◌, List, [], ◌∷◌, length, some, ok,
}
use quadrocopt.Heap.{Heap, release, block_at, deref}
use quadrocopt.Wire.{FloatRepr}
use quadrocopt.Packet
use quadrocopt.Packet.{Packet}
use quadrocopt.Packet.Roundtrip.{sent, received-sent}
use quadrocopt.Packet.Memory.{
  PacketAt, free_pack, bytes_to_pack, Outgoing, prepare, send_both, send_result,
}
use quadrocopt.Packet.Memory.Laws.{Extends}
use quadrocopt.Packet.Memory.Parsing.{bytes_to_pack-Placed}
use quadrocopt.Packet.Memory.Freeing.{free_first, below}
use quadrocopt.Packet.Memory.Prepared.{Prepared, prepare-Prepared, six_freed}

module _ {F : Type 0} (r : FloatRepr F) where
  both_sent :
      {h g k : Heap ℕ} {p q : Packet} {one two : List ℕ} {a b : Outgoing} (sendto : List ℕ → Bool)
      (first second : List F)
      → prepare r h first ≡ ok (a, g)
      → prepare r g second ≡ ok (b, k)
      → Prepared h p one a g
      → Prepared g q two b k
      → (after : Heap ℕ) × (send_both r sendto h first second
          ≡ (if sendto one && sendto two then ok ((one, two), after) else exit))
        × Extends h 0 after
  unfolding send_both
  both_sent {g = g} {k = k} {one = one} {two = two} {a = a} {b = b} sendto first second made made' x
        y =
      let (_, _, _, after, free_a, free_b, free_one, free_two, ext) = six_freed x y in
      let at : deref g a.bytes ≡ ok one = rw x.fields x.contents in
      let at' : deref k b.bytes ≡ ok two = rw y.fields y.contents in
      (
        after,
        rw made (
            rw at (elim (Bool-cases (sendto one)) [
              | inr fails ↦ rw fails refl
              | inl sends ↦ rw sends (
                  rw made' (
                    rw at' (elim (Bool-cases (sendto two)) [
                      | inr fails ↦ rw fails refl
                      | inl sends' ↦
                          rw sends' (rw free_a (rw free_b (rw free_one (rw free_two refl))))
                    ])))
            ])),
        ext,
      )

  -- A batch whose datagram fits has one.
  datagram :
      (batch : List F)
      → 4 * length batch + 8 < 2 ^ 32
      → (bytes : List ℕ) × (sent r batch (length batch) ≡ ok bytes)
  datagram batch small =
      let (bytes, runs, _, _) = received-sent r batch [] [] small in
      (bytes, ap (λ l. sent r l (length batch)) (sym (append-nil batch)) ∙ runs)

  -- Where both datagrams fit 32 bits, whatever sendto does with them: the client's send_calcs
  -- exits where one of its calls of sendto fails; otherwise it sends what Packet makes of the two
  -- batches, and frees all that it allocated: every block that was in memory is as it was, and as
  -- many blocks are in use as before.
  pub send_both-Extends :
      (sendto : List ℕ → Bool) (h : Heap ℕ) (first second : List F)
      → 4 * length first + 8 < 2 ^ 32
      → 4 * length second + 8 < 2 ^ 32
      → (one two : List ℕ) × (after : Heap ℕ) × (sent r first (length first) ≡ ok one)
        × (sent r second (length second) ≡ ok two)
        × (send_both r sendto h first second
            ≡ (if sendto one && sendto two then ok ((one, two), after) else exit))
        × Extends h 0 after
  send_both-Extends sendto h first second small small' =
      let (one, sends) = datagram first small in
      let (two, sends') = datagram second small' in
      let (p, a, g, made, x) = prepare-Prepared r h first sends in
      let (q, b, k, made', y) = prepare-Prepared r g second sends' in
      let (after, runs, ext) = both_sent sendto first second made made' x y in
      (one, two, after, sends, sends', runs, ext)

  -- Where the datagram fits 32 bits, the server's send_calcs sends what Packet makes of the result
  -- or exits, where sendto fails, and three blocks more are in use after it; every block that was in memory is as it was.
  pub send_result-Extends :
      (sendto : List ℕ → Bool) (h : Heap ℕ) (calcs : List F)
      → 4 * length calcs + 8 < 2 ^ 32
      → (bytes : List ℕ) × (after : Heap ℕ) × (sent r calcs (length calcs) ≡ ok bytes)
        × (send_result r sendto h calcs ≡ (if sendto bytes then ok (bytes, after) else exit))
        × Extends h 3 after
  unfolding send_result
  send_result-Extends sendto h calcs small =
      let (bytes, sends) = datagram calcs small in
      let (p, a, g, made, x) = prepare-Prepared r h calcs sends in
      let at : deref g a.bytes ≡ ok bytes = rw x.fields x.contents in
      (
        bytes,
        g,
        sends,
        rw made (
            rw at (elim (Bool-cases (sendto bytes)) [
              | inl sends ↦ rw sends refl
              | inr fails ↦ rw fails refl
            ])),
        x.extends,
      )

-- A buffer that parses, in memory: the packet has the type, the length and the payload that Packet
-- reads, and where the caller frees it, as run_listener does not, one block more is still in use,
-- the bytes of the length; every block that was in memory is as it was.
pub bytes_to_pack-leak :
    (h : Heap ℕ) (ca : ℕ) (bytes : List ℕ) (p : Packet)
    → block_at h ca ≡ ok bytes
    → Packet.bytes_to_pack bytes ≡ ok p
    → (pack : PacketAt) × (parsed freed : Heap ℕ) × (bytes_to_pack h (some ca) ≡ ok (pack, parsed))
      × (pack.type ≡ p.type)
      × (pack.length ≡ p.length)
      × (deref parsed pack.buf ≡ ok p.buf)
      × Extends h 3 parsed
      × (free_pack parsed pack ≡ ok freed)
      × Extends h 1 freed
unfolding free_pack
bytes_to_pack-leak h ca bytes p there parses =
    let (pack, after, makes, placed, ext) = bytes_to_pack-Placed h ca there parses in
    let (free_1, e_1, u_1) =
      free_first placed.buf (placed.self ∷ []) ext (below placed.buf (length h) placed.new_buf) (
        (p.buf, placed.payload),
        (λ e. placed.apart (sym e), tt),
        (([], placed.structure), tt, tt),
      ) in
    let (free_2, e_2, _) =
      free_first placed.self [] e_1 (below placed.self (length h) placed.new_self) u_1 in
    (
      pack,
      after,
      release (release after placed.buf) placed.self,
      makes,
      rw placed.fields refl,
      rw placed.fields refl,
      rw placed.fields placed.payload,
      ext,
      rw placed.fields (rw free_1 free_2),
      e_2,
    )
