-- ===== src/Framing/Transfer.antt =====
-- include/tarantool_connector/detail/tntpp_iproto_framing.h: `transfer_exactly`, the next bytes of
-- the stream however the network cuts them up.
use tntpp.Common.{
  ℕ, ◌-◌, ◌^◌, ◌≤◌, ◌<◌, ◌≡◌, refl, sym, ap, ◌∙◌, inl, inr, List, ◌++◌, arith, append_assoc, leb,
  Bool-cases, length, length-append, ◌≢◌,
}
use tntpp.Errc.{ErrorCode, Result, ok, fail, abort}
use tntpp.Transport.{Transport, Read, received, failed, IsStream}
use tntpp.Buffer.{MutableBuffer, FrozenBuffer, contents, frozen_bytes}
use tntpp.Buffer.State.{unread, room, length-contents, IsFrozen}
use tntpp.Buffer.Prepare.{receive_region}
use tntpp.Buffer.Transfer.{
  written, written-IsValid, written-contents, advance_writer_of-fill, consumed, front, length-front,
  advance_reader_of_lem, consumed-contents, front-IsFrozen,
}
use tntpp.Framing.{Framing, take_ready, finish_read, read_more, transfer_exactly}
use tntpp.Framing.Ready.{
  IsReady, make_room-HasRoom, get_ready_buffer_lem, filled-IsReady, filled-contents,
  written-IsReady, consumed-IsReady,
}

module _ (t : Transport) (laws : IsStream t) where
  -- All bytes that have not been consumed: those in the buffer and those still to be read.
  abbrev pub stream : Framing t → List ℕ
  stream fr = contents fr.buffer ++ laws.pending fr.next_layer

  -- A read operation completed with this error.
  abbrev pub ReadFails : ErrorCode → Type 0
  ReadFails e =
      (s s' : t.Socket) × (size least : ℕ) × (bs : List ℕ) × (t.async_read s size least
        ≡ (failed e bs, s'))

  -- A read operation completed with this error although the bytes that it asked for were still to
  -- come.
  abbrev pub ReadBreaks : ErrorCode → Type 0
  ReadBreaks e =
      (s s' : t.Socket) × (size least : ℕ) × (bs : List ℕ) × (t.async_read s size least
        ≡ (failed e bs, s'))
      × (least ≤ length (laws.pending s))

  -- The read operation of `transfer_exactly(n)` for the missing bytes completed with this error.
  abbrev pub FailsAt : Framing t → ℕ → ErrorCode → Type 0
  FailsAt fr n e =
      (s' : t.Socket) × (size : ℕ) × (bs : List ℕ) × (t.async_read fr.next_layer size
          (n - unread fr.buffer)
        ≡ (failed e bs, s'))

  pub FailsAt-ReadFails : (fr : Framing t) (n : ℕ) (e : ErrorCode) → FailsAt fr n e → ReadFails e
  FailsAt-ReadFails fr n e (s', size, bs, q) =
      (fr.next_layer, s', size, n - unread fr.buffer, bs, q)

  -- The stream had the bytes.
  pub FailsAt-ReadBreaks :
      (fr : Framing t) (xs rest : List ℕ) (n : ℕ) (e : ErrorCode)
      → IsReady fr.buffer
      → stream fr ≡ xs ++ rest
      → length xs ≡ n
      → FailsAt fr n e
      → ReadBreaks e
  FailsAt-ReadBreaks fr xs rest n e d q l (s', size, bs, z) = (
    fr.next_layer,
    s',
    size,
    n - unread fr.buffer,
    bs,
    z,
    omega (
      arith,
      length-contents fr.buffer d.valid,
      ap length q,
      length-append (contents fr.buffer) (laws.pending fr.next_layer),
      length-append xs rest,
    ),
  )

  -- How `transfer_exactly(n)` ends.
  abbrev pub Transferred : Framing t → ℕ → Result FrozenBuffer × Framing t → Type 0
  Transferred fr n (ok f, fr') =
      IsReady fr'.buffer
      × IsFrozen fr'.buffer f
      × (stream fr ≡ frozen_bytes fr'.buffer f ++ stream fr')
      × (length (frozen_bytes fr'.buffer f) ≡ n)
      × (f.size ≡ n)
  Transferred fr n (fail e, fr') =
      IsReady fr'.buffer × (contents fr'.buffer ≡ contents fr.buffer) × FailsAt fr n e
  Transferred fr n (abort, fr') = ⊥

  take_ready-Transferred :
      (n : ℕ) (fr : Framing t)
      → IsReady fr.buffer
      → n ≤ unread fr.buffer
      → Transferred fr n (take_ready t n fr)
  unfolding take_ready
  take_ready-Transferred n fr d h =
      let m = fr.buffer in
      let v = d.valid in
      rw (advance_reader_of_lem m n v h, take_ready)
        (
          consumed-IsReady m n d h,
          front-IsFrozen m n v h,
          ap (λ c. c ++ laws.pending fr.next_layer) (consumed-contents m n v h)
              ∙ append_assoc (frozen_bytes (consumed m n) (front m n)) (contents (consumed m n))
                  (laws.pending fr.next_layer),
          length-front m n v h,
          refl,
        )

  -- The same from another state with the same stream.
  Transferred-of_eq :
      (fr fr' : Framing t) (n : ℕ) (r : Result FrozenBuffer × Framing t)
      → stream fr ≡ stream fr'
      → ((s : Framing t) (e : ErrorCode) → r ≢ (fail e, s))
      → Transferred fr' n r
      → Transferred fr n r
  Transferred-of_eq fr fr' n (ok f, s) e nf (d, i, q, l, z) = (d, i, e ∙ q, l, z)
  Transferred-of_eq fr fr' n (fail k, s) e nf h = absurd (nf s k refl)
  Transferred-of_eq fr fr' n (abort, s) e nf h = h

  take_ready-ne-fail : (n : ℕ) (fr s : Framing t) (e : ErrorCode) → take_ready t n fr ≢ (fail e, s)
  unfolding take_ready
  take_ready-ne-fail n fr s e h = ground arith

  -- The read filled the room with at least the missing bytes, or failed.
  finish_read-Transferred :
      (fr : Framing t) (n : ℕ) (m : MutableBuffer) (x : Read) (s : t.Socket)
      → IsReady m
      → contents m ≡ contents fr.buffer
      → unread fr.buffer ≡ unread m
      → n ≤ room m
      → t.async_read fr.next_layer (room m) (n - unread m) ≡ (x, s)
      → Transferred fr n (finish_read t m (receive_region m) n (x, s))
  unfolding finish_read
  finish_read-Transferred fr n m (failed e bs) s d k same le q = (
    filled-IsReady m bs d,
    filled-contents m bs d ∙ k,
    (s, room m, bs, ap (λ u. t.async_read fr.next_layer (room m) (n - u)) same ∙ q),
  )
  finish_read-Transferred fr n m (received bs) s d k _ le q =
      let v = d.valid in
      let (lo, hi) = laws.read_bounds fr.next_layer s (room m) (n - unread m) bs (omega arith) q in
      let w = written-contents m bs v hi in
      let more : n ≤ unread (written m bs) = omega (
        arith,
        length-contents m v,
        length-contents (written m bs) (written-IsValid m bs v hi),
        ap length w,
        length-append (contents m) bs,
      ) in
      let fr' : Framing t = record { next_layer = s; buffer = written m bs } in
      let same : stream fr ≡ stream fr' =
        ap (λ l. contents fr.buffer ++ l) (laws.read_pending fr.next_layer s _ _ bs q)
        ∙ sym (append_assoc (contents fr.buffer) bs (laws.pending s))
        ∙ ap (λ c. (c ++ bs) ++ laws.pending s) (sym k)
        ∙ ap (λ c. c ++ laws.pending s) (sym w) in
      rw (advance_writer_of-fill m bs v hi, finish_read)
        (Transferred-of_eq fr fr' n (take_ready t n fr') same (λ z e. take_ready-ne-fail n fr' z e)
          (take_ready-Transferred n fr' (written-IsReady m bs d hi) more))

  read_more-Transferred :
      (fr : Framing t) (n : ℕ)
      → IsReady fr.buffer
      → n ≤ 2 ^ 32
      → unread fr.buffer < n
      → Transferred fr n (read_more t n fr)
  unfolding read_more
  read_more-Transferred fr n d le lt =
      let (m, e, h) = make_room-HasRoom fr.buffer n d le lt in
      let dm = h.is_ready in
      let v = d.valid in
      let w = dm.valid in
      let same : unread fr.buffer ≡ unread m =
        omega (arith, length-contents fr.buffer v, length-contents m w, ap length h.kept) in
      let (x, s) = t.async_read fr.next_layer (room m) (n - unread fr.buffer) in
      rw (e, read_more)
        (finish_read-Transferred fr n m x s dm h.kept same h.enough
          (ap (λ u. t.async_read fr.next_layer (room m) (n - u)) (sym same)))

  -- On a well-formed buffer and for at most 2^32 bytes no assertion of `transfer_exactly(n)`
  -- fails. If it completes without an error, the frozen buffer shows exactly the next `n` bytes of
  -- the stream, those buffered and then those still to come, and the rest of the stream is left;
  -- otherwise
  -- the read of the missing bytes failed with that error, and the buffered bytes are still there.
  -- The buffer stays well formed.
  pub transfer_exactly-Transferred :
      (fr : Framing t) (n : ℕ)
      → IsReady fr.buffer
      → n ≤ 2 ^ 32
      → Transferred fr n (transfer_exactly t n fr)
  unfolding transfer_exactly
  transfer_exactly-Transferred fr n d le =
      let v = d.valid in
      elim (Bool-cases (leb n (unread fr.buffer))) [
        | inl e ↦
            rw (get_ready_buffer_lem fr.buffer v, e, transfer_exactly)
              (take_ready-Transferred n fr d (ground arith))
        | inr e ↦
            rw (get_ready_buffer_lem fr.buffer v, e, transfer_exactly)
              (read_more-Transferred fr n d le (ground arith))
      ]
