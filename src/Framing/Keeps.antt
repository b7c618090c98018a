-- ===== src/Framing/Keeps.antt =====
-- include/tarantool_connector/detail/tntpp_iproto_framing.h: what becomes of the frozen buffers
-- that were handed out while the framing goes on to receive.
use Prim.Native.Nat.{bit_and}
use tntpp.Common.{
  ◌%◌, ℕ, ◌-◌, ◌^◌, ◌≤◌, ◌<◌, ◌≡◌, refl, inl, inr, Bool, true, false, List, arith, leb, Bool-cases,
  if◌then◌else◌, slice-write_at_before,
}
use tntpp.Errc.{Result, ok, fail, abort}
use tntpp.Coroutine.{Co, continue, ◌>>=◌, complete}
use tntpp.Transport.{Transport, Read, received, failed, IsStream}
use tntpp.Buffer.{MutableBuffer, FrozenBuffer, current, fill}
use tntpp.Buffer.State.{unread, room, Keeps, Keeps-refl, Keeps-trans}
use tntpp.Buffer.Prepare.{receive_region}
use tntpp.Buffer.Transfer.{
  written, written-Keeps, advance_writer_of-fill, advance_reader_of_lem, consumed-Keeps,
  advance_reader_of-none,
}
use tntpp.Framing.{
  pos, negsuc, signed, check_length, Framing, take_ready, finish_read, read_more, transfer_exactly,
  read_be, transfer_be, length_of_type, read_message_length,
}
use tntpp.Framing.Ready.{IsReady, written-IsReady, make_room-HasRoom, get_ready_buffer_lem}
use tntpp.Framing.Transfer.{Transferred, transfer_exactly-Transferred}

-- A read that fails leaves bytes behind the written ones.
filled-Keeps : (m : MutableBuffer) (bs : List ℕ) → Keeps m (fill m (receive_region m) bs)
unfolding fill
filled-Keeps m bs a i n h =
    ground (arith, slice-write_at_before i n (current m).write_pointer bs (current m).bytes)

module _ (t : Transport) (laws : IsStream t) where
  -- Where a coroutine leaves the buffer that it started with.
  abbrev pub KeepsIn {ℓ} : {A : Type ℓ} → MutableBuffer → Result A × Framing t → Type 0
  KeepsIn m x = IsReady x.1.buffer × Keeps m x.1.buffer

  take_ready-Keeps :
      (n : ℕ) (fr : Framing t) → IsReady fr.buffer → Keeps fr.buffer (take_ready t n fr).1.buffer
  unfolding take_ready
  take_ready-Keeps n fr d = elim (Bool-cases (leb n (unread fr.buffer))) [
    | inl e ↦
        rw (advance_reader_of_lem fr.buffer n d.valid (ground arith), take_ready)
          (consumed-Keeps fr.buffer n)
    | inr e ↦
        rw (advance_reader_of-none fr.buffer n d.valid (ground arith), take_ready)
          (Keeps-refl fr.buffer)
  ]

  finish_read-Keeps :
      (fr : Framing t) (m : MutableBuffer) (n least : ℕ) (x : Read) (s : t.Socket)
      → IsReady m
      → least ≤ room m
      → t.async_read fr.next_layer (room m) least ≡ (x, s)
      → Keeps m (finish_read t m (receive_region m) n (x, s)).1.buffer
  unfolding finish_read
  finish_read-Keeps fr m n least (failed e bs) s d le q = filled-Keeps m bs
  finish_read-Keeps fr m n least (received bs) s d le q =
      let v = d.valid in
      let hi = (laws.read_bounds fr.next_layer s (room m) least bs le q).1 in
      let fr' : Framing t = record { next_layer = s; buffer = written m bs } in
      rw (advance_writer_of-fill m bs v hi, finish_read)
        (Keeps-trans m fr'.buffer (take_ready t n fr').1.buffer (written-Keeps m bs v)
          (take_ready-Keeps n fr' (written-IsReady m bs d hi)))

  read_more-Keeps :
      (n : ℕ) (fr : Framing t)
      → IsReady fr.buffer
      → n ≤ 2 ^ 32
      → unread fr.buffer < n
      → Keeps fr.buffer (read_more t n fr).1.buffer
  unfolding read_more
  read_more-Keeps n fr d le lt =
      let (m, e, h) = make_room-HasRoom fr.buffer n d le lt in
      let (x, s) = t.async_read fr.next_layer (room m) (n - unread fr.buffer) in
      rw (e, read_more)
        (Keeps-trans fr.buffer m (finish_read t m (receive_region m) n (x, s)).1.buffer h.keeps (
          finish_read-Keeps fr m n (n - unread fr.buffer) x s h.is_ready (omega (arith, h.enough))
            refl))

  transfer_exactly-Keeps :
      (n : ℕ) (fr : Framing t)
      → IsReady fr.buffer
      → n ≤ 2 ^ 32
      → Keeps fr.buffer (transfer_exactly t n fr).1.buffer
  unfolding transfer_exactly
  transfer_exactly-Keeps n fr d le = elim (Bool-cases (leb n (unread fr.buffer))) [
    | inl e ↦
        rw (get_ready_buffer_lem fr.buffer d.valid, e, transfer_exactly) (take_ready-Keeps n fr d)
    | inr e ↦
        rw (get_ready_buffer_lem fr.buffer d.valid, e, transfer_exactly)
          (read_more-Keeps n fr d le (ground arith))
  ]

  -- A coroutine that, on a well-formed buffer, leaves one in which written bytes have stayed.
  pub record IsKeeping {ℓ} {A : Type ℓ} (p : Co (Framing t) A) : Type 0 where
    pub keeps : (fr : Framing t) → IsReady fr.buffer → KeepsIn fr.buffer (p fr)

  pub transfer_exactly-IsKeeping : (n : ℕ) → n ≤ 2 ^ 32 → IsKeeping (transfer_exactly t n)
  transfer_exactly-IsKeeping n le = record {
    keeps = λ fr d. (
      go fr (transfer_exactly t n fr) (transfer_exactly-Transferred t laws fr n d le),
      transfer_exactly-Keeps n fr d le,
    );
  }
    where
      go :
          (fr : Framing t) (r : Result FrozenBuffer × Framing t)
          → Transferred t laws fr n r
          → IsReady r.1.buffer
      go fr (ok f, s) h = h.0
      go fr (fail e, s) h = h.0
      go fr (abort, s) h = absurd h

  complete-IsKeeping {ℓ} : {A : Type ℓ} (r : Result A) → IsKeeping (complete {S = Framing t} r)
  complete-IsKeeping r = record { keeps = λ fr d. (d, Keeps-refl fr.buffer) }

  if-IsKeeping {ℓ} :
      {A : Type ℓ} (b : Bool) {p q : Co (Framing t) A}
      → IsKeeping p
      → IsKeeping q
      → IsKeeping (if b then p else q)
  if-IsKeeping true h k = h
  if-IsKeeping false h k = k

  continue-KeepsIn {ℓ κ} :
      {A : Type ℓ} {B : Type κ} (m : MutableBuffer) (r : Result A × Framing t)
      (f : A → Co (Framing t) B)
      → KeepsIn m r
      → ((a : A) → IsKeeping (f a))
      → KeepsIn m (continue r f)
  continue-KeepsIn m (ok a, s) f (d, k) h =
      let (d', k') = (h a).keeps s d in (d', Keeps-trans m s.buffer (f a s).1.buffer k k')
  continue-KeepsIn m (fail e, s) f h k = h
  continue-KeepsIn m (abort, s) f h k = h

  pub bind-IsKeeping {ℓ κ} :
      {A : Type ℓ} {B : Type κ} {p : Co (Framing t) A} {f : A → Co (Framing t) B}
      → IsKeeping p
      → ((a : A) → IsKeeping (f a))
      → IsKeeping (p >>= f)
  bind-IsKeeping h k = record { keeps = λ fr d. continue-KeepsIn fr.buffer _ _ (h.keeps fr d) k }

  read_be-IsKeeping : (f : FrozenBuffer) → IsKeeping (read_be t f)
  unfolding read_be
  read_be-IsKeeping f = record { keeps = λ fr d. (d, Keeps-refl fr.buffer) }

  transfer_be-IsKeeping : (n : ℕ) → n ≤ 8 → IsKeeping (transfer_be t n)
  unfolding transfer_be
  transfer_be-IsKeeping n le =
      bind-IsKeeping (transfer_exactly-IsKeeping n (omega arith)) read_be-IsKeeping

  number-IsKeeping :
      (n : ℕ) (f : ℕ → Result ℕ) → n ≤ 8 → IsKeeping (transfer_be t n >>= λ m. complete (f m))
  number-IsKeeping n f le =
      bind-IsKeeping (transfer_be-IsKeeping n le) (λ m. complete-IsKeeping (f m))

  signed-IsKeeping :
      (n w : ℕ)
      → n ≤ 8
      → IsKeeping (transfer_be t n >>= λ m. complete (check_length t (signed w m)))
  signed-IsKeeping n w le = number-IsKeeping n (λ m. check_length t (signed w m)) le

  length_of_type-IsKeeping : (type : ℕ) → IsKeeping (length_of_type t type)
  unfolding length_of_type
  length_of_type-IsKeeping type =
      if-IsKeeping _ (complete-IsKeeping (ok (bit_and type 0b01111111))) (
        if-IsKeeping _ (number-IsKeeping 1 ok (omega arith)) (
          if-IsKeeping _ (number-IsKeeping 2 ok (omega arith)) (
            if-IsKeeping _ (number-IsKeeping 4 ok (omega arith)) (
              if-IsKeeping _ (number-IsKeeping 8 (λ n. ok (n % 2 ^ 32)) (omega arith)) (
                if-IsKeeping _ (complete-IsKeeping (check_length t (negsuc 0))) (
                  if-IsKeeping _ (signed-IsKeeping 1 8 (omega arith)) (
                    if-IsKeeping _ (signed-IsKeeping 2 16 (omega arith)) (
                      if-IsKeeping _ (signed-IsKeeping 4 32 (omega arith)) (
                        if-IsKeeping _ (signed-IsKeeping 8 64 (omega arith))
                          (complete-IsKeeping (check_length t (pos 0))))))))))))

  pub read_message_length-IsKeeping : IsKeeping (read_message_length t)
  unfolding read_message_length
  read_message_length-IsKeeping =
      bind-IsKeeping (transfer_be-IsKeeping 1 (omega arith)) length_of_type-IsKeeping
