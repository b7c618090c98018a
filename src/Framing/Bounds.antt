-- ===== src/Framing/Bounds.antt =====
-- include/tarantool_connector/detail/tntpp_iproto_framing.h: `read_message_length` on
-- a stream that need not hold a message.
use Prim.Native.Nat.{bit_and}
use tntpp.Common.{
  ℕ, ◌%◌, ◌^◌, ◌≤◌, ◌<◌, ◌≡◌, refl, Bool, true, false, List, [], arith, if◌then◌else◌, length,
  be_value, inl, inr, ◌⊎◌, ◌≢◌,
}
use tntpp.Coroutine.{Co, continue, ◌>>=◌, complete}
use tntpp.Errc.{ErrorCode, Result, ok, fail, abort, message_size}
use tntpp.Transport.{Transport, IsStream}
use tntpp.Buffer.{FrozenBuffer, frozen_bytes}
use tntpp.Framing.{
  ℤ, pos, negsuc, signed, Framing, transfer_exactly, read_be, transfer_be, length_of_type,
  read_message_length, check_length,
}
use tntpp.Framing.Bytes.{
  AreBytes, IsRest, IsRest-append, be_value_one, be_value_two, be_value_four, low_lt,
}
use tntpp.Framing.Ready.{IsReady}
use tntpp.Framing.Transfer.{
  stream, ReadFails, FailsAt-ReadFails, Transferred, transfer_exactly-Transferred,
}

module _ (t : Transport) (laws : IsStream t) (whole : List ℕ) where
  -- A coroutine ends with a value as described, because a length was refused, or because a read
  -- failed; never in a failed assertion. The buffer stays well formed, and a
  -- rest of the bytes `whole` is left.
  abbrev pub Ends : (ℕ → Type 0) → Result ℕ × Framing t → Type 0
  Ends P (ok n, fr) = IsReady fr.buffer × P n × IsRest whole (stream t laws fr)
  Ends P (fail e, fr) = IsReady fr.buffer × ((e ≡ message_size) ⊎ ReadFails t laws e)
  Ends P (abort, fr) = ⊥

  continue-Ends :
      (P Q : ℕ → Type 0) (r : Result ℕ × Framing t) (f : ℕ → Co (Framing t) ℕ)
      → Ends P r
      → ((n : ℕ) (fr : Framing t)
          → IsReady fr.buffer
          → P n
          → IsRest whole (stream t laws fr)
          → Ends Q (f n fr))
      → Ends Q (continue r f)
  continue-Ends P Q (ok n, fr) f (d, p, h) k = k n fr d p h
  continue-Ends P Q (fail e, fr) f h k = h
  continue-Ends P Q (abort, fr) f h k = absurd h

  transfer_be-Ends :
      (P : ℕ → Type 0) (fr : Framing t) (n : ℕ)
      → ((xs : List ℕ) → length xs ≡ n → AreBytes xs → P (be_value xs))
      → IsReady fr.buffer
      → n ≤ 2 ^ 32
      → IsRest whole (stream t laws fr)
      → Ends P (transfer_be t n fr)
  unfolding transfer_be read_be
  transfer_be-Ends P fr n k d le h =
      go (transfer_exactly t n fr) (transfer_exactly-Transferred t laws fr n d le)
    where
      go :
          (r : Result FrozenBuffer × Framing t)
          → Transferred t laws fr n r
          → Ends P (continue r (read_be t))
      go (ok f, s) (d', i, q, l, _) =
          let (a, b) =
            IsRest-append whole (stream t laws fr) (frozen_bytes s.buffer f) (stream t laws s) q
              h in
          (d', k (frozen_bytes s.buffer f) l a, b)
      go (fail e, s) (d', c, x) = (d', inr (FailsAt-ReadFails t laws fr n e x))
      go (abort, s) x = absurd x

  -- A length of a message.
  abbrev pub IsLength : ℕ → Type 0
  IsLength n = n < 2 ^ 32

  -- A number in `n` bytes of which a length is made.
  made-Ends :
      (P : ℕ → Type 0) (fr : Framing t) (n : ℕ) (f : ℕ → ℕ)
      → ((xs : List ℕ) → length xs ≡ n → AreBytes xs → P (be_value xs))
      → ((m : ℕ) → P m → f m < 2 ^ 32)
      → IsReady fr.buffer
      → n ≤ 8
      → IsRest whole (stream t laws fr)
      → Ends IsLength (continue (transfer_be t n fr) (λ m. complete (ok (f m))))
  made-Ends P fr n f k fits d le h =
      continue-Ends P IsLength (transfer_be t n fr) (λ m. complete (ok (f m)))
        (transfer_be-Ends P fr n k d (omega arith) h) (λ m s d' p b. (d', fits m p, b))

  -- A signed length is refused unless it fits.
  check_length_lt : (z : ℤ) (n : ℕ) → check_length t z ≡ ok n → n < 2 ^ 32
  unfolding check_length
  check_length_lt (pos m) n e = ground arith
  check_length_lt (negsuc m) n e = ground arith

  check_length_error : (z : ℤ) (e : ErrorCode) → check_length t z ≡ fail e → e ≡ message_size
  unfolding check_length
  check_length_error (pos m) n e = ground arith
  check_length_error (negsuc m) n e = ground arith

  check_length-ne-abort : (z : ℤ) → check_length t z ≢ abort
  unfolding check_length
  check_length-ne-abort (pos m) e = ground arith
  check_length-ne-abort (negsuc m) e = ground arith

  check_length-Ends :
      (fr : Framing t) (z : ℤ)
      → IsReady fr.buffer
      → IsRest whole (stream t laws fr)
      → Ends IsLength (check_length t z, fr)
  check_length-Ends fr z d h = go (check_length t z) refl
    where
      go : (r : Result ℕ) → check_length t z ≡ r → Ends IsLength (r, fr)
      go (ok n) e = (d, check_length_lt z n e, h)
      go (fail k) e = (d, inl (check_length_error z k e))
      go abort e = absurd (check_length-ne-abort z e)

  signed-Ends :
      (fr : Framing t) (n w : ℕ)
      → IsReady fr.buffer
      → n ≤ 8
      → IsRest whole (stream t laws fr)
      → Ends IsLength (continue (transfer_be t n fr) (λ m. complete (check_length t (signed w m))))
  signed-Ends fr n w d le h =
      continue-Ends (λ m. Unit) IsLength (transfer_be t n fr)
        (λ m. complete (check_length t (signed w m)))
        (transfer_be-Ends (λ m. Unit) fr n (λ xs l a. tt) d (omega arith) h)
        (λ m s d' p b. check_length-Ends s (signed w m) d' b)

  -- A coroutine that ends with a length wherever it runs.
  record MakesLength (p : Co (Framing t) ℕ) : Type 0 where
    ends :
        (fr : Framing t)
        → IsReady fr.buffer
        → IsRest whole (stream t laws fr)
        → Ends IsLength (p fr)

  if-MakesLength :
      (c : Bool) {p q : Co (Framing t) ℕ}
      → MakesLength p
      → MakesLength q
      → MakesLength (if c then p else q)
  if-MakesLength true h k = h
  if-MakesLength false h k = k

  made-MakesLength :
      (P : ℕ → Type 0) (n : ℕ) (f : ℕ → ℕ)
      → ((xs : List ℕ) → length xs ≡ n → AreBytes xs → P (be_value xs))
      → ((m : ℕ) → P m → f m < 2 ^ 32)
      → n ≤ 8
      → MakesLength (transfer_be t n >>= (λ m. complete (ok (f m))))
  made-MakesLength P n f k fits le = record { ends = λ fr d h. made-Ends P fr n f k fits d le h }

  signed-MakesLength :
      (n w : ℕ)
      → n ≤ 8
      → MakesLength (transfer_be t n >>= (λ m. complete (check_length t (signed w m))))
  signed-MakesLength n w le = record { ends = λ fr d h. signed-Ends fr n w d le h }

  check_length-MakesLength : (z : ℤ) → MakesLength (complete (check_length t z))
  check_length-MakesLength z = record { ends = λ fr d h. check_length-Ends fr z d h }

  complete-MakesLength : (n : ℕ) → n < 2 ^ 32 → MakesLength (complete (ok n))
  complete-MakesLength n lt = record { ends = λ fr d h. (d, lt, h) }

  length_of_type-MakesLength : (b : ℕ) → b < 256 → MakesLength (length_of_type t b)
  unfolding length_of_type
  length_of_type-MakesLength b lt =
      let byte =
        made-MakesLength (λ m. m < 256) 1 (λ m. m) be_value_one (λ m p. omega arith)
          (omega arith) in
      let short =
        made-MakesLength (λ m. m < 2 ^ 16) 2 (λ m. m) be_value_two (λ m p. omega arith)
          (omega arith) in
      let word = made-MakesLength IsLength 4 (λ m. m) be_value_four (λ m p. p) (omega arith) in
      let cut =
        made-MakesLength (λ m. Unit) 8 (λ m. m % 2 ^ 32) (λ xs l a. tt) (λ m p. omega arith)
          (omega arith) in
      if-MakesLength _ (complete-MakesLength (bit_and b 0b01111111) (low_lt b lt)) (
        if-MakesLength _ byte (
          if-MakesLength _ short (
            if-MakesLength _ word (
              if-MakesLength _ cut (
                if-MakesLength _ (check_length-MakesLength (negsuc 0)) (
                  if-MakesLength _ (signed-MakesLength 1 8 (omega arith)) (
                    if-MakesLength _ (signed-MakesLength 2 16 (omega arith)) (
                      if-MakesLength _ (signed-MakesLength 4 32 (omega arith)) (
                        if-MakesLength _ (signed-MakesLength 8 64 (omega arith))
                          (check_length-MakesLength (pos 0)))))))))))

  read_message_length-Rest :
      (fr : Framing t)
      → IsReady fr.buffer
      → IsRest whole (stream t laws fr)
      → Ends IsLength (read_message_length t fr)
  unfolding read_message_length
  read_message_length-Rest fr d h =
      continue-Ends (λ m. m < 256) IsLength (transfer_be t 1 fr) (length_of_type t)
        (transfer_be-Ends (λ m. m < 256) fr 1 be_value_one d (omega arith) h)
        (λ m s d' p b. (length_of_type-MakesLength m p).ends s d' b)

-- On any stream of bytes `read_message_length` completes with a length below 2^32 and leaves what
-- follows the bytes it has read, or completes with `message_size` or with the error of a read that
-- failed. No assertion fails, and the buffer stays well formed.
pub read_message_length-Ends :
    (t : Transport) (laws : IsStream t) (fr : Framing t)
    → IsReady fr.buffer
    → AreBytes (stream t laws fr)
    → Ends t laws (stream t laws fr) (IsLength t laws (stream t laws fr)) (read_message_length t fr)
read_message_length-Ends t laws fr d b =
    read_message_length-Rest t laws (stream t laws fr) fr d (b, [], refl)
