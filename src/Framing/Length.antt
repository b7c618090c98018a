-- ===== src/Framing/Length.antt =====
-- include/tarantool_connector/detail/tntpp_iproto_framing.h: `read_message_length` against the
-- integer formats of msgpack.
use Prim.Native.Nat.{bit_and}
use tntpp.Common.{
  ℕ, ◌%◌, ◌^◌, ◌≤◌, ◌<◌, ◌≡◌, refl, sym, ap, ◌∙◌, ◌≢◌, true, Option, none, some, List, [], ◌∷◌,
  ◌++◌, arith, leb, ltb, ◌==◌, if◌then◌else◌, Bool-cases, length, length-take, take, drop, be_value,
  ==_iff, append-injective, take-append-drop, inl, inr, ◌⊎◌, below, below_lem,
}
use tntpp.Coroutine.{Co, continue, complete}
use tntpp.Errc.{Result, ok, fail, abort}
use tntpp.Transport.{Transport, IsStream}
use tntpp.Buffer.{FrozenBuffer, frozen_bytes}
use tntpp.Framing.{
  Framing, transfer_exactly, read_be, transfer_be, length_of_type, read_message_length,
  check_length,
}
use tntpp.Framing.Ready.{IsReady}
use tntpp.Framing.Transfer.{
  stream, ReadBreaks, FailsAt-ReadBreaks, Transferred, transfer_exactly-Transferred,
}

-- An unsigned integer of msgpack at the head of a list of bytes, and what follows it: one byte
-- below 128, or a tag and the number in 1, 2, 4 or 8 bytes, the most significant first.
abbrev big : ℕ → List ℕ → Option (ℕ × List ℕ)
big n bs = if leb n (length bs) then some (be_value (take n bs), drop n bs) else none

unfoldable pub msgpack_uint : List ℕ → Option (ℕ × List ℕ)
msgpack_uint [] = none
msgpack_uint (b ∷ bs) =
    if ltb b 128
    then some (b, bs)
    else if b == 0xcc
    then big 1 bs
    else if b == 0xcd
    then big 2 bs
    else if b == 0xce
    then big 4 bs
    else if b == 0xcf
    then big 8 bs
    else none

big_inv :
    (k : ℕ) (bs rest : List ℕ) (n : ℕ)
    → big k bs ≡ some (n, rest)
    → (k ≤ length bs) × (be_value (take k bs) ≡ n) × (drop k bs ≡ rest)
big_inv k bs rest n e = ground arith

msgpack_uint_inv :
    (b n : ℕ) (bs rest : List ℕ)
    → msgpack_uint (b ∷ bs) ≡ some (n, rest)
    → ((b < 128) × (b ≡ n) × (bs ≡ rest))
      ⊎ ((b ≡ 0xcc) × (big 1 bs ≡ some (n, rest)))
      ⊎ ((b ≡ 0xcd) × (big 2 bs ≡ some (n, rest)))
      ⊎ ((b ≡ 0xce) × (big 4 bs ≡ some (n, rest)))
      ⊎ ((b ≡ 0xcf) × (big 8 bs ≡ some (n, rest)))
unfolding msgpack_uint
msgpack_uint_inv b n bs rest h = elim (Bool-cases (ltb b 128)) [
  | inl p ↦ inl (ground arith, ground arith, ground arith)
  | inr p ↦ elim (Bool-cases (b == 0xcc)) [
    | inl q ↦ inr (inl (ground arith, ground arith))
    | inr q ↦ elim (Bool-cases (b == 0xcd)) [
      | inl r ↦ inr (inr (inl (ground arith, ground arith)))
      | inr r ↦ elim (Bool-cases (b == 0xce)) [
        | inl s ↦ inr (inr (inr (inl (ground arith, ground arith))))
        | inr s ↦ inr (inr (inr (inr (ground arith, ground arith))))
      ]
    ]
  ]
]

one : (b : ℕ) → be_value (b ∷ []) ≡ b
one b = omega arith

top_table : below 128 (λ b. bit_and b 0b10000000 == 0) ≡ true
top_table = refl

low_table : below 128 (λ b. bit_and b 0b01111111 == b) ≡ true
low_table = refl

-- Below 128 the top bit is clear and the other bits are the number.
top_clear : (b : ℕ) → b < 128 → (bit_and b 0b10000000 == 0) ≡ true
top_clear b h = below_lem 128 (λ x. bit_and x 0b10000000 == 0) b top_table h

low_bits : (b : ℕ) → b < 128 → bit_and b 0b01111111 ≡ b
low_bits b h =
    (==_iff (bit_and b 0b01111111) b).0
      (below_lem 128 (λ x. bit_and x 0b01111111 == x) b low_table h)

module _ (t : Transport) (laws : IsStream t) where
  -- A coroutine of the framing that ends in this way: with a value as described, or because a read
  -- failed although the bytes that it asked for were still to come; never in a failed assertion. The buffer stays well formed.
  abbrev pub Completes {ℓ} : {A : Type ℓ} → (A → Framing t → Type 0) → Result A × Framing t → Type 0
  Completes P (ok a, fr) = IsReady fr.buffer × P a fr
  Completes P (fail e, fr) = IsReady fr.buffer × ReadBreaks t laws e
  Completes P (abort, fr) = ⊥

  pub continue-Completes {ℓ κ} :
      {A : Type ℓ} {B : Type κ} (P : A → Framing t → Type 0) (Q : B → Framing t → Type 0)
      (r : Result A × Framing t) (f : A → Co (Framing t) B)
      → Completes P r
      → ((a : A) (fr : Framing t) → IsReady fr.buffer → P a fr → Completes Q (f a fr))
      → Completes Q (continue r f)
  continue-Completes P Q (ok a, fr) f (d, p) k = k a fr d p
  continue-Completes P Q (fail e, fr) f h k = h
  continue-Completes P Q (abort, fr) f h k = absurd h

  -- The value is `v`, and `rest` of the stream is left.
  abbrev pub Leaves {ℓ} : {A : Type ℓ} → A → List ℕ → A → Framing t → Type ℓ
  Leaves v rest a fr = (a ≡ v) × (stream t laws fr ≡ rest)

  -- The next bytes of the stream as an integer.
  pub transfer_be-Completes :
      (fr : Framing t) (n : ℕ) (xs rest : List ℕ)
      → IsReady fr.buffer
      → n ≤ 2 ^ 32
      → length xs ≡ n
      → stream t laws fr ≡ xs ++ rest
      → Completes (Leaves (be_value xs) rest) (transfer_be t n fr)
  unfolding transfer_be read_be
  transfer_be-Completes fr n xs rest d le l e =
      go (transfer_exactly t n fr) (transfer_exactly-Transferred t laws fr n d le)
    where
      go :
          (r : Result FrozenBuffer × Framing t)
          → Transferred t laws fr n r
          → Completes (Leaves (be_value xs) rest) (continue r (read_be t))
      go (ok f, s) (d', i, q, k, _) =
          let (p, z) =
            append-injective (frozen_bytes s.buffer f) xs _ rest (sym q ∙ e) (k ∙ sym l) in
          (d', (ap be_value p, z))
      go (fail k, s) (d', c, x) = (d', FailsAt-ReadBreaks t laws fr xs rest n k d e l x)
      go (abort, s) h = absurd h

  transfer_big :
      (fr : Framing t) (k n : ℕ) (bs rest : List ℕ)
      → IsReady fr.buffer
      → k ≤ 8
      → stream t laws fr ≡ bs
      → big k bs ≡ some (n, rest)
      → Completes (Leaves n rest) (transfer_be t k fr)
  transfer_big fr k n bs rest d le e h =
      let (l, v, r) = big_inv k bs rest n h in
      rw (← v, ← r)
        (transfer_be-Completes fr k (take k bs) (drop k bs) d (omega arith)
          (omega (arith, length-take k bs)) (e ∙ sym (take-append-drop k bs)))

  -- A length in `k` bytes, cut to a `SizeType` that it fits.
  cut_big :
      (fr : Framing t) (k n : ℕ) (bs rest : List ℕ) (f : ℕ → ℕ)
      → f n ≡ n
      → IsReady fr.buffer
      → k ≤ 8
      → stream t laws fr ≡ bs
      → big k bs ≡ some (n, rest)
      → Completes (Leaves n rest) (continue (transfer_be t k fr) (λ m. complete (ok (f m))))
  cut_big fr k n bs rest f fits d le e h =
      continue-Completes (Leaves n rest) (Leaves n rest) (transfer_be t k fr)
        (λ m. complete (ok (f m))) (transfer_big fr k n bs rest d le e h)
        (λ m s d' (p, q). (d', (ap f p ∙ fits, q)))

  length_of_type-Completes :
      (fr : Framing t) (b n : ℕ) (bs rest : List ℕ)
      → IsReady fr.buffer
      → stream t laws fr ≡ bs
      → b ≢ 0xcd
      → msgpack_uint (b ∷ bs) ≡ some (n, rest)
      → n < 2 ^ 32
      → Completes (Leaves n rest) (length_of_type t b fr)
  unfolding length_of_type msgpack_uint
  length_of_type-Completes fr b n bs rest d e ne h lt = elim (msgpack_uint_inv b n bs rest h) [
    | inl (s, p, q) ↦ rw (top_clear b s) (d, (low_bits b s ∙ p, e ∙ q))
    | inr (inl (p, q)) ↦ rw p (cut_big fr 1 n bs rest (λ m. m) refl d (omega arith) e q)
    | inr (inr (inl (p, q))) ↦ absurd (ne p)
    | inr (inr (inr (inl (p, q)))) ↦ rw p (cut_big fr 4 n bs rest (λ m. m) refl d (omega arith) e q)
    | inr (inr (inr (inr (p, q)))) ↦
        rw p (cut_big fr 8 n bs rest (λ m. m % 2 ^ 32) (omega arith) d (omega arith) e q)
  ]

  -- If the unread stream starts with an unsigned integer of msgpack less than 2^32, in any format
  -- but the 16-bit one, `read_message_length` reads exactly that integer and leaves what follows
  -- it, or ends with the error of a read that failed although the bytes that it asked for were still
  -- to come. No assertion fails.
  pub read_message_length-Completes :
      (fr : Framing t) (b n : ℕ) (bs rest : List ℕ)
      → IsReady fr.buffer
      → stream t laws fr ≡ b ∷ bs
      → b ≢ 0xcd
      → msgpack_uint (b ∷ bs) ≡ some (n, rest)
      → n < 2 ^ 32
      → Completes (Leaves n rest) (read_message_length t fr)
  unfolding read_message_length
  read_message_length-Completes fr b n bs rest d e ne h lt =
      continue-Completes (Leaves (be_value (b ∷ [])) bs) (Leaves n rest) (transfer_be t 1 fr)
        (length_of_type t) (transfer_be-Completes fr 1 (b ∷ []) bs d (omega arith) refl e)
        (λ v s d' (p, q). rw (p ∙ one b) (length_of_type-Completes s b n bs rest d' q ne h lt))

  -- A length in the 16-bit format, 0xcd and two bytes, is not read: `read_message_length` completes
  -- with length 0 and leaves the two bytes in the stream, unless a read fails although the byte that
  -- it asked for was still to come.
  pub read_message_length-uint16 :
      (fr : Framing t) (bs : List ℕ)
      → IsReady fr.buffer
      → stream t laws fr ≡ 0xcd ∷ bs
      → Completes (Leaves 0 bs) (read_message_length t fr)
  unfolding read_message_length length_of_type check_length
  read_message_length-uint16 fr bs d e =
      continue-Completes (Leaves (be_value (0xcd ∷ [])) bs) (Leaves 0 bs) (transfer_be t 1 fr)
        (length_of_type t) (transfer_be-Completes fr 1 (0xcd ∷ []) bs d (omega arith) refl e)
        (λ v s d' (p, q). rw p (d', (refl, q)))

  -- A length in the 64-bit format, 0xcf and eight bytes, is read as the low 32 bits of that number
  -- and never as an error for being too large, unless a read fails although the bytes that it asked
  -- for were still to come; what follows it is left.
  pub read_message_length-uint64 :
      (fr : Framing t) (xs rest : List ℕ)
      → IsReady fr.buffer
      → length xs ≡ 8
      → stream t laws fr ≡ 0xcf ∷ (xs ++ rest)
      → Completes (Leaves (be_value xs % 2 ^ 32) rest) (read_message_length t fr)
  unfolding read_message_length length_of_type
  read_message_length-uint64 fr xs rest d l e =
      continue-Completes (Leaves (be_value (0xcf ∷ [])) (xs ++ rest))
        (Leaves (be_value xs % 2 ^ 32) rest) (transfer_be t 1 fr) (length_of_type t)
        (transfer_be-Completes fr 1 (0xcf ∷ []) (xs ++ rest) d (omega arith) refl e)
        (λ v s d' (p, q). rw p (
          continue-Completes (Leaves (be_value xs) rest) (Leaves (be_value xs % 2 ^ 32) rest)
            (transfer_be t 8 s) (λ m. complete (ok (m % 2 ^ 32)))
            (transfer_be-Completes s 8 xs rest d' (omega arith) l q)
            (λ m s' d'' (p', q'). (d'', (ap (λ n. n % 2 ^ 32) p', q')))))
