-- ===== src/Buffer/Run.antt =====
-- include/tarantool_connector/detail/tntpp_mutable_buffer.h: histories of the receive buffer, and those
-- of a queue of bytes.
use tntpp.Common.{
  ℕ, ◌+◌, ◌^◌, ◌≤◌, ◌<◌, ◌≡◌, ap, ◌∙◌, Option, none, some, List, [], ◌∷◌, ◌++◌, arith, leb,
  if◌then◌else◌, length, take, drop, ◌>>=◌,
}
use tntpp.Buffer.{
  MutableBuffer, FrozenBuffer, contents, prepare, get_receive_buffer, advance_writer_of,
  advance_reader_of, clear, fill,
}
use tntpp.Buffer.State.{IsValid, unread, room, length-contents, Keeps, Keeps-trans}
use tntpp.Buffer.Prepare.{prepare-Prepared, get_receive_buffer-Receives}
use tntpp.Buffer.Transfer.{
  written, written-IsValid, written-contents, written-Keeps, advance_writer_of-fill,
}

-- What a client does with the buffer: bytes are read into it after room was made for them, some
-- are consumed, or all is dropped.
pub data Op : Type 0 where
  receives : List ℕ → Op
  consumes : ℕ → Op
  clears : Op

unfoldable pub receive : MutableBuffer → List ℕ → Option MutableBuffer
receive m bs = do
  m1 ← prepare m (length bs)
  (m2, r) ← get_receive_buffer m1
  advance_writer_of (fill m2 r bs) (length bs)

unfoldable pub step : MutableBuffer → Op → Option (MutableBuffer × List FrozenBuffer)
step m (receives bs) = receive m bs >>= λ m'. some (m', [])
step m (consumes n) = advance_reader_of m n >>= λ p. some (p.0, p.1 ∷ [])
step m clears = some (clear m, [])

unfoldable pub run : MutableBuffer → List Op → Option (MutableBuffer × List FrozenBuffer)
run m [] = some (m, [])
run m (op ∷ ops) = do (m', fs) ← step m op; (m'', gs) ← run m' ops; some (m'', fs ++ gs)

-- The same on a plain queue of bytes; too large a `consumes` is an error.
unfoldable pub step_queue : List ℕ → Op → Option (List ℕ × List (List ℕ))
step_queue q (receives bs) = some (q ++ bs, [])
step_queue q (consumes n) = if leb n (length q) then some (drop n q, take n q ∷ []) else none
step_queue q clears = some ([], [])

unfoldable pub run_queue : List ℕ → List Op → Option (List ℕ × List (List ℕ))
run_queue q [] = some (q, [])
run_queue q (op ∷ ops) = do
  (q', fs) ← step_queue q op
  (q'', gs) ← run_queue q' ops
  some (q'', fs ++ gs)

-- The number of bytes that a history receives.
abbrev pub incoming : List Op → ℕ
incoming [] = 0
incoming (receives bs ∷ ops) = length bs + incoming ops
incoming (consumes n ∷ ops) = incoming ops
incoming (clears ∷ ops) = incoming ops

pub record Received (m : MutableBuffer) (bs : List ℕ) (m' : MutableBuffer) : Type 0 where
  pub valid : IsValid m'
  pub added : contents m' ≡ contents m ++ bs
  pub same_default : m'.default_length ≡ m.default_length
  pub keeps : Keeps m m'

pub receive-Received :
    (m : MutableBuffer) (bs : List ℕ)
    → IsValid m
    → 0 < m.default_length
    → unread m + length bs + m.default_length + m.default_length < 2 ^ 64
    → (m' : MutableBuffer) × (receive m bs ≡ some m') × Received m bs m'
unfolding receive
receive-Received m bs v d h =
    let (m1, p, k) = prepare-Prepared m (length bs) v (omega arith) in
    let v1 = k.valid in
    let (m2, r, q, j) = get_receive_buffer-Receives m1 v1 (omega (arith, k.same_default)) (
      omega
        (arith, k.same_default, length-contents m v, length-contents m1 v1, ap length k.kept)) in
    let v2 = j.valid in
    let fits : length bs ≤ room m2 = omega (arith, k.enough, j.more) in
    (
      written m2 bs,
      rw (p, q, j.region) (advance_writer_of-fill m2 bs v2 fits),
      record {
        valid = written-IsValid m2 bs v2 fits;
        added = written-contents m2 bs v2 fits ∙ ap (λ c. c ++ bs) (j.kept ∙ k.kept);
        same_default = j.same_default ∙ k.same_default;
        keeps =
            Keeps-trans m m2 (written m2 bs) (Keeps-trans m m1 m2 k.keeps j.keeps)
              (written-Keeps m2 bs v2);
      },
    )
