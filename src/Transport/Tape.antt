-- ===== src/Transport/Tape.antt =====
-- A socket that meets the assumptions on Asio: the bytes that the peer will send. A read takes as
-- many as fit, and fails if fewer than asked for are left.
use tntpp.Common.{
  ℕ, ◌≤◌, ◌≡◌, ◌≢◌, List, [], ◌++◌, arith, leb, if◌then◌else◌, length, take, drop, take-append-drop,
  length-take,
}
use tntpp.Errc.{ErrorCode, network}
use tntpp.Transport.{Transport, Read, received, failed, IsStream, IsUnbroken}

abbrev pub read_tape : List ℕ → ℕ → ℕ → Read × List ℕ
read_tape s size least =
    if leb least (length s)
    then (received (take size s), drop size s)
    else (failed (network 2) (take size s), [])

abbrev pub tape : Transport
tape = record { Socket = List ℕ; async_read = read_tape }

pub tape-pending :
    (s s' : List ℕ) (size least : ℕ) (bs : List ℕ)
    → read_tape s size least ≡ (received bs, s')
    → s ≡ bs ++ s'
tape-pending s s' size least bs e = ground (arith, take-append-drop size s)

pub tape-received :
    (s s' : List ℕ) (size least : ℕ) (bs : List ℕ)
    → least ≤ size
    → read_tape s size least ≡ (received bs, s')
    → (least ≤ length bs) × (length bs ≤ size)
tape-received s s' size least bs h e = ground (arith, length-take size s)

pub tape-failed :
    (s s' : List ℕ) (size least : ℕ) (bs : List ℕ) (e : ErrorCode)
    → least ≤ size
    → read_tape s size least ≡ (failed e bs, s')
    → length bs ≤ size
tape-failed s s' size least bs e h q = ground (arith, length-take size s)

abbrev pub tape-IsStream : IsStream tape
tape-IsStream = record {
  pending = λ s. s;
  read_pending = tape-pending;
  read_bounds = tape-received;
  fail_bounds = tape-failed;
}

pub tape-unbroken :
    (s s' : List ℕ) (size least : ℕ) (bs : List ℕ) (e : ErrorCode)
    → least ≤ length s
    → read_tape s size least ≢ (failed e bs, s')
tape-unbroken s s' size least bs e h q = ground arith

abbrev pub tape-IsUnbroken : IsUnbroken tape tape-IsStream
tape-IsUnbroken = record { unbroken = tape-unbroken }
