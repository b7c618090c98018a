-- ===== src/Connection/Connect/Line.antt =====
-- A line of bytes that meets the assumptions on Asio: address 0 accepts, the others refuse, and a line
-- with 200 bytes or more cannot be configured.
use tntpp.Common.{
  refl, false, ℕ, sym, ap, subst, Bool, true, ◌==◌, none, some, List, if◌then◌else◌, leb,
  Bool-cases, inl, inr, take, drop, length, take-append-drop,
}
use tntpp.Errc.{network}
use tntpp.Transport.{Transport, Read, IsStream}
use tntpp.Transport.Tape.{read_tape, tape-pending, tape-received, tape-failed}
use tntpp.Framing.Bytes.{AreBytes, AreBytes-append}
use tntpp.Connection.Connect.{Network, IsNetwork}

pub record Line : Type 0 where
  pub is_open : Bool
  pub bytes : List ℕ
  pub are_bytes : AreBytes bytes

pub read_tape-AreBytes :
    (s : List ℕ) (size least : ℕ) → AreBytes s → AreBytes (read_tape s size least).1
read_tape-AreBytes s size least h = elim (Bool-cases (leb least (length s))) [
  | inl e ↦
      rw e
        (AreBytes-append (take size s) (drop size s)
          (subst AreBytes (sym (take-append-drop size s)) h)).1
  | inr e ↦ rw e tt
]

abbrev pub read_line : Line → ℕ → ℕ → Read × Line
read_line l size least = (
  (read_tape l.bytes size least).0,
  record {
    is_open = l.is_open;
    bytes = (read_tape l.bytes size least).1;
    are_bytes = read_tape-AreBytes l.bytes size least l.are_bytes;
  },
)

-- The line as a stream and as a network.
abbrev pub wire : Transport
wire = record { Socket = Line; async_read = read_line }

abbrev pub wire-IsStream : IsStream wire
wire-IsStream = record {
  pending = λ l. l.bytes;
  read_pending = λ l l' size least bs e.
      tape-pending l.bytes l'.bytes size least bs (ap (λ p. (p.0, p.1.bytes)) e);
  read_bounds = λ l l' size least bs h e.
      tape-received l.bytes l'.bytes size least bs h (ap (λ p. (p.0, p.1.bytes)) e);
  fail_bounds = λ l l' size least bs k h e.
      tape-failed l.bytes l'.bytes size least bs k h (ap (λ p. (p.0, p.1.bytes)) e);
}

abbrev pub dial : Network wire
dial = record {
  Address = ℕ;
  is_open = λ l. l.is_open;
  close = λ l. record l { is_open = false };
  async_connect = λ l a. (if a == 0 then none else some (network a), record l { is_open = true });
  configure = λ l. (if leb 200 (length l.bytes) then some (network 1) else none, l);
}

abbrev pub dial-IsNetwork : IsNetwork wire dial
dial-IsNetwork = record {
  close-closed = λ l. refl;
  connect-open = λ l a. refl;
  configure-open = λ l. refl;
  read-open = λ l size least. refl;
}
