-- ===== src/Connector/Requests/Pipeline.antt =====
-- include/tarantool_connector/connection.h and detail/tntpp_iproto_framing.h: the requests of a
-- connector through the send queue, the network and the framing at the other end.
use mathlib.Core.List.{flatten}
use tntpp.Common.{
  ℕ, zero, suc, ◌^◌, ◌<◌, ◌≡◌, refl, ap, ◌∙◌, List, [], ◌∷◌, ◌++◌, map, arith, append_assoc, length,
}
use tntpp.Errc.{Result, ok, fail, abort}
use tntpp.Coroutine.{Co, continue, complete}
use tntpp.Transport.{Transport, IsStream}
use tntpp.Msgpack.{Msgpack, ReadsBack}
use tntpp.Buffer.{frozen_bytes}
use tntpp.Framing.{Framing, IprotoFrame, receive_message}
use tntpp.Framing.Ready.{IsReady}
use tntpp.Framing.Transfer.{stream, ReadBreaks}
use tntpp.Iproto.Header.{MessageHeader}
use tntpp.Connection.{new_connection, run, Event}
use tntpp.Connection.Send.{Feasible, Succeeds, outstanding, sent, all_written}
use tntpp.Connector.Requests.{request_header}
use tntpp.Connector.Requests.Bytes.{body, Command, command_type, command_data, command_entries}
use tntpp.Connector.Requests.Received.{map_of, Delivers, command_data-Delivers}

module _ (t : Transport) (laws : IsStream t) (c : Msgpack) where
  -- What a message says, read when it is received.
  abbrev pub Message : Type 0
  Message = MessageHeader × List ℕ

  abbrev prepend : Message → List Message → Co (Framing t) (List Message)
  prepend m ms = complete (ok (m ∷ ms))

  -- The next messages of the stream.
  unfoldable pub receive_many : ℕ → Co (Framing t) (List Message)
  receive_many zero fr = (ok [], fr)
  receive_many (suc n) fr =
      continue (receive_message t c fr)
        (λ f s. continue (receive_many n s) (prepend (f.header, frozen_bytes s.buffer f.body)))

  -- Commands with their ids: their data one after another, and what the other end reads of each.
  abbrev pub all_data : List (Command × ℕ) → List (List ℕ)
  all_data ps = map (λ p. command_data c p.0 p.1) ps

  abbrev pub message_of : Command × ℕ → Message
  message_of p = (request_header p.1 (command_type p.0), map_of t laws c (command_entries c p.0))

  -- Each request has less than 2^32 bytes and a packed map that is not empty.
  abbrev pub AllFit : List (Command × ℕ) → Type 0
  AllFit [] = Unit
  AllFit ((op, id) ∷ ps) =
      (id < 2 ^ 64)
      × (length (body c id (command_type op) (command_entries c op)) < 2 ^ 32)
      × (0 < length (map_of t laws c (command_entries c op)))
      × AllFit ps

  -- All messages arrive and what follows them is left, or a read failed although the bytes that
  -- it asked for were still to come.
  abbrev pub Arrives : List Message → List ℕ → Result (List Message) × Framing t → Type 0
  Arrives ms rest (ok got, s) = IsReady s.buffer × (got ≡ ms) × (stream t laws s ≡ rest)
  Arrives ms rest (fail e, s) = IsReady s.buffer × ReadBreaks t laws e
  Arrives ms rest (abort, s) = ⊥

  prepend-Arrives :
      (m m' : Message) (ms : List Message) (rest : List ℕ) (r : Result (List Message) × Framing t)
      → m' ≡ m
      → Arrives ms rest r
      → Arrives (m ∷ ms) rest (continue r (prepend m'))
  prepend-Arrives m m' ms rest (ok got, s) e (d, q, z) = (d, ground (arith, e, q), z)
  prepend-Arrives m m' ms rest (fail k, s) e h = h
  prepend-Arrives m m' ms rest (abort, s) e h = absurd h

  module _ (codec : ReadsBack c) where
    receive_many-Arrives :
        (fr : Framing t) (ps : List (Command × ℕ)) (rest : List ℕ)
        → IsReady fr.buffer
        → AllFit ps
        → stream t laws fr ≡ flatten (all_data ps) ++ rest
        → Arrives (map message_of ps) rest (receive_many (length ps) fr)
    unfolding receive_many flatten
    receive_many-Arrives fr [] rest d a e = (d, refl, e)
    receive_many-Arrives fr ((op, id) ∷ ps) rest d (fits, lt, more, a) e =
        go (λ s d' z. receive_many-Arrives s ps rest d' a z) (receive_message t c fr)
          (command_data-Delivers t laws c codec fr op id (flatten (all_data ps) ++ rest) d
            (e ∙ append_assoc (command_data c op id) (flatten (all_data ps)) rest) fits lt more)
      where
        go :
            ((s : Framing t)
              → IsReady s.buffer
              → stream t laws s ≡ flatten (all_data ps) ++ rest
              → Arrives (map message_of ps) rest (receive_many (length ps) s))
            → (r : Result IprotoFrame × Framing t)
            → Delivers t laws c id
                (command_type op)
                (command_entries c op)
                (flatten (all_data ps) ++ rest)
                r
            → Arrives (map message_of ((op, id) ∷ ps)) rest (
                continue r (λ f s.
                  continue
                    (receive_many (length ps) s)
                    (prepend (f.header, frozen_bytes s.buffer f.body))))
        go later (ok f, s) (d', h, b, z) =
            prepend-Arrives (message_of (op, id)) (f.header, frozen_bytes s.buffer f.body)
              (map message_of ps) rest (receive_many (length ps) s) (ground (arith, h, b))
              (later s d' z)
        go later (fail k, s) x = x
        go later (abort, s) x = absurd x

    -- If `send_data` got the data of some commands, in any history of a new connection in which
    -- writes complete only while they are under way, none with an error and in the end all, and
    -- the bytes of the writes arrive at a framing, however the network cuts them up, then that
    -- many calls of `receive_message` give the header and the map of each command, in the order in
    -- which they were sent, and leave what follows; or a read failed although the bytes that it
    -- asked for were still to come. No assertion fails. Each
    -- request has an id of 64 bits, less than 2^32 bytes and a packed map that is not empty.
    pub run-Arrives :
        (capacity : ℕ) (es : List (Event (List ℕ))) (ps : List (Command × ℕ)) (fr : Framing t)
        (rest : List ℕ)
        → Feasible (new_connection capacity) 0 es
        → Succeeds es
        → outstanding (new_connection capacity) 0 es ≡ 0
        → sent es ≡ all_data ps
        → AllFit ps
        → IsReady fr.buffer
        → stream t laws fr ≡ flatten (flatten (run (new_connection capacity) es).writes) ++ rest
        → Arrives (map message_of ps) rest (receive_many (length ps) fr)
    run-Arrives capacity es ps fr rest f s z e a d w =
        receive_many-Arrives fr ps rest d a
          (w ∙ ap (λ bs. flatten bs ++ rest) (all_written capacity es f s z ∙ e))
