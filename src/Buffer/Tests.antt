-- ===== src/Buffer/Tests.antt =====
-- The receive buffer on small inputs, among them those of test/source/mutable_buffer_test.cpp.
use tntpp.Common.{◌≡◌, refl, none, some, List, [], ◌∷◌, arith}
use tntpp.Buffer.{
  MutableBuffer, FrozenBuffer, Region, new_buffer, new_shared, contents, frozen_bytes, prepare,
  get_receive_buffer, get_ready_buffer, advance_writer_of, slice_frozen, clear,
}
use tntpp.Buffer
use tntpp.Buffer.Run
use tntpp.Buffer.State.{IsValid, room}
use tntpp.Buffer.Transfer.{new_buffer-IsValid}
use tntpp.Buffer.Run.{Op, receives, consumes, clears, run, run_queue, step, receive}
use tntpp.Buffer.Refine.{Refines, run-Refines}

abbrev eight : MutableBuffer
unfolding new_buffer new_shared
eight = new_buffer 8

eight-IsValid : IsValid eight
unfolding eight
eight-IsValid = new_buffer-IsValid 8 (omega arith)

-- Nine bytes do not fit into the eight that are there.
abbrev history : List Op
history =
    receives (1 ∷ 2 ∷ 3 ∷ [])
    ∷ consumes 2
    ∷ receives (4 ∷ 5 ∷ 6 ∷ 7 ∷ 8 ∷ 9 ∷ [])
    ∷ consumes 4
    ∷ clears
    ∷ []

queue_run : run_queue [] history ≡ some ([], (1 ∷ 2 ∷ []) ∷ (3 ∷ 4 ∷ 5 ∷ 6 ∷ []) ∷ [])
unfolding run_queue Run.step_queue
queue_run = refl

-- TEST(tntpp_mutable_buffer, prepare)
room_after_prepare : (elim (prepare eight 128) [ none ↦ none | some m ↦ some (room m) ]) ≡ some 136
unfolding eight prepare
room_after_prepare = refl

-- TEST(tntpp_mutable_buffer, auto_prepare)
region_when_full :
    (elim (advance_writer_of eight 8) [
      | none ↦ none
      | some m ↦ elim (get_receive_buffer m) [ none ↦ none | some (m', r) ↦ some r.size ]
    ])
    ≡ some 16
unfolding eight advance_writer_of get_receive_buffer
region_when_full = refl

run-Refines_example : Refines (run eight history) (run_queue (contents eight) history)
unfolding eight
run-Refines_example = run-Refines eight history eight-IsValid (omega arith) (omega arith)

-- The buffer after three bytes were received, and a frozen buffer that shows the first two.
abbrev three : MutableBuffer
unfolding eight receive
three = elim (receive eight (1 ∷ 2 ∷ 3 ∷ [])) [ none ↦ eight | some m ↦ m ]

three-IsValid : IsValid three
unfolding three prepare get_receive_buffer advance_writer_of Buffer.fill
three-IsValid = omega arith

abbrev pair : FrozenBuffer
pair = record { buf = some 0; start = 0; size = 2 }

abbrev grown : MutableBuffer
unfolding three run
grown = elim (run three (receives (4 ∷ 5 ∷ 6 ∷ 7 ∷ 8 ∷ 9 ∷ []) ∷ [])) [
  | none ↦ three
  | some (m, fs) ↦ m
]
