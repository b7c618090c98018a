-- ===== src/Connection/Tests.antt =====
-- Sending on small histories.
use mathlib.Core.List.{flatten}
use tntpp.Common.{ℕ, ◌≡◌, refl, none, some, List, [], ◌∷◌, arith}
use tntpp.Errc.{network}
use tntpp.Queue.{new_queue, push, swap, is_ready}
use tntpp.Connection.{Event, sends, written, new_connection, step, run}
use tntpp.Connection.Send.{sent, outstanding, all_written}

-- The second and third request wait for the first, and go out together.
abbrev three : List (Event ℕ)
three = sends 1 ∷ sends 2 ∷ sends 3 ∷ written none ∷ written none ∷ []

batches : (run (new_connection 32) three).writes ≡ (1 ∷ []) ∷ (2 ∷ 3 ∷ []) ∷ []
unfolding run new_connection new_queue push swap is_ready
batches = refl

all_written_example : flatten (run (new_connection 32) three).writes ≡ sent three
unfolding outstanding step new_connection new_queue push swap is_ready
all_written_example = all_written 32 three (omega arith) (omega arith) refl

abbrev failing : List (Event ℕ)
failing = sends 1 ∷ sends 2 ∷ written (some (network 1)) ∷ sends 3 ∷ []
