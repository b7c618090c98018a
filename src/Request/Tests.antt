-- ===== src/Request/Tests.antt =====
-- Packed requests on small inputs.
use tntpp.Common.{ℕ, ◌≡◌, refl, some, List, [], ◌∷◌, ◌++◌, arith, be16, length}
use tntpp.Request.{RequestPacker, new_packer, pack, begin_map, finalize_map, finalize, map_tag}
use tntpp.Request.Frame.{Holds, pack_entries, entries, finalize_map-pack_entries}

abbrev hello : RequestPacker
unfolding new_packer pack
hello = pack new_packer (7 ∷ 8 ∷ 9 ∷ [])

finalized : (finalize hello).stream ≡ 0xce ∷ 0 ∷ 0 ∷ 0 ∷ 3 ∷ 7 ∷ 8 ∷ 9 ∷ []
unfolding hello finalize
finalized = refl

abbrev two_entries : List (List ℕ × List ℕ)
two_entries = (0x12 ∷ [], 5 ∷ []) ∷ (0x13 ∷ [], 6 ∷ []) ∷ []

finalize_map-pack_entries_example :
    (q : RequestPacker) × (finalize_map (pack_entries (begin_map hello) two_entries) ≡ some q)
    × Holds q ((7 ∷ 8 ∷ 9 ∷ []) ++ map_tag ∷ (be16 (length two_entries) ++ entries two_entries))
unfolding hello
finalize_map-pack_entries_example =
    finalize_map-pack_entries hello (7 ∷ 8 ∷ 9 ∷ []) two_entries refl refl (omega arith)
