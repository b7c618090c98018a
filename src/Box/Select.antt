-- ===== src/Box/Select.antt =====
-- include/tarantool_connector/box/tntpp_box.h: what `select` sends for the choices made on a builder.
use tntpp.Common.{ℕ, ◌^◌, ◌<◌, ◌≡◌, refl, sym, ap, ◌∙◌, List, [], ◌∷◌, ◌++◌, length, some, be16}
use tntpp.Msgpack.{Msgpack}
use tntpp.Request.{RequestPacker, map_tag, new_packer, pack, begin_map, pack_map_entry}
use tntpp.Request.Frame.{frame, entries, pack_entries, finalize-frame, finalize_map-pack_entries}
use tntpp.Iproto.Types.{
  select, space_id, limit, offset, iterator, key, after_position, after_tuple, fetch_position,
}
use tntpp.Iproto.Header.{pack_header}
use tntpp.Connector.{Internal, send_request}
use tntpp.Connector.Requests.{request_header, start_request, pack_field}
use tntpp.Connector.Requests.Bytes.{field, start_request-Holds}
use tntpp.Box.{
  SpaceVariant, number, SelectRequest, Choice, with_index, with_limit, with_offset, with_iterator,
  with_key, with_after_position, with_after_tuple, with_fetch_position, iterator_number,
  new_builder, choose, choose_all, send_select, get_space_index,
}

pub pack_entries-append :
    (p : RequestPacker) (es fs : List (List ℕ × List ℕ))
    → pack_entries p (es ++ fs) ≡ pack_entries (pack_entries p es) fs
unfolding pack_entries
pack_entries-append p [] fs = refl
pack_entries-append p ((k, v) ∷ es) fs = pack_entries-append (pack_map_entry p k v) es fs

module _ (c : Msgpack) where
  open c use {pack_uint, pack_string, pack_bool}

  -- The entries that a choice stands for.
  abbrev pub choice : Choice → List (List ℕ × List ℕ)
  choice (with_index i) = []
  choice (with_limit n) = field c limit (pack_uint n) ∷ []
  choice (with_offset n) = field c offset (pack_uint n) ∷ []
  choice (with_iterator i) = field c iterator (pack_uint (iterator_number i)) ∷ []
  choice (with_key k) = field c key k ∷ []
  choice (with_after_position p) = field c after_position (pack_string p) ∷ []
  choice (with_after_tuple t) = field c after_tuple t ∷ []
  choice (with_fetch_position b) = field c fetch_position (pack_bool b) ∷ []

  abbrev pub choices : List Choice → List (List ℕ × List ℕ)
  choices [] = []
  choices (x ∷ xs) = choice x ++ choices xs

  abbrev pub selection : List Choice → ℕ → List (List ℕ × List ℕ)
  selection xs n = choices xs ++ field c space_id (pack_uint n) ∷ []

  -- The body of a select: the header, and a 16-bit map of the entries.
  abbrev pub select_body : ℕ → List (List ℕ × List ℕ) → List ℕ
  select_body id es =
      pack_header c (request_header id select) ++ map_tag ∷ (be16 (length es) ++ entries es)

  -- What the choices have added to a builder.
  abbrev Chosen : SelectRequest → List (List ℕ × List ℕ) → SelectRequest → Type 0
  Chosen r es r' =
      (r'.packer ≡ pack_entries r.packer es) × (r'.space ≡ r.space) × (r'.sync ≡ r.sync)

  choose-Chosen : (r : SelectRequest) (x : Choice) → Chosen r (choice x) (choose c r x)
  unfolding choose pack_entries
  choose-Chosen r (with_index i) = (refl, refl, refl)
  choose-Chosen r _ = (refl, refl, refl)

  choose_all-Chosen :
      (r : SelectRequest) (xs : List Choice) → Chosen r (choices xs) (choose_all c r xs)
  unfolding choose_all pack_entries
  choose_all-Chosen r [] = (refl, refl, refl)
  choose_all-Chosen r (x ∷ xs) =
      let (p, s, i) = choose-Chosen r x in
      let (q, t, j) = choose_all-Chosen (choose c r x) xs in
      (
        q
            ∙ ap (λ k. pack_entries k (choices xs)) p
            ∙ sym (pack_entries-append r.packer (choice x) (choices xs)),
        t ∙ s,
        j ∙ i,
      )

  start_request-count : (id : ℕ) → (start_request c id select).header_count ≡ 0
  unfolding new_packer pack
  start_request-count id = refl

  -- For a space given by its number, fewer than 2^16 entries and less than 2^32 bytes, `select`
  -- sends one frame: a header, and a map that declares the number of its entries and has those of
  -- the choices made on the builder in their order and then the space. No assertion fails. The
  -- index, that of the builder or one chosen later, is in none of these entries.
  pub send_select_lem :
      (s : Internal (List ℕ)) (n id h : ℕ) (index : SpaceVariant) (xs : List Choice)
      → length (selection xs n) < 2 ^ 16
      → length (select_body id (selection xs n)) < 2 ^ 32
      → send_select c s (choose_all c (new_builder c (number n) index id) xs) h
        ≡ some (send_request s id (frame (select_body id (selection xs n))) h)
  unfolding send_select get_space_index new_builder pack_entries
  send_select_lem s n id h index xs few lt =
      let b = new_builder c (number n) index id in
      let (p, t, i) = choose_all-Chosen b xs in
      let (q, e, k) =
        finalize_map-pack_entries (start_request c id select)
          (pack_header c (request_header id select)) (selection xs n)
          (start_request-Holds c id select) (start_request-count id) few in
      let packed : pack_field c (choose_all c b xs).packer space_id (pack_uint n)
          ≡ pack_entries (begin_map (start_request c id select)) (selection xs n) =
        ap (λ r. pack_field c r space_id (pack_uint n)) p
        ∙ sym (pack_entries-append (begin_map (start_request c id select)) (choices xs) _) in
      rw (t, send_select, i, packed, e)
        (ap (λ l. some (send_request s id l h)) (finalize-frame q _ k lt))
