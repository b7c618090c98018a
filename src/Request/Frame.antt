-- ===== src/Request/Frame.antt =====
-- include/tarantool_connector/detail/tntpp_request.h: the bytes that a packer builds, a length and a
-- body.
use tntpp.Common.{
  ℕ, ◌+◌, ◌^◌, ◌<◌, ◌≡◌, refl, sym, ap, ◌∙◌, some, List, [], ◌∷◌, ◌++◌, arith, append-nil,
  append_assoc, length, length-append, write_at, write_at-nil, write_at-append, be16, be32,
}
use tntpp.Request.{
  RequestPacker, size_tag, map_tag, new_packer, pack, begin_map, finalize_map, pack_map_entry,
  finalize,
}

-- A request on the wire: a 32-bit msgpack integer, the length of the body, and the body.
abbrev pub frame : List ℕ → List ℕ
frame body = size_tag ∷ (be32 (length body) ++ body)

-- An unfinished packer holds the body `b` so far.
abbrev pub Holds : RequestPacker → List ℕ → Type 0
Holds p b = p.stream ≡ size_tag ∷ 255 ∷ 255 ∷ 255 ∷ 255 ∷ b

pub new_packer-Holds : Holds new_packer []
unfolding new_packer
new_packer-Holds = refl

pub pack-Holds : (p : RequestPacker) (b bs : List ℕ) → Holds p b → Holds (pack p bs) (b ++ bs)
unfolding pack
pack-Holds p b bs h = rw h

pub pack_map_entry-Holds :
    (p : RequestPacker) (b key value : List ℕ)
    → Holds p b
    → Holds (pack_map_entry p key value) ((b ++ key) ++ value)
unfolding pack_map_entry
pack_map_entry-Holds p b key value h = rw h

-- A packer that holds a body of less than 2^32 bytes is finalized to the frame of that body.
pub finalize-frame :
    (p : RequestPacker) (b : List ℕ) → Holds p b → length b < 2 ^ 32 → (finalize p).stream ≡ frame b
unfolding finalize
finalize-frame p b h lt = ground (arith, write_at-nil b)

-- The entries of a map: for each the bytes of its key and of its value.
abbrev pub entries : List (List ℕ × List ℕ) → List ℕ
entries [] = []
entries ((k, v) ∷ es) = k ++ (v ++ entries es)

unfoldable pub pack_entries : RequestPacker → List (List ℕ × List ℕ) → RequestPacker
pack_entries p [] = p
pack_entries p ((k, v) ∷ es) = pack_entries (pack_map_entry p k v) es

-- A packer with an open map behind the body `b`, of which the entries `es` are there.
pub record HoldsMap (p : RequestPacker) (b es : List ℕ) (n : ℕ) : Type 0 where
  pub held : Holds p (b ++ map_tag ∷ 255 ∷ 255 ∷ es)
  pub offset : p.map_len_offset ≡ 6 + length b
  pub count : p.header_count ≡ n

pub begin_map-HoldsMap :
    (p : RequestPacker) (b : List ℕ) → Holds p b → HoldsMap (begin_map p) b [] p.header_count
unfolding begin_map
begin_map-HoldsMap p b h = record {
  held = rw (h, append_assoc);
  offset = rw h (omega (arith, length-append b (map_tag ∷ [])));
  count = refl;
}

pub pack_map_entry-HoldsMap :
    (p : RequestPacker) (b es key value : List ℕ) (n : ℕ)
    → HoldsMap p b es n
    → n + 1 < 2 ^ 16
    → HoldsMap (pack_map_entry p key value) b (es ++ (key ++ value)) (n + 1)
unfolding pack_map_entry
pack_map_entry-HoldsMap p b es key value n h lt = record {
  held = rw h.held (simp append_assoc);
  offset = h.offset;
  count = omega (arith, h.count);
}

HoldsMap-of_eq :
    (p : RequestPacker) (b es : List ℕ) (n : ℕ) {es' : List ℕ} {n' : ℕ}
    → es ≡ es'
    → n ≡ n'
    → HoldsMap p b es n
    → HoldsMap p b es' n'
HoldsMap-of_eq p b es n e k h = record {
  held = rw (← e) h.held;
  offset = h.offset;
  count = h.count ∙ k;
}

pub pack_entries-HoldsMap :
    (p : RequestPacker) (b es : List ℕ) (n : ℕ) (more : List (List ℕ × List ℕ))
    → HoldsMap p b es n
    → n + length more < 2 ^ 16
    → HoldsMap (pack_entries p more) b (es ++ entries more) (n + length more)
unfolding pack_entries
pack_entries-HoldsMap p b es n [] h lt =
    HoldsMap-of_eq p b es n (sym (append-nil es)) (omega arith) h
pack_entries-HoldsMap p b es n ((k, v) ∷ more) h lt =
    HoldsMap-of_eq _ b ((es ++ (k ++ v)) ++ entries more) (n + 1 + length more)
      (append_assoc es (k ++ v) (entries more)
        ∙ ap (λ l. es ++ l) (append_assoc k v (entries more)))
      (omega arith)
      (pack_entries-HoldsMap (pack_map_entry p k v) b (es ++ (k ++ v)) (n + 1) more
        (pack_map_entry-HoldsMap p b es k v n h (omega arith)) (omega arith))

-- What stands before the count of the open map.
abbrev before_count : List ℕ → List ℕ
before_count b = size_tag ∷ 255 ∷ 255 ∷ 255 ∷ 255 ∷ (b ++ map_tag ∷ [])

pub finalize_map-Holds :
    (p : RequestPacker) (b es : List ℕ) (n : ℕ)
    → HoldsMap p b es n
    → (q : RequestPacker) × (finalize_map p ≡ some q) × Holds q (b ++ map_tag ∷ (be16 n ++ es))
unfolding finalize_map
finalize_map-Holds p b es n h = (
  record p { stream = write_at p.map_len_offset (be16 p.header_count) p.stream },
  ground (arith, h.offset),
  written,
)
  where
    split : p.stream ≡ before_count b ++ 255 ∷ 255 ∷ es
    split =
        h.held
        ∙ ap (λ l. size_tag ∷ 255 ∷ 255 ∷ 255 ∷ 255 ∷ l)
            (sym (append_assoc b (map_tag ∷ []) (255 ∷ 255 ∷ es)))

    offset : p.map_len_offset ≡ length (before_count b)
    offset = omega (arith, h.offset, length-append b (map_tag ∷ []))

    written :
        write_at p.map_len_offset (be16 p.header_count) p.stream
        ≡ size_tag ∷ 255 ∷ 255 ∷ 255 ∷ 255 ∷ (b ++ map_tag ∷ (be16 n ++ es))
    written =
        ap (λ s. write_at p.map_len_offset (be16 p.header_count) s) split
        ∙ ap (λ o. write_at o (be16 p.header_count) (before_count b ++ 255 ∷ 255 ∷ es)) offset
        ∙ write_at-append (before_count b) (be16 p.header_count) (255 ∷ 255 ∷ es)
        ∙ ap (λ l. before_count b ++ (be16 p.header_count ++ l)) (write_at-nil es)
        ∙ ap (λ k. before_count b ++ (be16 k ++ es)) h.count
        ∙ ap (λ l. size_tag ∷ 255 ∷ 255 ∷ 255 ∷ 255 ∷ l)
            (append_assoc b (map_tag ∷ []) (be16 n ++ es))

-- A packer that holds the body `b`, after `begin_map()`, fewer than 2^16 entries and
-- `finalize_map`, holds `b` and then a 16-bit map whose count is the number of those entries and
-- whose content are the entries in order; no assertion fails. The packer must not have packed map
-- entries before.
pub finalize_map-pack_entries :
    (p : RequestPacker) (b : List ℕ) (es : List (List ℕ × List ℕ))
    → Holds p b
    → p.header_count ≡ 0
    → length es < 2 ^ 16
    → (q : RequestPacker) × (finalize_map (pack_entries (begin_map p) es) ≡ some q)
      × Holds q (b ++ map_tag ∷ (be16 (length es) ++ entries es))
finalize_map-pack_entries p b es h z lt =
    finalize_map-Holds (pack_entries (begin_map p) es) b (entries es) (length es) (
      HoldsMap-of_eq _ b (entries es) (0 + length es) refl (omega arith) (
        pack_entries-HoldsMap (begin_map p) b [] 0 es
          (HoldsMap-of_eq _ b [] p.header_count refl z (begin_map-HoldsMap p b h)) (omega arith)))
