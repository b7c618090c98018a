-- ===== src/Iproto/RoundTrip.antt =====
-- include/tarantool_connector/detail/iproto_typedefs.h: what a header says after it was packed and
-- read back, and the error that it stands for.
use tntpp.Common.{
  ℕ, ◌+◌, ◌-◌, ◌<◌, ◌≡◌, refl, true, Option, none, some, List, [], ◌∷◌, ◌++◌, arith, append-nil,
  length, leb, leb→le,
}
use tntpp.Errc.{tarantool}
use tntpp.Msgpack.{Msgpack, ReadsBack, Fits, packed}
use tntpp.Iproto.Types.{is_error_req_type, field_number, int_to_field_type}
use tntpp.Iproto.Errors.Code.{TarantoolError, error_code}
use tntpp.Iproto.Errors.Code
use tntpp.Iproto.Errors.Cast.{int_to_tarantool_error-error_code}
use tntpp.Iproto.Header.{
  MessageHeader, is_error, get_error_code, convert_field, convert, pack_header,
}

-- The fields that a header is packed as.
abbrev pub pairs_of : ℕ → ℕ → Option ℕ → List (ℕ × ℕ)
pairs_of sync request_type none = (1, sync) ∷ (0, request_type) ∷ []
pairs_of sync request_type (some s) = (1, sync) ∷ (0, request_type) ∷ (10, s) ∷ []

abbrev pub pairs : MessageHeader → List (ℕ × ℕ)
pairs h = pairs_of h.sync h.request_type h.stream_id

module _ (c : Msgpack) (laws : ReadsBack c) where
  pack_header-packed_of :
      (r s v : ℕ) (i : Option ℕ)
      → pack_header c (record { request_type = r; sync = s; schema_version = v; stream_id = i })
        ≡ c.pack_map (length (pairs_of s r i)) ++ packed c (pairs_of s r i)
  unfolding pack_header field_number
  pack_header-packed_of r s v none = simp append-nil
  pack_header-packed_of r s v (some i) = simp append-nil

  convert-table_of :
      (s r : ℕ) (i : Option ℕ)
      → convert c (laws.table (pairs_of s r i))
        ≡ some (record { request_type = r; sync = s; schema_version = 0; stream_id = i })
  unfolding convert convert_field int_to_field_type
  convert-table_of s r none = simp (laws.as_map-table, laws.as_uint-uint, laws.to_uint-uint)
  convert-table_of s r (some i) = simp (laws.as_map-table, laws.as_uint-uint, laws.to_uint-uint)

  -- If msgpack reads back the maps that it packs, then from the bytes of a packed header, whatever
  -- follows them, it reads an object that ends where the header ends, and converting it gives the
  -- header again, but for the schema version, which is not packed.
  pub convert-pack_header :
      (h : MessageHeader) (rest : List ℕ)
      → Fits (pairs h)
      → (o : c.Object) × (c.unpack (pack_header c h ++ rest) ≡ some (o, length (pack_header c h)))
        × (convert c o ≡ some (record h { schema_version = 0 }))
  convert-pack_header h rest f = (
    laws.table (pairs h),
    rw (pack_header-packed_of h.request_type h.sync h.schema_version h.stream_id)
        (laws.unpack-packed (pairs h) rest f),
    convert-table_of h.sync h.request_type h.stream_id,
  )

pub error_code-le : (e : TarantoolError) → leb (error_code e) 280 ≡ true
unfolding error_code
error_code-le Code.unknown = refl
error_code-le _ = refl

-- A response whose type is 0x8000 plus the value of an error of the server gives that error, and
-- a response whose type is less than 0x8000 gives none.
pub get_error_code_lem :
    (h : MessageHeader) (e : TarantoolError) (n : ℕ)
    → n < 0x8000
    → (get_error_code (record h { request_type = 0x8000 + error_code e }) ≡ some (tarantool e))
      × (get_error_code (record h { request_type = n }) ≡ none)
unfolding get_error_code is_error is_error_req_type
get_error_code_lem h e n lt = (
  ground (
    arith,
    leb→le (error_code e) 280 (error_code-le e),
    int_to_tarantool_error-error_code e,
    back,
  ),
  ground arith,
)
  where
    back : 0x8000 + error_code e - 0x8000 ≡ error_code e
    back = omega arith
