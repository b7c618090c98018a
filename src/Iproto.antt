-- ===== src/Iproto.antt =====
-- include/tarantool_connector/detail/iproto_typedefs.h and the names of its children.
pub mod Errors
pub mod Types
pub mod Header
pub mod RoundTrip
mod Tests
