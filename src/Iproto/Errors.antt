-- ===== src/Iproto/Errors.antt =====
-- include/tarantool_connector/detail/iproto_typedefs.h: the errors of the server.
pub mod Code
pub mod Cast
pub mod Message
