-- ===== src/Iproto/Errors/Message/Below140.antt =====
-- include/tarantool_connector/detail/iproto_typedefs.h: `TarantoolErrorCategory::message`, the cases
-- of the enumerators from 70 to 139.
use Prim.Native.String.{String}
use tntpp.Common.{Option, none, some}
use tntpp.Iproto.Errors.Code.{
  TarantoolError, identifier, drop_function, iterator_type, replica_max, invalid_xlog,
  invalid_xlog_name, invalid_xlog_order, no_connection, timeout, active_transaction,
  cursor_no_transaction, cross_engine_transaction, no_such_role, role_exists, create_role,
  index_exists, session_closed, role_loop, grant, priv_granted, role_granted, priv_not_granted,
  role_not_granted, missing_snapshot, cant_update_primary_key, update_integoverflow,
  guest_user_password, transaction_conflict, unsupported_priv, load_function, function_language,
  rtree_rect, proc_c, unknown_rtree_index_distance_type, protocol, upsert_unique_secondary_key,
  wrong_index_record, wrong_index_parts, wrong_index_options, wrong_schema_version,
  memtx_max_tuple_size, wrong_space_options, unsupported_index_feature, view_is_ro, no_transaction,
  system, loading, connection_to_self, key_part_is_too_long, compression, checkpoint_in_progress,
  sub_stmt_max, commit_in_sub_stmt, rollback_in_sub_stmt, decompression, invalid_xlog_type,
  already_running, index_field_count_limit, local_instance_id_is_read_only, backup_in_progress,
  read_view_aborted, invalid_index_file, invalid_run_file, invalid_vylog_file, cascade_rollback,
  vy_quota_timeout, partial_key, truncate_system_space, load_module, vinyl_max_tuple_size,
}

unfoldable pub text_below_140 : TarantoolError → Option String
text_below_140 identifier =
    some "Invalid identifier '%s' (expected printable symbols only or it is too long)"
text_below_140 drop_function = some "Can't drop function %u: %s"
text_below_140 iterator_type = some "Unknown iterator type '%s'"
text_below_140 replica_max = some "Replica count limit reached: %u"
text_below_140 invalid_xlog = some "Failed to read xlog: %lld"
text_below_140 invalid_xlog_name = some "Invalid xlog name: expected %lld got %lld"
text_below_140 invalid_xlog_order = some "Invalid xlog order: %lld and %lld"
text_below_140 no_connection = some "Connection is not established"
text_below_140 timeout = some "Timeout exceeded"
text_below_140 active_transaction =
    some "Operation is not permitted when there is an active transaction"
text_below_140 cursor_no_transaction = some "The transaction the cursor belongs to has ended"
text_below_140 cross_engine_transaction =
    some "A multi-statement transaction can not use multiple storage engines"
text_below_140 no_such_role = some "Role '%s' is not found"
text_below_140 role_exists = some "Role '%s' already exists"
text_below_140 create_role = some "Failed to create role '%s': %s"
text_below_140 index_exists = some "Index '%s' already exists"
text_below_140 session_closed = some "Session is closed"
text_below_140 role_loop = some "Granting role '%s' to role '%s' would create a loop"
text_below_140 grant = some "Incorrect grant arguments: %s"
text_below_140 priv_granted = some "User '%s' already has %s access on %s%s"
text_below_140 role_granted = some "User '%s' already has role '%s'"
text_below_140 priv_not_granted = some "User '%s' does not have %s access on %s '%s'"
text_below_140 role_not_granted = some "User '%s' does not have role '%s'"
text_below_140 missing_snapshot = some "Can't find snapshot"
text_below_140 cant_update_primary_key =
    some "Attempt to modify a tuple field which is part of primary index in space '%s'"
text_below_140 update_integoverflow =
    some "Integer overflow when performing '%c' operation on field %s"
text_below_140 guest_user_password = some "Setting password for guest user has no effect"
text_below_140 transaction_conflict = some "Transaction has been aborted by conflict"
text_below_140 unsupported_priv = some "Unsupported %s privilege '%s'"
text_below_140 load_function = some "Failed to dynamically load function '%s': %s"
text_below_140 function_language = some "Unsupported language '%s' specified for function '%s'"
text_below_140 rtree_rect =
    some "RTree: %s must be an array with %u (point) or %u (rectangle/box) numeric coordinates"
text_below_140 proc_c = some "%s"
text_below_140 unknown_rtree_index_distance_type = some "Unknown RTREE index distance type %s"
text_below_140 protocol = some "%s"
text_below_140 upsert_unique_secondary_key =
    some "Space %s has a unique secondary index and does not support UPSERT"
text_below_140 wrong_index_record = some "Wrong record in _index space: got {%s}, expected {%s}"
text_below_140 wrong_index_parts = some "Wrong index part %u: %s"
text_below_140 wrong_index_options = some "Wrong index options: %s"
text_below_140 wrong_schema_version = some "Wrong schema version, current: %d, in request: %llu"
text_below_140 memtx_max_tuple_size =
    some
      "Failed to allocate %u bytes for tuple: tuple is too large. Check 'memtx_max_tuple_size' configuration option."
text_below_140 wrong_space_options = some "Wrong space options: %s"
text_below_140 unsupported_index_feature =
    some "Index '%s' (%s) of space '%s' (%s) does not support %s"
text_below_140 view_is_ro = some "View '%s' is read-only"
text_below_140 no_transaction = some "No active transaction"
text_below_140 system = some "%s"
text_below_140 loading = some "Instance bootstrap hasn't finished yet"
text_below_140 connection_to_self = some "Connection to self"
text_below_140 key_part_is_too_long = some "Key part is too long: %u of %u bytes"
text_below_140 compression = some "Compression error: %s"
text_below_140 checkpoint_in_progress = some "Snapshot is already in progress"
text_below_140 sub_stmt_max = some "Can not execute a nested statement: nesting limit reached"
text_below_140 commit_in_sub_stmt = some "Can not commit transaction in a nested statement"
text_below_140 rollback_in_sub_stmt = some "Rollback called in a nested statement"
text_below_140 decompression = some "Decompression error: %s"
text_below_140 invalid_xlog_type = some "Invalid xlog type: expected %s, got %s"
text_below_140 already_running = some "Failed to lock WAL directory %s and hot_standby mode is off"
text_below_140 index_field_count_limit = some "Indexed field count limit reached: %d indexed fields"
text_below_140 local_instance_id_is_read_only = some "The local instance id %u is read-only"
text_below_140 backup_in_progress = some "Backup is already in progress"
text_below_140 read_view_aborted = some "The read view is aborted"
text_below_140 invalid_index_file = some "Invalid INDEX file %s: %s"
text_below_140 invalid_run_file = some "Invalid RUN file: %s"
text_below_140 invalid_vylog_file = some "Invalid VYLOG file: %s"
text_below_140 cascade_rollback = some "WAL has a rollback in progress"
text_below_140 vy_quota_timeout = some "Timed out waiting for Vinyl memory quota"
text_below_140 partial_key =
    some
      "%s index  does not support selects via a partial key (expected %u parts, got %u). Please Consider changing index type to TREE."
text_below_140 truncate_system_space = some "Can't truncate a system space, space '%s'"
text_below_140 load_module = some "Failed to dynamically load module '%.*s': %s"
text_below_140 vinyl_max_tuple_size =
    some
      "Failed to allocate %u bytes for tuple: tuple is too large. Check 'vinyl_max_tuple_size' configuration option."
text_below_140 _ = none
