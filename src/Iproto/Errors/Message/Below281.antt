-- ===== src/Iproto/Errors/Message/Below281.antt =====
-- include/tarantool_connector/detail/iproto_typedefs.h: `TarantoolErrorCategory::message`, the cases
-- of the enumerators from 210 to 280.
use Prim.Native.String.{String}
use tntpp.Common.{Option, none, some}
use tntpp.Iproto.Errors.Code.{
  TarantoolError, sql_prepare, wrong_query_id, sequence_not_started, no_such_session_setting,
  uncommitted_foreign_sync_txns, sync_master_mismatch, sync_quorum_timeout, sync_rollback,
  tuple_metadata_is_too_big, xlog_gap, too_early_subscribe, sql_cant_add_autoinc, quorum_wait,
  interfering_promote, election_disabled, txn_rollback, not_leader, sync_queue_unclaimed,
  sync_queue_foreign, unable_to_process_in_stream, unable_to_process_out_of_stream,
  transaction_timeout, active_timer, tuple_field_count_limit, create_constraint,
  field_constraint_failed, tuple_constraint_failed, create_foreign_key, foreign_key_integrity,
  field_foreign_key_failed, complex_foreign_key_failed, wrong_space_upgrade_options,
  no_election_quorum, ssl, split_brain, old_term, interfering_elections, iterator_position,
  default_value_type, unknown_auth_method, invalid_auth_data, invalid_auth_request, weak_password,
  old_password, no_such_session, wrong_session_type, password_expired, auth_delay, auth_required,
  sql_seq_scan, no_such_event, bootstrap_not_unanimous, cant_check_bootstrap_leader,
  bootstrap_connection_not_to_all, nil_uuid, wrong_function_options, missing_system_spaces,
  cluster_name_mismatch, replicaset_name_mismatch, instance_name_duplicate, instance_name_mismatch,
  schema_needs_upgrade, schema_upgrade_in_progress, deprecated, unconfigured, create_default_func,
  default_func_failed, invalid_dec, in_another_promote, shutdown, field_value_out_of_range,
}

unfoldable pub text_below_281 : TarantoolError → Option String
text_below_281 sql_prepare = some "Failed to prepare SQL statement: %s"
text_below_281 wrong_query_id = some "Prepared statement with id %u does not exist"
text_below_281 sequence_not_started = some "Sequence '%s' is not started"
text_below_281 no_such_session_setting = some "Session setting %s doesn't exist"
text_below_281 uncommitted_foreign_sync_txns =
    some "Found uncommitted sync transactions from other instance with id %u"
text_below_281 sync_master_mismatch =
    some "CONFIRM message arrived for an unknown master id %d, expected %d"
text_below_281 sync_quorum_timeout =
    some "Quorum collection for a synchronous transaction is timed out"
text_below_281 sync_rollback = some "A rollback for a synchronous transaction is received"
text_below_281 tuple_metadata_is_too_big = some "Can't create tuple: metadata size %u is too big"
text_below_281 xlog_gap = some "%s"
text_below_281 too_early_subscribe =
    some "Can't subscribe non-anonymous replica %s until join is done"
text_below_281 sql_cant_add_autoinc =
    some "Can't add AUTOINCREMENT: space %s can't feature more than one AUTOINCREMENT field"
text_below_281 quorum_wait = some "Couldn't wait for quorum %d: %s"
text_below_281 interfering_promote = some "Instance with replica id %u was promoted first"
text_below_281 election_disabled = some "Elections were turned off"
text_below_281 txn_rollback = some "Transaction was rolled back"
text_below_281 not_leader = some "The instance is not a leader. New leader is %u"
text_below_281 sync_queue_unclaimed =
    some "The synchronous transaction queue doesn't belong to any instance"
text_below_281 sync_queue_foreign =
    some "The synchronous transaction queue belongs to other instance with id %u"
text_below_281 unable_to_process_in_stream = some "Unable to process %s request in stream"
text_below_281 unable_to_process_out_of_stream = some "Unable to process %s request out of stream"
text_below_281 transaction_timeout = some "Transaction has been aborted by timeout"
text_below_281 active_timer = some "Operation is not permitted if timer is already running"
text_below_281 tuple_field_count_limit =
    some "Tuple field count limit reached: see box.schema.FIELD_MAX"
text_below_281 create_constraint = some "Failed to create constraint '%s' in space '%s': %s"
text_below_281 field_constraint_failed = some "Check constraint '%s' failed for field '%s'"
text_below_281 tuple_constraint_failed = some "Check constraint '%s' failed for a tuple"
text_below_281 create_foreign_key = some "Failed to create foreign key '%s' in space '%s': %s"
text_below_281 foreign_key_integrity = some "Foreign key '%s' integrity check failed: %s"
text_below_281 field_foreign_key_failed =
    some "Foreign key constraint '%s' failed for field '%s': %s"
text_below_281 complex_foreign_key_failed = some "Foreign key constraint '%s' failed: %s"
text_below_281 wrong_space_upgrade_options = some "Wrong space upgrade options: %s"
text_below_281 no_election_quorum =
    some "Not enough peers connected to start elections: %d out of minimal required %d"
text_below_281 ssl = some "%s"
text_below_281 split_brain = some "Split-Brain discovered: %s"
text_below_281 old_term = some "The term is outdated: old - %llu, new - %llu"
text_below_281 interfering_elections = some "Interfering elections started"
text_below_281 iterator_position = some "Iterator position is invalid"
text_below_281 default_value_type =
    some "Type of the default value does not match tuple field %s type: expected %s, got %s"
text_below_281 unknown_auth_method = some "Unknown authentication method '%s'"
text_below_281 invalid_auth_data = some "Invalid '%s' data: %s"
text_below_281 invalid_auth_request = some "Invalid '%s' request: %s"
text_below_281 weak_password = some "Password doesn't meet security requirements: %s"
text_below_281 old_password = some "Password must differ from last %d passwords"
text_below_281 no_such_session = some "Session %llu does not exist"
text_below_281 wrong_session_type = some "Session '%s' is not supported"
text_below_281 password_expired = some "Password expired"
text_below_281 auth_delay = some "Too many authentication attempts"
text_below_281 auth_required = some "Authentication required"
text_below_281 sql_seq_scan = some "Scanning is not allowed for %s"
text_below_281 no_such_event = some "Unknown event %s"
text_below_281 bootstrap_not_unanimous = some "Replica %s chose a different bootstrap leader %s"
text_below_281 cant_check_bootstrap_leader =
    some "Can't check who replica %s chose its bootstrap leader"
text_below_281 bootstrap_connection_not_to_all =
    some "Some replica set members were not specified in box.cfg.replication"
text_below_281 nil_uuid = some "Nil UUID is reserved and can't be used in replication"
text_below_281 wrong_function_options = some "Wrong function options: %s"
text_below_281 missing_system_spaces = some "Snapshot has no system spaces"
text_below_281 cluster_name_mismatch =
    some "Cluster name mismatch: name '%s' provided in config conflicts with the instance one '%s'"
text_below_281 replicaset_name_mismatch =
    some
      "Replicaset name mismatch: name '%s' provided in config conflicts with the instance one '%s'"
text_below_281 instance_name_duplicate = some "Duplicate replica name %s, already occupied by %s"
text_below_281 instance_name_mismatch =
    some "Instance name mismatch: name '%s' provided in config conflicts with the instance one '%s'"
text_below_281 schema_needs_upgrade =
    some
      "Your schema version is %u.%u.%u while Tarantool %s requires a more recent schema version. Please, consider using box.schema.upgrade()."
text_below_281 schema_upgrade_in_progress = some "Schema upgrade is already in progress"
text_below_281 deprecated = some "%s is deprecated"
text_below_281 unconfigured = some "Please call box.cfg{} first"
text_below_281 create_default_func = some "Failed to create field default function '%s': %s"
text_below_281 default_func_failed = some "Error calling field default function '%s': %s"
text_below_281 invalid_dec = some "Invalid decimal: '%s'"
text_below_281 in_another_promote = some "box.ctl.promote() is already running"
text_below_281 shutdown = some "Server is shutting down"
text_below_281 field_value_out_of_range =
    some
      "The value of field %s exceeds the supported range for type '%s': expected [%s..%s], got %s"
text_below_281 _ = none
