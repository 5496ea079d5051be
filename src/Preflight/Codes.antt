-- ===== src/Preflight/Codes.antt =====
-- The codes of the checks (api/v1alpha1/shared_types.go).
use maintenance_orchestrator.Prelude.{String}

abbrev pub code_node_not_found : String
code_node_not_found = "NODE_NOT_FOUND"

abbrev pub code_node_not_ready : String
code_node_not_ready = "NODE_NOT_READY"

abbrev pub code_already_cordoned : String
code_already_cordoned = "ALREADY_CORDONED"

abbrev pub code_control_plane : String
code_control_plane = "CONTROL_PLANE_PROTECTED"

abbrev pub code_reserved_label : String
code_reserved_label = "RESERVED_LABEL"

abbrev pub code_reserved_taint : String
code_reserved_taint = "RESERVED_TAINT"

abbrev pub code_pdb_blocks : String
code_pdb_blocks = "PDB_BLOCKS"

abbrev pub code_single_replica : String
code_single_replica = "SINGLE_REPLICA_WORKLOAD"

abbrev pub code_empty_dir : String
code_empty_dir = "EMPTYDIR_DATA_LOSS"

abbrev pub code_local_storage : String
code_local_storage = "LOCAL_STORAGE_RISK"

abbrev pub code_daemon_set_pods : String
code_daemon_set_pods = "DAEMONSET_PODS"

abbrev pub code_static_pod : String
code_static_pod = "STATIC_POD"

abbrev pub code_insufficient_cap : String
code_insufficient_cap = "INSUFFICIENT_CAPACITY"

abbrev pub code_too_many_unavailable : String
code_too_many_unavailable = "TOO_MANY_UNAVAILABLE"

abbrev pub code_window_closed : String
code_window_closed = "WINDOW_CLOSED"

abbrev pub code_mco_managed : String
code_mco_managed = "MCO_MANAGED"

abbrev pub code_machine_not_found : String
code_machine_not_found = "MACHINE_NOT_FOUND"

abbrev pub code_already_at_version : String
code_already_at_version = "ALREADY_AT_TARGET_VERSION"

abbrev pub code_replacement_denied : String
code_replacement_denied = "REPLACEMENT_NOT_ALLOWED"
