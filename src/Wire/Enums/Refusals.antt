-- ===== src/Wire/Enums/Refusals.antt =====
-- The error messages of openflow.h about a change of the state of a switch.
use openflow_controller.Prelude.{ℕ}

pub data OfpFlowModFailedCode : Type 0 where
  unknown table_full bad_table_id overlap eperm bad_timeout bad_command : OfpFlowModFailedCode
  bad_flags : OfpFlowModFailedCode

abbrev ofp_flow_mod_failed_code : OfpFlowModFailedCode → ℕ
ofp_flow_mod_failed_code OfpFlowModFailedCode.unknown = 0
ofp_flow_mod_failed_code OfpFlowModFailedCode.table_full = 1
ofp_flow_mod_failed_code OfpFlowModFailedCode.bad_table_id = 2
ofp_flow_mod_failed_code OfpFlowModFailedCode.overlap = 3
ofp_flow_mod_failed_code OfpFlowModFailedCode.eperm = 4
ofp_flow_mod_failed_code OfpFlowModFailedCode.bad_timeout = 5
ofp_flow_mod_failed_code OfpFlowModFailedCode.bad_command = 6
ofp_flow_mod_failed_code OfpFlowModFailedCode.bad_flags = 7

pub data OfpGroupModFailedCode : Type 0 where
  group_exists invalid_group weight_unsupported out_of_groups out_of_buckets : OfpGroupModFailedCode
  chaining_unsupported watch_unsupported loop unknown_group chained_group : OfpGroupModFailedCode
  bad_type bad_command bad_bucket bad_watch eperm : OfpGroupModFailedCode

abbrev ofp_group_mod_failed_code : OfpGroupModFailedCode → ℕ
ofp_group_mod_failed_code OfpGroupModFailedCode.group_exists = 0
ofp_group_mod_failed_code OfpGroupModFailedCode.invalid_group = 1
ofp_group_mod_failed_code OfpGroupModFailedCode.weight_unsupported = 2
ofp_group_mod_failed_code OfpGroupModFailedCode.out_of_groups = 3
ofp_group_mod_failed_code OfpGroupModFailedCode.out_of_buckets = 4
ofp_group_mod_failed_code OfpGroupModFailedCode.chaining_unsupported = 5
ofp_group_mod_failed_code OfpGroupModFailedCode.watch_unsupported = 6
ofp_group_mod_failed_code OfpGroupModFailedCode.loop = 7
ofp_group_mod_failed_code OfpGroupModFailedCode.unknown_group = 8
ofp_group_mod_failed_code OfpGroupModFailedCode.chained_group = 9
ofp_group_mod_failed_code OfpGroupModFailedCode.bad_type = 10
ofp_group_mod_failed_code OfpGroupModFailedCode.bad_command = 11
ofp_group_mod_failed_code OfpGroupModFailedCode.bad_bucket = 12
ofp_group_mod_failed_code OfpGroupModFailedCode.bad_watch = 13
ofp_group_mod_failed_code OfpGroupModFailedCode.eperm = 14

pub data OfpPortModFailedCode : Type 0 where
  bad_port bad_hw_addr bad_config bad_advertise eperm : OfpPortModFailedCode

abbrev ofp_port_mod_failed_code : OfpPortModFailedCode → ℕ
ofp_port_mod_failed_code OfpPortModFailedCode.bad_port = 0
ofp_port_mod_failed_code OfpPortModFailedCode.bad_hw_addr = 1
ofp_port_mod_failed_code OfpPortModFailedCode.bad_config = 2
ofp_port_mod_failed_code OfpPortModFailedCode.bad_advertise = 3
ofp_port_mod_failed_code OfpPortModFailedCode.eperm = 4

pub data OfpTableModFailedCode : Type 0 where
  bad_table bad_config eperm : OfpTableModFailedCode

abbrev ofp_table_mod_failed_code : OfpTableModFailedCode → ℕ
ofp_table_mod_failed_code OfpTableModFailedCode.bad_table = 0
ofp_table_mod_failed_code OfpTableModFailedCode.bad_config = 1
ofp_table_mod_failed_code OfpTableModFailedCode.eperm = 2

pub data OfpQueueOpFailedCode : Type 0 where
  bad_port bad_queue eperm : OfpQueueOpFailedCode

abbrev ofp_queue_op_failed_code : OfpQueueOpFailedCode → ℕ
ofp_queue_op_failed_code OfpQueueOpFailedCode.bad_port = 0
ofp_queue_op_failed_code OfpQueueOpFailedCode.bad_queue = 1
ofp_queue_op_failed_code OfpQueueOpFailedCode.eperm = 2

pub data OfpSwitchConfigFailedCode : Type 0 where
  bad_flags bad_len eperm : OfpSwitchConfigFailedCode

abbrev ofp_switch_config_failed_code : OfpSwitchConfigFailedCode → ℕ
ofp_switch_config_failed_code OfpSwitchConfigFailedCode.bad_flags = 0
ofp_switch_config_failed_code OfpSwitchConfigFailedCode.bad_len = 1
ofp_switch_config_failed_code OfpSwitchConfigFailedCode.eperm = 2

pub data OfpRoleRequestFailedCode : Type 0 where
  stale unsup bad_role : OfpRoleRequestFailedCode

abbrev ofp_role_request_failed_code : OfpRoleRequestFailedCode → ℕ
ofp_role_request_failed_code OfpRoleRequestFailedCode.stale = 0
ofp_role_request_failed_code OfpRoleRequestFailedCode.unsup = 1
ofp_role_request_failed_code OfpRoleRequestFailedCode.bad_role = 2

pub data OfpMeterModFailedCode : Type 0 where
  unknown meter_exists invalid_meter unknown_meter bad_command bad_flags : OfpMeterModFailedCode
  bad_rate bad_burst bad_band bad_band_value out_of_meters out_of_bands : OfpMeterModFailedCode

abbrev ofp_meter_mod_failed_code : OfpMeterModFailedCode → ℕ
ofp_meter_mod_failed_code OfpMeterModFailedCode.unknown = 0
ofp_meter_mod_failed_code OfpMeterModFailedCode.meter_exists = 1
ofp_meter_mod_failed_code OfpMeterModFailedCode.invalid_meter = 2
ofp_meter_mod_failed_code OfpMeterModFailedCode.unknown_meter = 3
ofp_meter_mod_failed_code OfpMeterModFailedCode.bad_command = 4
ofp_meter_mod_failed_code OfpMeterModFailedCode.bad_flags = 5
ofp_meter_mod_failed_code OfpMeterModFailedCode.bad_rate = 6
ofp_meter_mod_failed_code OfpMeterModFailedCode.bad_burst = 7
ofp_meter_mod_failed_code OfpMeterModFailedCode.bad_band = 8
ofp_meter_mod_failed_code OfpMeterModFailedCode.bad_band_value = 9
ofp_meter_mod_failed_code OfpMeterModFailedCode.out_of_meters = 10
ofp_meter_mod_failed_code OfpMeterModFailedCode.out_of_bands = 11

pub data OfpTableFeaturesFailedCode : Type 0 where
  bad_table bad_metadata bad_type bad_len bad_argument eperm : OfpTableFeaturesFailedCode

abbrev ofp_table_features_failed_code : OfpTableFeaturesFailedCode → ℕ
ofp_table_features_failed_code OfpTableFeaturesFailedCode.bad_table = 0
ofp_table_features_failed_code OfpTableFeaturesFailedCode.bad_metadata = 1
ofp_table_features_failed_code OfpTableFeaturesFailedCode.bad_type = 2
ofp_table_features_failed_code OfpTableFeaturesFailedCode.bad_len = 3
ofp_table_features_failed_code OfpTableFeaturesFailedCode.bad_argument = 4
ofp_table_features_failed_code OfpTableFeaturesFailedCode.eperm = 5
