-- ===== src/Wire/Enums/Statistics.antt =====
-- The multipart messages of openflow.h, and the properties of tables and queues.
use openflow_controller.Prelude.{ℕ, ◌^◌}

pub data OfpMultipartType : Type 0 where
  desc flow aggregate table port_stats queue group group_desc group_features : OfpMultipartType
  meter meter_config meter_features table_features port_desc experimenter : OfpMultipartType

abbrev pub ofp_multipart_type : OfpMultipartType → ℕ
ofp_multipart_type OfpMultipartType.desc = 0
ofp_multipart_type OfpMultipartType.flow = 1
ofp_multipart_type OfpMultipartType.aggregate = 2
ofp_multipart_type OfpMultipartType.table = 3
ofp_multipart_type OfpMultipartType.port_stats = 4
ofp_multipart_type OfpMultipartType.queue = 5
ofp_multipart_type OfpMultipartType.group = 6
ofp_multipart_type OfpMultipartType.group_desc = 7
ofp_multipart_type OfpMultipartType.group_features = 8
ofp_multipart_type OfpMultipartType.meter = 9
ofp_multipart_type OfpMultipartType.meter_config = 10
ofp_multipart_type OfpMultipartType.meter_features = 11
ofp_multipart_type OfpMultipartType.table_features = 12
ofp_multipart_type OfpMultipartType.port_desc = 13
ofp_multipart_type OfpMultipartType.experimenter = 0xffff

pub data OfpMultipartRequestFlags : Type 0 where
  req_more : OfpMultipartRequestFlags

abbrev ofp_multipart_request_flags : OfpMultipartRequestFlags → ℕ
ofp_multipart_request_flags OfpMultipartRequestFlags.req_more = 2 ^ 0

pub data OfpMultipartReplyFlags : Type 0 where
  reply_more : OfpMultipartReplyFlags

abbrev ofp_multipart_reply_flags : OfpMultipartReplyFlags → ℕ
ofp_multipart_reply_flags OfpMultipartReplyFlags.reply_more = 2 ^ 0

-- `DESC_STR_LEN`
abbrev desc_str_len : ℕ
desc_str_len = 256

-- `SERIAL_NUM_LEN`
abbrev serial_num_len : ℕ
serial_num_len = 32

pub data OfpTableFeaturePropType : Type 0 where
  instructions instructions_miss next_tables next_tables_miss write_actions :
      OfpTableFeaturePropType
  write_actions_miss apply_actions apply_actions_miss match wildcards : OfpTableFeaturePropType
  write_setfield write_setfield_miss apply_setfield apply_setfield_miss : OfpTableFeaturePropType
  experimenter experimenter_miss : OfpTableFeaturePropType

abbrev ofp_table_feature_prop_type : OfpTableFeaturePropType → ℕ
ofp_table_feature_prop_type OfpTableFeaturePropType.instructions = 0
ofp_table_feature_prop_type OfpTableFeaturePropType.instructions_miss = 1
ofp_table_feature_prop_type OfpTableFeaturePropType.next_tables = 2
ofp_table_feature_prop_type OfpTableFeaturePropType.next_tables_miss = 3
ofp_table_feature_prop_type OfpTableFeaturePropType.write_actions = 4
ofp_table_feature_prop_type OfpTableFeaturePropType.write_actions_miss = 5
ofp_table_feature_prop_type OfpTableFeaturePropType.apply_actions = 6
ofp_table_feature_prop_type OfpTableFeaturePropType.apply_actions_miss = 7
ofp_table_feature_prop_type OfpTableFeaturePropType.match = 8
ofp_table_feature_prop_type OfpTableFeaturePropType.wildcards = 10
ofp_table_feature_prop_type OfpTableFeaturePropType.write_setfield = 12
ofp_table_feature_prop_type OfpTableFeaturePropType.write_setfield_miss = 13
ofp_table_feature_prop_type OfpTableFeaturePropType.apply_setfield = 14
ofp_table_feature_prop_type OfpTableFeaturePropType.apply_setfield_miss = 15
ofp_table_feature_prop_type OfpTableFeaturePropType.experimenter = 0xfffe
ofp_table_feature_prop_type OfpTableFeaturePropType.experimenter_miss = 0xffff

-- `OFPQ_ALL`
abbrev ofpq_all : ℕ
ofpq_all = 0xffffffff

-- `OFPQ_MIN_RATE_UNCFG`
abbrev ofpq_min_rate_uncfg : ℕ
ofpq_min_rate_uncfg = 0xffff

-- `OFPQ_MAX_RATE_UNCFG`
abbrev ofpq_max_rate_uncfg : ℕ
ofpq_max_rate_uncfg = 0xffff

pub data OfpQueueProperties : Type 0 where
  min_rate max_rate experimenter : OfpQueueProperties

abbrev ofp_queue_properties : OfpQueueProperties → ℕ
ofp_queue_properties OfpQueueProperties.min_rate = 1
ofp_queue_properties OfpQueueProperties.max_rate = 2
ofp_queue_properties OfpQueueProperties.experimenter = 0xffff
