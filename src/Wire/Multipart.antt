-- ===== src/Wire/Multipart.antt =====
-- openflow.h: the structures of the bodies of the multipart messages.
use openflow_controller.Prelude.{[], ◌∷◌}
use openflow_controller.Wire.Layout.{
  uint8, uint16, uint32, uint64, array, Struct, struct_type, ofp_action_header, ofp_match,
}
use openflow_controller.Wire.Actions.{ofp_bucket, ofp_instruction}
use openflow_controller.Wire.Messages.{ofp_meter_band_header}

-- mfr_desc, hw_desc, sw_desc, serial_num, dp_desc
abbrev pub ofp_desc : Struct
ofp_desc =
    array uint8 256 ∷ array uint8 256 ∷ array uint8 256 ∷ array uint8 32 ∷ array uint8 256 ∷ []

-- table_id, pad, out_port, out_group, pad2, cookie, cookie_mask, match
abbrev pub ofp_flow_stats_request : Struct
ofp_flow_stats_request =
    uint8
    ∷ array uint8 3
    ∷ uint32
    ∷ uint32
    ∷ array uint8 4
    ∷ uint64
    ∷ uint64
    ∷ struct_type ofp_match
    ∷ []

-- length, table_id, pad, duration_sec, duration_nsec, priority, idle_timeout, hard_timeout,
-- flags, pad2, cookie, packet_count, byte_count, match
abbrev pub ofp_flow_stats : Struct
ofp_flow_stats =
    uint16
    ∷ uint8
    ∷ uint8
    ∷ uint32
    ∷ uint32
    ∷ uint16
    ∷ uint16
    ∷ uint16
    ∷ uint16
    ∷ array uint8 4
    ∷ uint64
    ∷ uint64
    ∷ uint64
    ∷ struct_type ofp_match
    ∷ []

-- table_id, pad, out_port, out_group, pad2, cookie, cookie_mask, match
abbrev pub ofp_aggregate_stats_request : Struct
ofp_aggregate_stats_request =
    uint8
    ∷ array uint8 3
    ∷ uint32
    ∷ uint32
    ∷ array uint8 4
    ∷ uint64
    ∷ uint64
    ∷ struct_type ofp_match
    ∷ []

-- packet_count, byte_count, flow_count, pad
abbrev pub ofp_aggregate_stats_reply : Struct
ofp_aggregate_stats_reply = uint64 ∷ uint64 ∷ uint32 ∷ array uint8 4 ∷ []

-- type, length
abbrev pub ofp_table_feature_prop_header : Struct
ofp_table_feature_prop_header = uint16 ∷ uint16 ∷ []

-- type, length, instruction_ids
abbrev pub ofp_table_feature_prop_instructions : Struct
ofp_table_feature_prop_instructions = uint16 ∷ uint16 ∷ array (struct_type ofp_instruction) 0 ∷ []

-- type, length, next_table_ids
abbrev pub ofp_table_feature_prop_next_tables : Struct
ofp_table_feature_prop_next_tables = uint16 ∷ uint16 ∷ array uint8 0 ∷ []

-- type, length, action_ids
abbrev pub ofp_table_feature_prop_actions : Struct
ofp_table_feature_prop_actions = uint16 ∷ uint16 ∷ array (struct_type ofp_action_header) 0 ∷ []

-- type, length, oxm_ids
abbrev pub ofp_table_feature_prop_oxm : Struct
ofp_table_feature_prop_oxm = uint16 ∷ uint16 ∷ array uint32 0 ∷ []

-- type, length, experimenter, exp_type, experimenter_data
abbrev pub ofp_table_feature_prop_experimenter : Struct
ofp_table_feature_prop_experimenter = uint16 ∷ uint16 ∷ uint32 ∷ uint32 ∷ array uint32 0 ∷ []

-- length, table_id, pad, name, metadata_match, metadata_write, config, max_entries, properties
abbrev pub ofp_table_features : Struct
ofp_table_features =
    uint16
    ∷ uint8
    ∷ array uint8 5
    ∷ array uint8 32
    ∷ uint64
    ∷ uint64
    ∷ uint32
    ∷ uint32
    ∷ array (struct_type ofp_table_feature_prop_header) 0
    ∷ []

-- table_id, pad, active_count, lookup_count, matched_count
abbrev pub ofp_table_stats : Struct
ofp_table_stats = uint8 ∷ array uint8 3 ∷ uint32 ∷ uint64 ∷ uint64 ∷ []

-- port_no, pad
abbrev pub ofp_port_stats_request : Struct
ofp_port_stats_request = uint32 ∷ array uint8 4 ∷ []

-- port_no, pad, rx_packets, tx_packets, rx_bytes, tx_bytes, rx_dropped, tx_dropped, rx_errors,
-- tx_errors, rx_frame_err, rx_over_err, rx_crc_err, collisions, duration_sec, duration_nsec
abbrev pub ofp_port_stats : Struct
ofp_port_stats =
    uint32
    ∷ array uint8 4
    ∷ uint64
    ∷ uint64
    ∷ uint64
    ∷ uint64
    ∷ uint64
    ∷ uint64
    ∷ uint64
    ∷ uint64
    ∷ uint64
    ∷ uint64
    ∷ uint64
    ∷ uint64
    ∷ uint32
    ∷ uint32
    ∷ []

-- group_id, pad
abbrev pub ofp_group_stats_request : Struct
ofp_group_stats_request = uint32 ∷ array uint8 4 ∷ []

-- packet_count, byte_count
abbrev pub ofp_bucket_counter : Struct
ofp_bucket_counter = uint64 ∷ uint64 ∷ []

-- length, pad, group_id, ref_count, pad2, packet_count, byte_count, duration_sec,
-- duration_nsec, bucket_stats
abbrev pub ofp_group_stats : Struct
ofp_group_stats =
    uint16
    ∷ array uint8 2
    ∷ uint32
    ∷ uint32
    ∷ array uint8 4
    ∷ uint64
    ∷ uint64
    ∷ uint32
    ∷ uint32
    ∷ array (struct_type ofp_bucket_counter) 0
    ∷ []

-- length, type, pad, group_id, buckets
abbrev pub ofp_group_desc : Struct
ofp_group_desc = uint16 ∷ uint8 ∷ uint8 ∷ uint32 ∷ array (struct_type ofp_bucket) 0 ∷ []

-- types, capabilities, max_groups, actions
abbrev pub ofp_group_features : Struct
ofp_group_features = uint32 ∷ uint32 ∷ array uint32 4 ∷ array uint32 4 ∷ []

-- meter_id, pad
abbrev pub ofp_meter_multipart_request : Struct
ofp_meter_multipart_request = uint32 ∷ array uint8 4 ∷ []

-- packet_band_count, byte_band_count
abbrev pub ofp_meter_band_stats : Struct
ofp_meter_band_stats = uint64 ∷ uint64 ∷ []

-- meter_id, len, pad, flow_count, packet_in_count, byte_in_count, duration_sec, duration_nsec,
-- band_stats
abbrev pub ofp_meter_stats : Struct
ofp_meter_stats =
    uint32
    ∷ uint16
    ∷ array uint8 6
    ∷ uint32
    ∷ uint64
    ∷ uint64
    ∷ uint32
    ∷ uint32
    ∷ array (struct_type ofp_meter_band_stats) 0
    ∷ []

-- length, flags, meter_id, bands
abbrev pub ofp_meter_config : Struct
ofp_meter_config = uint16 ∷ uint16 ∷ uint32 ∷ array (struct_type ofp_meter_band_header) 0 ∷ []

-- max_meter, band_types, capabilities, max_bands, max_color, pad
abbrev pub ofp_meter_features : Struct
ofp_meter_features = uint32 ∷ uint32 ∷ uint32 ∷ uint8 ∷ uint8 ∷ array uint8 2 ∷ []
