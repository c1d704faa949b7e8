-- ===== src/Wire/Messages.antt =====
-- openflow.h: the structures of the other messages: flow removal, meters, errors, roles, queues.
use openflow_controller.Prelude.{[], ◌∷◌}
use openflow_controller.Wire.Layout.{
  uint8, uint16, uint32, uint64, array, Struct, struct_type, ofp_header, ofp_match,
}

-- header, cookie, priority, reason, table_id, duration_sec, duration_nsec, idle_timeout,
-- hard_timeout, packet_count, byte_count, match
abbrev pub ofp_flow_removed : Struct
ofp_flow_removed =
    struct_type ofp_header
    ∷ uint64
    ∷ uint16
    ∷ uint8
    ∷ uint8
    ∷ uint32
    ∷ uint32
    ∷ uint16
    ∷ uint16
    ∷ uint64
    ∷ uint64
    ∷ struct_type ofp_match
    ∷ []

-- type, len, rate, burst_size
abbrev pub ofp_meter_band_header : Struct
ofp_meter_band_header = uint16 ∷ uint16 ∷ uint32 ∷ uint32 ∷ []

-- type, len, rate, burst_size, pad
abbrev pub ofp_meter_band_drop : Struct
ofp_meter_band_drop = uint16 ∷ uint16 ∷ uint32 ∷ uint32 ∷ array uint8 4 ∷ []

-- type, len, rate, burst_size, prec_level, pad
abbrev pub ofp_meter_band_dscp_remark : Struct
ofp_meter_band_dscp_remark = uint16 ∷ uint16 ∷ uint32 ∷ uint32 ∷ uint8 ∷ array uint8 3 ∷ []

-- type, len, rate, burst_size, experimenter
abbrev pub ofp_meter_band_experimenter : Struct
ofp_meter_band_experimenter = uint16 ∷ uint16 ∷ uint32 ∷ uint32 ∷ uint32 ∷ []

-- header, command, flags, meter_id, bands
abbrev pub ofp_meter_mod : Struct
ofp_meter_mod =
    struct_type ofp_header
    ∷ uint16
    ∷ uint16
    ∷ uint32
    ∷ array (struct_type ofp_meter_band_header) 0
    ∷ []

-- header, type, code, data
abbrev pub ofp_error_msg : Struct
ofp_error_msg = struct_type ofp_header ∷ uint16 ∷ uint16 ∷ array uint8 0 ∷ []

-- header, type, exp_type, experimenter, data
abbrev pub ofp_error_experimenter_msg : Struct
ofp_error_experimenter_msg = struct_type ofp_header ∷ uint16 ∷ uint16 ∷ uint32 ∷ array uint8 0 ∷ []

-- experimenter, exp_type
abbrev pub ofp_experimenter_multipart_header : Struct
ofp_experimenter_multipart_header = uint32 ∷ uint32 ∷ []

-- header, experimenter, exp_type
abbrev pub ofp_experimenter_header : Struct
ofp_experimenter_header = struct_type ofp_header ∷ uint32 ∷ uint32 ∷ []

-- property, len, pad
abbrev pub ofp_queue_prop_header : Struct
ofp_queue_prop_header = uint16 ∷ uint16 ∷ array uint8 4 ∷ []

-- prop_header, rate, pad
abbrev pub ofp_queue_prop_min_rate : Struct
ofp_queue_prop_min_rate = struct_type ofp_queue_prop_header ∷ uint16 ∷ array uint8 6 ∷ []

-- prop_header, rate, pad
abbrev pub ofp_queue_prop_max_rate : Struct
ofp_queue_prop_max_rate = struct_type ofp_queue_prop_header ∷ uint16 ∷ array uint8 6 ∷ []

-- prop_header, experimenter, pad, data
abbrev pub ofp_queue_prop_experimenter : Struct
ofp_queue_prop_experimenter =
    struct_type ofp_queue_prop_header ∷ uint32 ∷ array uint8 4 ∷ array uint8 0 ∷ []

-- queue_id, port, len, pad, properties
abbrev pub ofp_packet_queue : Struct
ofp_packet_queue =
    uint32 ∷ uint32 ∷ uint16 ∷ array uint8 6 ∷ array (struct_type ofp_queue_prop_header) 0 ∷ []

-- header, port, pad
abbrev pub ofp_queue_get_config_request : Struct
ofp_queue_get_config_request = struct_type ofp_header ∷ uint32 ∷ array uint8 4 ∷ []

-- header, port, pad, queues
abbrev pub ofp_queue_get_config_reply : Struct
ofp_queue_get_config_reply =
    struct_type ofp_header ∷ uint32 ∷ array uint8 4 ∷ array (struct_type ofp_packet_queue) 0 ∷ []

-- port_no, queue_id
abbrev pub ofp_queue_stats_request : Struct
ofp_queue_stats_request = uint32 ∷ uint32 ∷ []

-- port_no, queue_id, tx_bytes, tx_packets, tx_errors, duration_sec, duration_nsec
abbrev pub ofp_queue_stats : Struct
ofp_queue_stats = uint32 ∷ uint32 ∷ uint64 ∷ uint64 ∷ uint64 ∷ uint32 ∷ uint32 ∷ []

-- header, role, pad, generation_id
abbrev pub ofp_role_request : Struct
ofp_role_request = struct_type ofp_header ∷ uint32 ∷ array uint8 4 ∷ uint64 ∷ []

-- header, packet_in_mask, port_status_mask, flow_removed_mask
abbrev pub ofp_async_config : Struct
ofp_async_config = struct_type ofp_header ∷ array uint32 2 ∷ array uint32 2 ∷ array uint32 2 ∷ []
