-- ===== src/Packets/PortMod.antt =====
-- rw_packets.c: the port modification that blocks or opens a port.
use openflow_controller.Prelude.{ℕ, ◌+◌, ◌*◌, bit_or, Bool, List, [], ◌∷◌, ◌++◌, if◌then◌else◌}
use openflow_controller.Memory.Fields.{Field, store_fields}
use openflow_controller.Wire.Enums.{OfpType, OfpPortConfig, ofp_type, ofp_port_config, ofp_eth_alen}
use openflow_controller.Wire.Layout.{sizeof, offset, ofp_port, ofp_port_mod}
use openflow_controller.Switch.{RwStatus, OfSwitch, u32}
use openflow_controller.Packets.Requests.{header_fields}
use openflow_controller.Packets.Echo.{copy_bytes}

-- `OFPPC_NO_FWD | OFPPC_NO_RECV`
abbrev blocked : ℕ
blocked = bit_or (ofp_port_config OfpPortConfig.no_fwd) (ofp_port_config OfpPortConfig.no_recv)

abbrev pub port_mod_header : ℕ → ℕ → List Field
port_mod_header xid port =
    header_fields (ofp_type OfpType.port_mod) (sizeof ofp_port_mod) xid
    ++ (offset ofp_port_mod 1, 4, port) ∷ []

abbrev pub port_mod_config : Bool → List Field
port_mod_config enable =
    (offset ofp_port_mod 5, 4, if enable then 0 else blocked)
    ∷ (offset ofp_port_mod 6, 4, blocked)
    ∷ []

-- The hardware address comes from `connected_ports[port]`, which has 50 entries.
unfoldable pub change_port_behavior : OfSwitch → ℕ → Bool → OfSwitch
unfolding copy_bytes
change_port_behavior s port enable =
    let (ports, buffer) =
      copy_bytes ofp_eth_alen (sizeof ofp_port * port + offset ofp_port 2) s.connected_ports
        (offset ofp_port_mod 3) (store_fields (port_mod_header s.xid port) 0 s.write_buffer) in
    record s {
      connected_ports = ports;
      write_buffer = store_fields (port_mod_config enable) 0 buffer;
      xid = u32 (s.xid + 1);
      rw = RwStatus.write;
      of_status = ofp_type OfpType.port_mod;
      bytes_expected = sizeof ofp_port_mod;
    }
