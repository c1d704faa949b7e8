-- ===== src/Packets/Requests.antt =====
-- rw_packets.c: hello, features request, switch configuration, port description request, error.
use openflow_controller.Prelude.{
  ℕ, ◌+◌, ◌^◌, List, [], ◌∷◌, ◌++◌, Option, none, some, true, ◌==◌, if◌then◌else◌,
}
use openflow_controller.Memory.{peek_be}
use openflow_controller.Memory.Fields.{Field, store_fields}
use openflow_controller.Wire.Enums.{
  OfpType, OfpConfigFlags, ofp_version, ofp_type, ofp_config_flags, ofphet_versionbitmap,
  ofpmp_port_desc,
}
use openflow_controller.Wire.Layout.{
  sizeof, offset, ofp_header, ofp_hello, ofp_hello_elem_header, ofp_hello_elem_versionbitmap,
  ofp_switch_config, ofp_multipart_request,
}
use openflow_controller.Switch.{RwStatus, OfSwitch, u32}

-- The four assignments to the header that each builder makes.
abbrev pub header_fields : ℕ → ℕ → ℕ → List Field
header_fields type length xid =
    (offset ofp_header 0, 1, ofp_version)
    ∷ (offset ofp_header 1, 1, type)
    ∷ (offset ofp_header 2, 2, length)
    ∷ (offset ofp_header 3, 4, xid)
    ∷ []

abbrev hello_length : ℕ
hello_length = sizeof ofp_header + sizeof ofp_hello_elem_versionbitmap + 4

abbrev pub hello_fields : ℕ → List Field
hello_fields xid =
    header_fields (ofp_type OfpType.hello) hello_length xid
    ++ (sizeof ofp_hello + offset ofp_hello_elem_header 0, 2, ofphet_versionbitmap)
      ∷ (
        sizeof ofp_hello + offset ofp_hello_elem_header 1,
        2,
        sizeof ofp_hello_elem_versionbitmap + 4,
      )
      ∷ (sizeof ofp_hello + sizeof ofp_hello_elem_versionbitmap, 4, 2 ^ 4)
      ∷ []

unfoldable pub write_openflow_hello : OfSwitch → OfSwitch
write_openflow_hello s = record s {
  write_buffer = store_fields (hello_fields s.xid) 0 s.write_buffer;
  xid = u32 (s.xid + 1);
  rw = RwStatus.write;
  bytes_expected = sizeof ofp_hello + sizeof ofp_hello_elem_versionbitmap + 4;
}

-- The descriptor that `close` is called on: a switch that speaks another version is closed, and its
-- record is left as it is.
unfoldable pub read_openflow_hello : OfSwitch → Option ℕ
read_openflow_hello s =
    if peek_be 1 (offset ofp_header 0) s.read_buffer.byte == ofp_version
    then none
    else some s.socket_fd

abbrev pub features_fields : ℕ → List Field
features_fields xid = header_fields (ofp_type OfpType.features_request) (sizeof ofp_header) xid

unfoldable pub request_features : OfSwitch → OfSwitch
request_features s = record s {
  write_buffer = store_fields (features_fields s.xid) 0 s.write_buffer;
  xid = u32 (s.xid + 1);
  of_status = ofp_type OfpType.features_request;
  bytes_expected = sizeof ofp_header;
  rw = RwStatus.write;
}

-- The body is commented out in the source.
unfoldable pub read_features : OfSwitch → OfSwitch
read_features s = s

abbrev pub config_fields : ℕ → List Field
config_fields xid =
    header_fields (ofp_type OfpType.set_config) (sizeof ofp_switch_config) xid
    ++ (offset ofp_switch_config 1, 2, ofp_config_flags OfpConfigFlags.frag_normal)
      ∷ (offset ofp_switch_config 2, 2, 128)
      ∷ []

unfoldable pub set_config : OfSwitch → OfSwitch
set_config s = record s {
  write_buffer = store_fields (config_fields s.xid) 0 s.write_buffer;
  xid = u32 (s.xid + 1);
  of_status = ofp_type OfpType.set_config;
  bytes_expected = sizeof ofp_switch_config;
  rw = RwStatus.write;
}

-- No caller. What it prints is left out.
unfoldable read_config : OfSwitch → OfSwitch
read_config s = record s {
  bytes_expected = sizeof ofp_switch_config;
  rw = RwStatus.read;
  reading_header = true;
  bytes_read = 0;
}

abbrev pub port_info_fields : ℕ → List Field
port_info_fields xid =
    header_fields (ofp_type OfpType.multipart_request) (sizeof ofp_multipart_request) xid
    ++ (offset ofp_multipart_request 1, 2, ofpmp_port_desc)
      ∷ (offset ofp_multipart_request 2, 2, 0)
      ∷ []

unfoldable pub get_port_info : OfSwitch → OfSwitch
get_port_info s = record s {
  write_buffer = store_fields (port_info_fields s.xid) 0 s.write_buffer;
  xid = u32 (s.xid + 1);
  rw = RwStatus.write;
  of_status = ofp_type OfpType.multipart_request;
  bytes_expected = sizeof ofp_multipart_request;
}

abbrev error_fields : ℕ → List Field
error_fields xid = header_fields (ofp_type OfpType.error) (sizeof ofp_header) xid

unfoldable pub write_error : OfSwitch → OfSwitch
write_error s = record s {
  rw = RwStatus.write;
  bytes_expected = sizeof ofp_header;
  write_buffer = store_fields (error_fields s.xid) 0 s.write_buffer;
  xid = u32 (s.xid + 1);
}

-- No caller. What it prints is left out.
unfoldable read_error : OfSwitch → OfSwitch
read_error s = write_error s
