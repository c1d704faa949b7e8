-- ===== src/Switch.antt =====
-- The state of one connection: `struct of_switch` and `enum rw_status` of controller.h. Counters keep
-- their width by an explicit remainder where the code computes with them.
use openflow_controller.Prelude.{ℕ, ◌%◌, ◌^◌, Bool}
use openflow_controller.Memory.{Buffer}

pub data RwStatus : Type 0 where
  read write disconnected : RwStatus

pub record OfSwitch : Type 0 where
  pub rw : RwStatus
  pub of_status : ℕ
  pub reading_header : Bool
  pub xid : ℕ  -- uint32_t
  pub socket_fd : ℕ  -- uint16_t
  pub bytes_read : ℕ  -- uint16_t
  pub bytes_written : ℕ  -- uint16_t
  pub bytes_expected : ℕ  -- uint16_t
  pub read_buffer : Buffer
  pub write_buffer : Buffer
  pub write_buffer_size : ℕ  -- uint16_t
  pub read_buffer_size : ℕ  -- uint16_t
  pub config_set : Bool
  pub ports_requested : Bool
  pub features_requested : Bool
  pub default_flow_set : Bool
  pub timeout : ℕ  -- uint8_t
  -- an array of 50 `struct ofp_port` and one of 50 hardware addresses, as bytes
  pub connected_ports : Buffer
  pub connected_hosts : Buffer

abbrev pub u8 : ℕ → ℕ
u8 n = n % 2 ^ 8

abbrev pub u16 : ℕ → ℕ
u16 n = n % 2 ^ 16

abbrev pub u32 : ℕ → ℕ
u32 n = n % 2 ^ 32

abbrev pub u64 : ℕ → ℕ
u64 n = n % 2 ^ 64
