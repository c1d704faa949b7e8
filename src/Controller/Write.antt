-- ===== src/Controller/Write.antt =====
-- controller.c: `handle_write_socket`, which also drives the messages of a new connection.
pub mod Sends
pub mod Handshake
pub mod Kept
pub mod Sound
use openflow_controller.Prelude.{ℕ, List, [], Option, Bool, true, false, ◌==◌, if◌then◌else◌}
use openflow_controller.Memory.{Bytes, zero_fill}
use openflow_controller.Wire.Layout.{sizeof, ofp_header}
use openflow_controller.Switch.{OfSwitch, RwStatus}
use openflow_controller.Outcome.{Outcome, done, exited, ◌>>=◌}
use openflow_controller.Transfer.{Sent, write_to}
use openflow_controller.Packets.Requests.{request_features, set_config, get_port_info}
use openflow_controller.Packets.FlowMod.NewFlow.{Reason, write_flow_mod}

-- What comes once the pending message is out: the next message of the handshake, or reading.
unfoldable pub next_message : OfSwitch → Outcome OfSwitch
next_message s =
    if s.features_requested
    then (if s.config_set
        then (if s.ports_requested
            then (if s.default_flow_set
                then done (record s {
                  rw = RwStatus.read;
                  bytes_expected = sizeof ofp_header;
                  reading_header = true;
                  bytes_read = 0;
                  bytes_written = 0;
                })
                else rules (write_flow_mod s Reason.default_flow 0 0))
            else done (record (get_port_info s) { ports_requested = true }))
        else done (record (set_config s) { config_set = true }))
    else done (record (request_features s) { features_requested = true })
  where
    rules : Option OfSwitch → Outcome OfSwitch
    rules Option.none = exited
    rules (Option.some t) = done (record t { default_flow_set = true })

-- The write buffer is cleared behind a message that is out.
unfoldable pub message_sent : OfSwitch → Outcome OfSwitch
unfolding next_message
message_sent s =
    next_message
      (record s { bytes_written = 0; write_buffer = zero_fill s.write_buffer_size s.write_buffer })

-- The switch, and the bytes that went out.
pub handle_write_socket : Option Bytes → Sent → OfSwitch → Outcome (OfSwitch × List ℕ)
unfolding message_sent
handle_write_socket junk answer s =
    if s.bytes_expected == 0 then (message_sent s >>= λ t. done (t, [])) else do
      (s', out) ← write_to junk answer s
      if s'.bytes_expected == 0 then (message_sent s' >>= λ t. done (t, out)) else done (s', out)
