-- ===== src/Transfer.antt =====
-- rw_packets.c: the transfer of bytes between a socket and the buffers of a switch: `resize_buffer`,
-- `write_to`, `read_from`. What the kernel answers is an argument.
pub mod Chunks
pub mod Delivered
pub mod Kept
use openflow_controller.Prelude.{
  ℕ, zero, suc, ◌+◌, ◌-◌, ◌*◌, ◌^◌, List, [], ◌∷◌, Option, none, some, ◌==◌, if◌then◌else◌, length,
}
use openflow_controller.Memory.{Bytes, Buffer, touch, deliver, reallocate}
use openflow_controller.Switch.{OfSwitch, u16}
use openflow_controller.Outcome.{Outcome, done, exited, ◌>>=◌}

abbrev resize_read_buffer : ℕ
resize_read_buffer = 1

abbrev resize_write_buffer : ℕ
resize_write_buffer = 2

-- `junk` is what a successful `realloc` leaves behind the old bytes, `none` a failed one. The size is
-- doubled as a `uint16_t`.
unfoldable resize_buffer : Option Bytes → OfSwitch → ℕ → Outcome OfSwitch
resize_buffer none s buffer = exited
resize_buffer (some junk) s buffer =
    if buffer == resize_read_buffer
    then done (record s {
      read_buffer_size = u16 (s.read_buffer_size * 2);
      read_buffer = reallocate (u16 (s.read_buffer_size * 2)) junk s.read_buffer;
    })
    else if buffer == resize_write_buffer
    then done (record s {
      write_buffer_size = u16 (s.write_buffer_size * 2);
      write_buffer = reallocate (u16 (s.write_buffer_size * 2)) junk s.write_buffer;
    })
    else exited

-- The answer of `send` and of `recv`: a result of -1, or the bytes taken or delivered.
pub data Sent : Type 0 where
  sent : ℕ → Sent
  send_failed : Sent

pub data Received : Type 0 where
  received : List ℕ → Received
  recv_failed : Received

-- `n` bytes from offset `i` on.
unfoldable pub slice : ℕ → ℕ → Bytes → List ℕ
slice zero i m = []
slice (suc n) i m = m i ∷ slice n (i + 1) m

-- The counters after `bytes_sent`, which is -1 for a failed call; with the bytes that went out.
pub after_send : Sent → OfSwitch → OfSwitch × List ℕ
unfolding slice
after_send (sent n) s = (
  record s {
    write_buffer = touch s.bytes_written n s.write_buffer;
    bytes_written = u16 (s.bytes_written + n);
    bytes_expected = u16 (s.bytes_expected + 2 ^ 16 - n);
  },
  slice n s.bytes_written s.write_buffer.byte,
)
after_send send_failed s = (
  record s {
    bytes_written = u16 (s.bytes_written + 2 ^ 16 - 1);
    bytes_expected = u16 (s.bytes_expected + 1);
  },
  [],
)

pub write_to : Option Bytes → Sent → OfSwitch → Outcome (OfSwitch × List ℕ)
unfolding resize_buffer after_send
write_to junk answer s = do
  s' ←
      if s.write_buffer_size == s.bytes_written
      then resize_buffer junk s resize_write_buffer
      else done s
  done (after_send answer s')

unfoldable pub after_recv : Received → OfSwitch → OfSwitch
after_recv (received xs) s =
    let b = touch s.bytes_read (length xs) s.read_buffer in
    record s {
      read_buffer = record b { byte = deliver xs s.bytes_read b.byte };
      bytes_read = u16 (s.bytes_read + length xs);
      bytes_expected = u16 (s.bytes_expected + 2 ^ 16 - length xs);
    }
after_recv recv_failed s = record s {
  bytes_read = u16 (s.bytes_read + 2 ^ 16 - 1);
  bytes_expected = u16 (s.bytes_expected + 1);
}

unfoldable pub read_from : Option Bytes → Received → OfSwitch → Outcome OfSwitch
unfolding resize_buffer after_recv
read_from junk answer s = do
  s' ←
      if s.read_buffer_size == s.bytes_read then resize_buffer junk s resize_read_buffer else done s
  done (after_recv answer s')
