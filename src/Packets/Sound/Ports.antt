-- ===== src/Packets/Sound/Ports.antt =====
-- rw_packets.c: the buffers of a switch when a multipart reply is read.
use openflow_controller.Prelude.{
  ℕ, zero, suc, ◌+◌, ◌*◌, ◌<◌, ◌≤◌, ◌≡◌, ◌⊎◌, inl, inr, refl, sym, subst, false, arith, ◌==◌,
  Bool-cases, ==→eq,
}
use openflow_controller.Memory.{Bytes, Buffer, peek_be, touch}
use openflow_controller.Memory.Safe.{IsSafe, touch-IsSafe}
use openflow_controller.Switch.{OfSwitch}
use openflow_controller.Packets.Echo.{copy_bytes, received_length}
use openflow_controller.Packets.Ports.{
  save_port, save_ports, save_connected_ports, handle_multipart_reply, port_count, read_port_stats,
  print_port_stats, stats_count,
}
use openflow_controller.Packets.Sound.{IsSound, copy_bytes-IsSafe}

-- The port that the description at offset `at` is about.
abbrev described : ℕ → Bytes → ℕ
described at m = peek_be 4 (at + 0) m

-- `n` descriptions from offset `at` on are about the local port or one that the table has an entry for.
abbrev pub AreListed : Bytes → ℕ → ℕ → Type 0
AreListed m n at =
    (j : ℕ) → j < n → (described (at + 64 * j) m ≡ 0xfffffffe) ⊎ (described (at + 64 * j) m < 50)

save_port-IsSound :
    (at : ℕ) (s : OfSwitch)
    → at + 64 ≤ 1500
    → (described at s.read_buffer.byte ≡ 0xfffffffe) ⊎ (described at s.read_buffer.byte < 50)
    → IsSound s
    → IsSound (save_port at s) × ((save_port at s).read_buffer.byte ≡ s.read_buffer.byte)
unfolding save_port copy_bytes touch
save_port-IsSound at s room listed p =
    elim (Bool-cases (described at s.read_buffer.byte == 0xfffffffe)) [
      | inl local ↦ rw local (
        record {
          read_safe = touch-IsSafe p.read_safe at 4 (omega (arith, room));
          write_safe = p.write_safe;
          ports_safe = p.ports_safe;
          read_size = p.read_size;
          write_size = p.write_size;
          in_flight = p.in_flight;
          at_rest = p.at_rest;
          awaited = p.awaited;
        },
        refl,
      )
      | inr other ↦ rw other (
        (let (reply, ports) =
              copy_bytes-IsSafe 64 at (64 * described at s.read_buffer.byte)
                (touch-IsSafe p.read_safe at 4 (omega (arith, room))) p.ports_safe room
                (inside listed other) in
            record {
              read_safe = reply;
              write_safe = p.write_safe;
              ports_safe = ports;
              read_size = p.read_size;
              write_size = p.write_size;
              in_flight = p.in_flight;
              at_rest = p.at_rest;
              awaited = p.awaited;
            }),
        refl,
      )
    ]
  where
    inside :
        (described at s.read_buffer.byte ≡ 0xfffffffe) ⊎ (described at s.read_buffer.byte < 50)
        → (described at s.read_buffer.byte == 0xfffffffe) ≡ false
        → 64 * described at s.read_buffer.byte + 64 ≤ 3200
    inside (inl local) other = absurd cc
    inside (inr low) other = omega (arith, low)

save_ports-IsSound :
    (n at : ℕ) (s : OfSwitch)
    → at + 64 * n ≤ 1500
    → AreListed s.read_buffer.byte n at
    → IsSound s
    → IsSound (save_ports n at s)
unfolding save_ports
save_ports-IsSound zero at s room listed p = p
save_ports-IsSound (suc n) at s room listed p =
    let m = s.read_buffer.byte in
    let first : (described at m ≡ 0xfffffffe) ⊎ (described at m < 50) =
      subst (λ k. (described k m ≡ 0xfffffffe) ⊎ (described k m < 50)) (omega arith)
        (listed 0 (omega arith)) in
    let (one, same) = save_port-IsSound at s (omega (arith, room)) first p in
    save_ports-IsSound n (at + 64) (save_port at s) (omega (arith, room))
      (λ j low.
        subst
          (λ b.
            (described (at + 64 + 64 * j) b ≡ 0xfffffffe) ⊎ (described (at + 64 + 64 * j) b < 50))
          (sym same)
          (subst (λ k. (described k m ≡ 0xfffffffe) ⊎ (described k m < 50)) (omega arith)
            (listed (suc j) (omega (arith, low)))))
      one

port_count_room : (length : ℕ) → 16 ≤ length → length ≤ 1500 → 16 + 64 * port_count length ≤ 1500
unfolding port_count
port_count_room length low high = ground (arith, low, high)

pub read_port_stats-IsSafe :
    (n at : ℕ) (b : Buffer)
    → at + 112 * n ≤ 1500
    → IsSafe 1500 b
    → IsSafe 1500 (read_port_stats n at b)
unfolding read_port_stats
read_port_stats-IsSafe zero at b room p = p
read_port_stats-IsSafe (suc n) at b room p =
    read_port_stats-IsSafe n (at + 112) (touch at 108 b) (omega (arith, room))
      (touch-IsSafe p at 108 (omega (arith, room)))

pub stats_count_room :
    (length : ℕ) → 16 ≤ length → length ≤ 1500 → 16 + 112 * stats_count length ≤ 1500
unfolding stats_count
stats_count_room length low high = omega (arith, low, high)

stats-IsSound :
    (s : OfSwitch)
    → 16 ≤ received_length s
    → received_length s ≤ 1500
    → IsSound s
    → IsSound (print_port_stats s)
unfolding print_port_stats
stats-IsSound s low high p = record {
  read_safe =
      read_port_stats-IsSafe (stats_count (received_length s)) 16 s.read_buffer
        (stats_count_room (received_length s) low high) p.read_safe;
  write_safe = p.write_safe;
  ports_safe = p.ports_safe;
  read_size = p.read_size;
  write_size = p.write_size;
  in_flight = p.in_flight;
  at_rest = p.at_rest;
  awaited = p.awaited;
}

-- A port description reply of 16 to 1500 bytes, about ports that the table has entries for, and a reply of port statistics
-- of 16 to 1500 bytes are read inside the buffers; so is any other multipart reply.
pub handle_multipart_reply-IsSound :
    (s : OfSwitch)
    → (peek_be 2 8 s.read_buffer.byte ≡ 4 → (16 ≤ received_length s) × (received_length s ≤ 1500))
    → (peek_be 2 8 s.read_buffer.byte ≡ 13
        → (16 ≤ received_length s)
          × (received_length s ≤ 1500)
          × AreListed s.read_buffer.byte (port_count (received_length s)) 16)
    → IsSound s
    → IsSound (handle_multipart_reply s)
unfolding handle_multipart_reply save_connected_ports
handle_multipart_reply-IsSound s counted fit p =
    elim (Bool-cases (peek_be 2 8 s.read_buffer.byte == 4)) [
      | inl stats ↦
          let (low, high) = counted (==→eq (peek_be 2 8 s.read_buffer.byte) 4 stats) in
          rw stats (stats-IsSound s low high p)
      | inr other ↦ elim (Bool-cases (peek_be 2 8 s.read_buffer.byte == 13)) [
        | inl desc ↦
            let (low, high, listed) = fit (==→eq (peek_be 2 8 s.read_buffer.byte) 13 desc) in
            rw (other, desc)
              (save_ports-IsSound (port_count (received_length s)) 16 s
                (port_count_room (received_length s) low high) listed p)
        | inr neither ↦ rw (other, neither) p
      ]
    ]
