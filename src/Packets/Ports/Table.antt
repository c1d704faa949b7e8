-- ===== src/Packets/Ports/Table.antt =====
-- The table of ports that a description reply leaves, and the message that closes one of them.
use openflow_controller.Prelude.{
  ℕ, zero, suc, ◌+◌, ◌-◌, ◌*◌, ◌<◌, ◌≡◌, ◌≢◌, refl, sym, subst, ap, ◌∙◌, arith, leb, ltb, ◌==◌,
  ◌&&◌, true, false, Bool-cases, inl, inr, if◌then◌else◌, ne→==,
}
use mathlib.Core.Path.{ap₂}
use openflow_controller.Memory.{Bytes, blit, touch, peek_be}
use openflow_controller.Switch.{OfSwitch}
use openflow_controller.Packets.Ports.{save_port, save_ports}

-- The port number of the description at an offset of a reply.
abbrev pub port_at : ℕ → Bytes → ℕ
port_at at m = peek_be 4 (at + 0) m

blit-inside :
    (n : ℕ) (src dst : Bytes) (i j k : ℕ) → k < n → blit n src i j dst (j + k) ≡ src (i + k)
unfolding blit
blit-inside n src dst i j k low =
    ap (λ b. if b then src (i + (j + k - j)) else dst (j + k)) inside ∙ ap src (omega arith)
  where
    inside : (leb j (j + k) && ltb (j + k) (j + n)) ≡ true
    inside = ground (arith, low)

blit-apart :
    (src dst : Bytes) (i p q k : ℕ)
    → q ≢ p
    → k < 64
    → blit 64 src i (64 * p) dst (64 * q + k) ≡ dst (64 * q + k)
unfolding blit
blit-apart src dst i p q k ne low =
    ap (λ b. if b then src (i + (64 * q + k - 64 * p)) else dst (64 * q + k)) outside
  where
    outside : (leb (64 * p) (64 * q + k) && ltb (64 * q + k) (64 * p + 64)) ≡ false
    outside = ground (arith, ne, low)

-- What one round leaves.
pub save_port-read :
    (at : ℕ) (s : OfSwitch) → (save_port at s).read_buffer.byte ≡ s.read_buffer.byte
unfolding save_port touch
save_port-read at s = elim (Bool-cases (peek_be 4 (at + 0) s.read_buffer.byte == 0xfffffffe)) [
  | inl local ↦ rw local refl
  | inr other ↦ rw other refl
]

save_port-entry :
    (at : ℕ) (s : OfSwitch) (k : ℕ)
    → port_at at s.read_buffer.byte ≢ 0xfffffffe
    → k < 64
    → (save_port at s).connected_ports.byte (64 * port_at at s.read_buffer.byte + k)
      ≡ s.read_buffer.byte (at + k)
unfolding save_port touch
save_port-entry at s k other low = rw (ne→== (port_at at s.read_buffer.byte) 0xfffffffe other) (
    blit-inside 64 s.read_buffer.byte s.connected_ports.byte at (64 * port_at at s.read_buffer.byte)
      k low)

save_port-other :
    (at p : ℕ) (s : OfSwitch) (k : ℕ)
    → p ≢ port_at at s.read_buffer.byte
    → k < 64
    → (save_port at s).connected_ports.byte (64 * p + k) ≡ s.connected_ports.byte (64 * p + k)
unfolding save_port touch
save_port-other at p s k ne low = elim (Bool-cases (port_at at s.read_buffer.byte == 0xfffffffe)) [
  | inl local ↦ rw local refl
  | inr other ↦ rw other (
      blit-apart s.read_buffer.byte s.connected_ports.byte at (port_at at s.read_buffer.byte) p k ne
        low)
]

-- Rounds that meet no other description of port `p` leave its entry as it is.
save_ports-other :
    (n at p : ℕ) (s : OfSwitch) (k : ℕ)
    → ((i : ℕ) → i < n → p ≢ port_at (at + 64 * i) s.read_buffer.byte)
    → k < 64
    → (save_ports n at s).connected_ports.byte (64 * p + k) ≡ s.connected_ports.byte (64 * p + k)
unfolding save_ports
save_ports-other zero at p s k ne low = refl
save_ports-other (suc n) at p s k ne low =
    save_ports-other n (at + 64) p (save_port at s) k
      (λ i inside e.
        ne (suc i) (omega arith) (e ∙ ap₂ (λ j m. port_at j m) (omega arith) (save_port-read at s)))
      low
    ∙ save_port-other at p s k
        (λ e. ne zero (omega arith) (e ∙ ap (λ j. port_at j s.read_buffer.byte) (omega arith))) low

-- The first `n` descriptions from an offset on name different ports.
abbrev pub AreDistinct : ℕ → ℕ → Bytes → Type 0
AreDistinct n at m = (i j : ℕ) → i < j → j < n → port_at (at + 64 * i) m ≢ port_at (at + 64 * j) m

AreDistinct-next : (n at : ℕ) (m : Bytes) → AreDistinct (suc n) at m → AreDistinct n (at + 64) m
AreDistinct-next n at m distinct i j before inside e =
    distinct (suc i) (suc j) (omega (arith, before)) (omega (arith, inside))
      (ap (λ a. port_at a m) (omega arith) ∙ e ∙ ap (λ a. port_at a m) (omega arith))

-- The description at `q`, the `i`-th one, stands in the entry of its port.
pub save_ports-entry :
    (n at i q : ℕ) (s : OfSwitch) (k : ℕ)
    → AreDistinct n at s.read_buffer.byte
    → i < n
    → at + 64 * i ≡ q
    → port_at q s.read_buffer.byte ≢ 0xfffffffe
    → k < 64
    → (save_ports n at s).connected_ports.byte (64 * port_at q s.read_buffer.byte + k)
      ≡ s.read_buffer.byte (q + k)
unfolding save_ports
save_ports-entry zero at i q s k distinct inside e other low = absurd (omega (arith, inside))
save_ports-entry (suc n) at zero q s k distinct inside e other low =
    subst (λ a. port_at a m ≢ 0xfffffffe → entry a) (omega (arith, e)) first other
  where
    m : Bytes
    m = s.read_buffer.byte

    entry : ℕ → Type 0
    entry a =
        (save_ports n (at + 64) (save_port at s)).connected_ports.byte (64 * port_at a m + k)
        ≡ m (a + k)

    first : port_at at m ≢ 0xfffffffe → entry at
    first o =
        save_ports-other n (at + 64) (port_at at m) (save_port at s) k
          (λ i low_i same. distinct zero (suc i) (omega arith) (omega (arith, low_i)) (
            ap (λ a. port_at a m) (omega arith)
            ∙ same
            ∙ ap₂ (λ a x. port_at a x) (omega arith) (save_port-read at s)))
          low
        ∙ save_port-entry at s k o low
save_ports-entry (suc n) at (suc i) q s k distinct inside e other low =
    subst
      (λ m.
        port_at q m ≢ 0xfffffffe
        → (save_ports n (at + 64) (save_port at s)).connected_ports.byte (64 * port_at q m + k)
          ≡ m (q + k))
      (save_port-read at s)
      (λ o.
        save_ports-entry n (at + 64) i q (save_port at s) k
          (subst (λ m. AreDistinct n (at + 64) m) (sym (save_port-read at s))
            (AreDistinct-next n at s.read_buffer.byte distinct))
          (omega (arith, inside)) (omega (arith, e)) o low)
      other
