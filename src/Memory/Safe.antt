-- ===== src/Memory/Safe.antt =====
-- Accesses that stay inside a live buffer.
use openflow_controller.Prelude.{ℕ, ◌+◌, ◌≤◌, ◌≡◌, true, false, List, arith, le→leb}
use openflow_controller.Memory.{Buffer, touch, zero_fill, fresh}
use openflow_controller.Memory.Fields.{Field, extent, store_fields}

-- The buffer is allocated, holds at least `n` bytes, and every access so far was in bounds.
pub record IsSafe (n : ℕ) (b : Buffer) : Type 0 where
  pub alive : b.live ≡ true
  pub sound : b.fault ≡ false
  pub room : n ≤ b.size

module _ {n : ℕ} {b : Buffer} (safe : IsSafe n b) where
  pub touch-IsSafe : (i k : ℕ) → i + k ≤ n → IsSafe n (touch i k b)
  unfolding touch
  touch-IsSafe i k h = ground (arith, le→leb (i + k) b.size)

  pub store_fields-IsSafe :
      (fs : List Field) (base : ℕ) → base + extent fs ≤ n → IsSafe n (store_fields fs base b)
  unfolding store_fields
  store_fields-IsSafe fs base h = ground (arith, le→leb (base + extent fs) b.size)

  pub zero_fill-IsSafe : (k : ℕ) → k ≤ n → IsSafe n (zero_fill k b)
  unfolding zero_fill
  zero_fill-IsSafe k h = ground (arith, le→leb (0 + k) b.size)

  pub IsSafe-weaken : (m : ℕ) → m ≤ n → IsSafe m b
  IsSafe-weaken m h = ground arith

pub fresh-IsSafe : (n : ℕ) → IsSafe n (fresh n)
unfolding fresh
fresh-IsSafe n = ground arith
