-- ===== src/Memory/Words.antt =====
-- The bytes of a number in network order give the number back.
use openflow_controller.Prelude.{
  ℕ, ◌+◌, ◌*◌, ◌/◌, ◌%◌, ◌^◌, ◌<◌, ◌≡◌, fun_ext, List, [], ◌∷◌, arith,
}
use openflow_controller.Memory.{Bytes, poke, deliver}
use native.Mathlib.Nat.{mod-eq_of_lt}

abbrev be16 : ℕ → ℕ
be16 x = (0 + x / 256 % 256) * 256 + x % 256

abbrev be32 : ℕ → ℕ
be32 x =
    (((0 + x / 256 / 256 / 256 % 256) * 256 + x / 256 / 256 % 256) * 256 + x / 256 % 256) * 256
    + x % 256

pub be16_lem : (x : ℕ) → x < 2 ^ 16 → be16 x ≡ x
be16_lem x h = omega arith

pub be32_lem : (x : ℕ) → x < 2 ^ 32 → be32 x ≡ x
be32_lem x h = omega arith

-- Every offset holds a byte.
abbrev pub AreBytes : Bytes → Type 0
AreBytes m = (j : ℕ) → m j < 256

-- The bytes as a store of single bytes leaves them.
abbrev pub bytes_of : Bytes → Bytes
bytes_of m j = m j % 256

pub bytes_of_lem : {m : Bytes} → AreBytes m → bytes_of m ≡ m
bytes_of_lem h = fun_ext λ j. mod-eq_of_lt (h j)

AreBytes-poke : (i v : ℕ) (m : Bytes) → AreBytes m → AreBytes (poke i v m)
unfolding poke
AreBytes-poke i v m h j = ground (arith, h j)

pub AreBytes-deliver : (xs : List ℕ) (i : ℕ) (m : Bytes) → AreBytes m → AreBytes (deliver xs i m)
unfolding deliver
AreBytes-deliver [] i m h = h
AreBytes-deliver (x ∷ xs) i m h = AreBytes-deliver xs (i + 1) (poke i x m) (AreBytes-poke i x m h)
