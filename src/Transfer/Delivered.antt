-- ===== src/Transfer/Delivered.antt =====
-- The bytes that a buffer holds after `recv`, and that `send` reads from it.
use openflow_controller.Prelude.{
  ℕ, zero, suc, ◌+◌, ◌<◌, ◌≤◌, ◌≡◌, refl, ◌∙◌, List, [], ◌∷◌, arith, length,
}
use mathlib.Core.Path.{ap₂}
use openflow_controller.Memory.{Bytes, poke, deliver}
use openflow_controller.Transfer.{slice}

-- All numbers of a list are bytes.
abbrev pub ByteList : List ℕ → Type 0
ByteList [] = Unit {0}
ByteList (x ∷ xs) = (x < 256) × ByteList xs

pub slice-ext :
    (n i : ℕ) (m m' : Bytes)
    → ((j : ℕ) → i ≤ j → j < i + n → m j ≡ m' j)
    → slice n i m ≡ slice n i m'
unfolding slice
slice-ext zero i m m' h = refl
slice-ext (suc n) i m m' h =
    ap₂ (λ x xs. x ∷ xs) (h i (omega arith) (omega arith))
      (slice-ext n (i + 1) m m' (λ j low high. h j (omega arith) (omega arith)))

pub deliver-below : (xs : List ℕ) (i j : ℕ) (m : Bytes) → j < i → deliver xs i m j ≡ m j
unfolding deliver poke
deliver-below [] i j m h = refl
deliver-below (x ∷ xs) i j m h =
    deliver-below xs (i + 1) j (poke i x m) (omega arith) ∙ ground arith

poke_self : (i x : ℕ) (m : Bytes) → x < 256 → poke i x m i ≡ x
unfolding poke
poke_self i x m small = ground arith

-- What was delivered at an offset is what is sent from it.
pub slice-deliver :
    (xs : List ℕ) (i : ℕ) (m : Bytes) → ByteList xs → slice (length xs) i (deliver xs i m) ≡ xs
unfolding slice deliver
slice-deliver [] i m h = refl
slice-deliver (x ∷ xs) i m (small, rest) =
    ap₂ (λ y ys. y ∷ ys)
      (deliver-below xs (i + 1) i (poke i x m) (omega arith) ∙ poke_self i x m small)
      (slice-deliver xs (i + 1) (poke i x m) rest)
