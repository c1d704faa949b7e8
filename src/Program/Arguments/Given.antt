-- ===== src/Program/Arguments/Given.antt =====
-- What `getaddrinfo` reads of the arguments, and when they do not fit.
use openflow_controller.Prelude.{
  ℕ, zero, suc, ◌+◌, ◌%◌, ◌<◌, ◌≤◌, ◌≡◌, refl, ap, ◌∙◌, List, [], ◌∷◌, true, false, arith, ltb,
  ◌==◌, length, if◌then◌else◌,
}
use mathlib.Core.Path.{ap₂}
use openflow_controller.Memory.{Bytes, Buffer, fresh, deliver, poke, touch}
use openflow_controller.Transfer.Delivered.{deliver-below}
use openflow_controller.Program.Arguments.{Globals, strcpy, defaults, read_arguments, c_string}

-- The bytes of a string: none is zero.
abbrev IsText : List ℕ → Type 0
IsText [] = Unit {0}
IsText (x ∷ xs) = (0 < x) × (x < 256) × IsText xs

c_string-end : (n i : ℕ) (m : Bytes) → m i ≡ 0 → c_string (suc n) i m ≡ []
unfolding c_string
c_string-end n i m e = ground (arith, e)

c_string-cons :
    (n i x : ℕ) (xs : List ℕ) (m : Bytes)
    → m i ≡ x
    → 0 < x
    → c_string n (i + 1) m ≡ xs
    → c_string (suc n) i m ≡ x ∷ xs
unfolding c_string
c_string-cons n i x xs m e pos rest =
    ap (λ b. if b then [] else m i ∷ c_string n (i + 1) m) (not_zero (m i) e)
    ∙ ap₂ (λ y ys. y ∷ ys) e rest
  where
    not_zero : (y : ℕ) → y ≡ x → (y == 0) ≡ false
    not_zero y same = ground (arith, same, pos)

poke-at : (e i v : ℕ) (m : Bytes) → e ≡ i → poke e v m i ≡ v % 256
unfolding poke
poke-at e i v m same = ground (arith, same)

poke-other : (e i v : ℕ) (m : Bytes) → i < e → poke e v m i ≡ m i
unfolding poke
poke-other e i v m low = ground (arith, low)

c_string-deliver :
    (n i e : ℕ) (text : List ℕ) (m : Bytes)
    → e ≡ i + length text
    → length text < n
    → IsText text
    → c_string n i (poke e 0 (deliver text i m)) ≡ text
unfolding deliver
c_string-deliver zero i e text m end room t = absurd (omega (arith, room))
c_string-deliver (suc n) i e [] m end room t =
    c_string-end n i (poke e 0 m) (poke-at e i 0 m (omega (arith, end)))
c_string-deliver (suc n) i e (x ∷ xs) m end room (pos, small, t) =
    c_string-cons n i x xs (poke e 0 (deliver xs (i + 1) (poke i x m)))
      (poke-other e i 0 (deliver xs (i + 1) (poke i x m)) (omega (arith, end))
        ∙ deliver-below xs (i + 1) i (poke i x m) (omega arith)
        ∙ poke-at i i x m refl
        ∙ omega (arith, small))
      pos
      (c_string-deliver n (i + 1) e xs (poke i x m) (omega (arith, end)) (omega (arith, room)) t)

c_string-strcpy :
    (text : List ℕ) (dst : Buffer)
    → IsText text
    → length text ≤ 14
    → c_string 15 0 (strcpy text dst).byte ≡ text
unfolding strcpy
c_string-strcpy text dst t room =
    c_string-deliver 15 0 (length text) text dst.byte (omega arith) (omega (arith, room)) t

fault-strcpy :
    (text : List ℕ) (dst : Buffer)
    → dst.live ≡ true
    → dst.size ≡ 15
    → dst.fault ≡ false
    → (strcpy text dst).fault ≡ ltb 14 (length text)
unfolding strcpy touch
fault-strcpy text dst live size none_yet = ground (arith, live, size, none_yet)

-- The room of the two strings.
record IsRoomy (g : Globals) : Type 0 where
  port_live : g.port.live ≡ true
  port_size : g.port.size ≡ 15
  port_sound : g.port.fault ≡ false
  addr_live : g.controller_addr.live ≡ true
  addr_size : g.controller_addr.size ≡ 15
  addr_sound : g.controller_addr.fault ≡ false

defaults-IsRoomy : IsRoomy defaults
unfolding defaults fresh touch
defaults-IsRoomy = record {
  port_live = refl;
  port_size = refl;
  port_sound = refl;
  addr_live = refl;
  addr_size = refl;
  addr_sound = refl;
}

-- With address and port on the command line, neither holding a zero byte: where both are at most 14 bytes
-- long, `getaddrinfo` is given them as they stand there; and the store of either is out of bounds exactly
-- where it is longer than that, as the address "192.168.100.100" is.
pub read_arguments-given :
    (name address port : List ℕ) (rest : List (List ℕ))
    → IsText address
    → IsText port
    → (length address ≤ 14
        → c_string 15 0
            (read_arguments (name ∷ address ∷ port ∷ rest) defaults).controller_addr.byte
          ≡ address)
      × (length port ≤ 14
          → c_string 15 0 (read_arguments (name ∷ address ∷ port ∷ rest) defaults).port.byte ≡ port)
      × ((read_arguments (name ∷ address ∷ port ∷ rest) defaults).controller_addr.fault
          ≡ ltb 14 (length address))
      × ((read_arguments (name ∷ address ∷ port ∷ rest) defaults).port.fault ≡ ltb 14 (length port))
unfolding read_arguments
read_arguments-given name address port rest ta tp =
    let r = defaults-IsRoomy in
    (
      c_string-strcpy address defaults.controller_addr ta,
      c_string-strcpy port defaults.port tp,
      fault-strcpy address defaults.controller_addr r.addr_live r.addr_size r.addr_sound,
      fault-strcpy port defaults.port r.port_live r.port_size r.port_sound,
    )

-- Arguments that fit: an address and a port of up to 14 bytes each, as far as they are given.
abbrev pub AreShort : List (List ℕ) → Type 0
AreShort [] = Unit {0}
AreShort (name ∷ []) = Unit {0}
AreShort (name ∷ address ∷ []) = length address ≤ 14
AreShort (name ∷ address ∷ port ∷ rest) = (length address ≤ 14) × (length port ≤ 14)

short-strcpy :
    (text : List ℕ) (dst : Buffer)
    → dst.live ≡ true
    → dst.size ≡ 15
    → dst.fault ≡ false
    → length text ≤ 14
    → (strcpy text dst).fault ≡ false
short-strcpy text dst live size none_yet room =
    fault-strcpy text dst live size none_yet ∙ within (length text) room
  where
    within : (n : ℕ) → n ≤ 14 → ltb 14 n ≡ false
    within n h = ground (arith, h)

pub fault-read_arguments :
    (argv : List (List ℕ))
    → AreShort argv
    → ((read_arguments argv defaults).controller_addr.fault ≡ false)
      × ((read_arguments argv defaults).port.fault ≡ false)
unfolding read_arguments
fault-read_arguments [] short = (defaults-IsRoomy.addr_sound, defaults-IsRoomy.port_sound)
fault-read_arguments (name ∷ []) short = (defaults-IsRoomy.addr_sound, defaults-IsRoomy.port_sound)
fault-read_arguments (name ∷ address ∷ []) short =
    let r = defaults-IsRoomy in
    (
      short-strcpy address defaults.controller_addr r.addr_live r.addr_size r.addr_sound short,
      r.port_sound,
    )
fault-read_arguments (name ∷ address ∷ port ∷ rest) (short, short') =
    let r = defaults-IsRoomy in
    (
      short-strcpy address defaults.controller_addr r.addr_live r.addr_size r.addr_sound short,
      short-strcpy port defaults.port r.port_live r.port_size r.port_sound short',
    )

-- Without arguments, or with an address only, `getaddrinfo` is given the defaults for the rest, which fit:
-- "127.0.0.1" and "6653".
read_arguments-defaults :
    (name address : List ℕ)
    → (c_string 15 0 (read_arguments (name ∷ []) defaults).controller_addr.byte
        ≡ 49 ∷ 50 ∷ 55 ∷ 46 ∷ 48 ∷ 46 ∷ 48 ∷ 46 ∷ 49 ∷ [])
      × (c_string 15 0 (read_arguments (name ∷ []) defaults).port.byte ≡ 54 ∷ 54 ∷ 53 ∷ 51 ∷ [])
      × (c_string 15 0 (read_arguments (name ∷ address ∷ []) defaults).port.byte
          ≡ 54 ∷ 54 ∷ 53 ∷ 51 ∷ [])
unfolding read_arguments defaults
read_arguments-defaults name address = (
  c_string-strcpy _ (fresh 15) (omega arith) (omega arith),
  c_string-strcpy _ (fresh 15) (omega arith) (omega arith),
  c_string-strcpy _ (fresh 15) (omega arith) (omega arith),
)
