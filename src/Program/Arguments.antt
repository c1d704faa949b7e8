-- ===== src/Program/Arguments.antt =====
-- controller.c: the address and the port, from the command line or the defaults.
pub mod Given
use openflow_controller.Prelude.{
  ℕ, zero, suc, ◌+◌, ◌<◌, ◌≤◌, ◌≡◌, ◌≢◌, refl, sym, ap, ◌∙◌, List, [], ◌∷◌, Bool, true, false, ◌||◌,
  not, arith, leb, ltb, ◌==◌, length, if◌then◌else◌,
}
use openflow_controller.Memory.{Bytes, Buffer, fresh, deliver, poke, touch}

-- `char port[15]` and `char controller_addr[15]`
pub record Globals : Type 0 where
  pub port : Buffer
  pub controller_addr : Buffer

-- A text and the zero byte behind it.
pub strcpy : List ℕ → Buffer → Buffer
strcpy text dst = record (touch 0 (length text + 1) dst) {
  byte = poke (length text) 0 (deliver text 0 dst.byte);
}

-- "6653" and "127.0.0.1"
pub defaults : Globals
unfolding strcpy
defaults = record {
  port = strcpy (54 ∷ 54 ∷ 53 ∷ 51 ∷ []) (fresh 15);
  controller_addr = strcpy (49 ∷ 50 ∷ 55 ∷ 46 ∷ 48 ∷ 46 ∷ 48 ∷ 46 ∷ 49 ∷ []) (fresh 15);
}

-- `argv`, its first entry the name of the program.
unfoldable pub read_arguments : (argv : List (List ℕ)) → Globals → Globals
unfolding strcpy
read_arguments (name ∷ address ∷ port ∷ rest) g = record {
  port = strcpy port g.port;
  controller_addr = strcpy address g.controller_addr;
}
read_arguments (name ∷ address ∷ []) g = record g {
  controller_addr = strcpy address g.controller_addr;
}
read_arguments (name ∷ []) g = g
read_arguments [] g = g

-- The string that starts at an offset, of at most `n` bytes: what a callee reads.
pub c_string : ℕ → ℕ → Bytes → List ℕ
c_string zero i m = []
c_string (suc n) i m = let rest = c_string n (i + 1) m in if m i == 0 then [] else m i ∷ rest
