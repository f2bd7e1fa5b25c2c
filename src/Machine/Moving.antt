-- ===== src/Machine/Moving.antt =====
-- mremap(): a mapping that gets another size, and perhaps another address.
use mitosis_tests.Base.{ℕ, ◌+◌, ◌<◌, ◌≡◌, Option, none, some, List, ◌∷◌}
use mitosis_tests.Machine.Events.{Event, region, acquire, release, refused}
use mitosis_tests.Machine.Monad.{Program, ok}

-- The flags: 0, MREMAP_MAYMOVE, and MREMAP_MAYMOVE | MREMAP_FIXED with an address.
pub data Move : Type 0 where
  stay may_move : Move
  move_to : ℕ → Move

pub record Remapping (W : Type 0) : Type 0 where
  -- mremap(addr, old_size, new_size, flags)
  pub mremap : ℕ → ℕ → ℕ → Move → W → Option ℕ × W

-- What the trace shows of mremap(): a new mapping in place of the old one.
abbrev moved : ℕ → ℕ → ℕ → Option ℕ → List Event → List Event
moved a old new none t = refused ∷ t
moved a old new (some b) t = acquire (region b new) ∷ release (region a old) ∷ t

abbrev pub mremap : {W : Type 0} ⦃rem : Remapping W⦄ → ℕ → ℕ → ℕ → Move → Program W (Option ℕ)
mremap ⦃rem⦄ a old new m s =
    let (found, w) = rem.mremap a old new m s.env in
    (ok found, record { env = w; trace = moved a old new found s.trace })

-- mremap() answers the address that MREMAP_FIXED asks for, and the mapping keeps the bytes that its
-- old and its new size have in common.
pub record Moves {W : Type 0} (rem : Remapping W) (byte : W → ℕ → ℕ) : Type 0 where
  pub moved_byte :
      (a old new : ℕ) (m : Move) (b k : ℕ) (w : W)
      → (rem.mremap a old new m w).0 ≡ some b
      → k < old
      → k < new
      → byte (rem.mremap a old new m w).1 (b + k) ≡ byte w (a + k)
  pub moved_to :
      (a old new c b : ℕ) (w : W) → (rem.mremap a old new (move_to c) w).0 ≡ some b → b ≡ c
