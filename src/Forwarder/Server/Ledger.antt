-- ===== src/Forwarder/Server/Ledger.antt =====
-- The descriptors of a pair of rdp_forwarder.c, among those that are opened and closed.
pub mod Quiet
pub mod Reconnecting
pub mod Closed
pub mod Turning
pub mod Passes
pub mod Admitting
pub mod Ending
pub mod Setting
pub mod Whole
use remote_trans.Base.{
  ℕ, zero, suc, ◌≡◌, refl, ℤ, pos, arith, eqb_ℤ, is_pos, ◌&&◌, negsuc, if◌then◌else◌,
}
use remote_trans.World.{World}
use remote_trans.Descriptors.{one, Books}
use remote_trans.Forwarder.Types.{Pair}
use remote_trans.Forwarder.Server.Closing.{held}

-- An operation on a pair closes what it held or leaves it held, and leaves held what it has opened.
abbrev pub Kept : ℕ → Pair → World → Pair → World → Type 0
Kept n p w q u = Books (suc n) w (held (pos (suc n)) p) u (held (pos (suc n)) q)

-- `held` counts a descriptor above 0 as `one` does.
pub positive-one :
    (n : ℕ) (x : ℤ) → (if is_pos x && eqb_ℤ x (pos (suc n)) then 1 else 0) ≡ one (suc n) x
positive-one n (pos zero) = ground arith
positive-one n (pos (suc k)) = ground arith
positive-one n (negsuc k) = refl
