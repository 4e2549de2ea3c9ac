-- ===== src/Core/Window.antt =====
-- lee/state_machine/core/src/program.rs: `ValidityWindow`, at the numbers (`BlockId` and
-- `Timestamp` are both `u64`).
use lp_0002_private_multisig.Prelude.{
  ℕ, Bool, true, ◌&&◌, Option, none, some, leb, ltb, if◌then◌else◌, Result, ok, err,
}

pub record ValidityWindow : Type 0 where
  pub start : Option ℕ
  pub stop : Option ℕ

abbrev pub new_unbounded : ValidityWindow
new_unbounded = record { start = none; stop = none }

abbrev pub from_ok : Option ℕ → ℕ → Bool
from_ok none value = true
from_ok (some start) value = leb start value

abbrev pub to_ok : Option ℕ → ℕ → Bool
to_ok none value = true
to_ok (some stop) value = ltb value stop

unfoldable pub is_valid_for : ValidityWindow → ℕ → Bool
is_valid_for w value = from_ok w.start value && to_ok w.stop value

pub data InvalidWindow : Type 0 where
  invalid_window : InvalidWindow

check_bounds : Option ℕ → Option ℕ → Result InvalidWindow (Unit {0})
check_bounds (some start) (some stop) = if leb stop start then err invalid_window else ok tt
check_bounds (some start) none = ok tt
check_bounds none stop = ok tt

pub check_window : ValidityWindow → Result InvalidWindow (Unit {0})
unfolding check_bounds
check_window w = check_bounds w.start w.stop

-- `TryFrom<(Option<T>, Option<T>)>`
pub try_from : Option ℕ → Option ℕ → Result InvalidWindow ValidityWindow
unfolding check_window
try_from start stop =
    let this : ValidityWindow = record { start = start; stop = stop } in
    elim (check_window this) [ ok u ↦ ok this | err e ↦ err e ]
