-- ===== src/Base/Words.antt =====
-- Machine integers as numbers with their range: `u64`, `u32`, `u16` and `u8` are native numbers.
use Prim.Native.Nat.{ℕ, ◌+◌, ◌-◌, ◌<◌}
use mathlib.Core.Path.{◌≡◌}
use mathlib.Core.Option.{Option, none, some}
use native.Mathlib.Omega.{arith}
use privacy_x.Base.Tests.{ltb, leb, if◌then◌else◌}

-- The largest value of a `w`-bit unsigned integer is `2 ^ w - 1`.
abbrev pub u64_mod : ℕ
u64_mod = 18446744073709551616

abbrev pub u32_mod : ℕ
u32_mod = 4294967296

abbrev pub u16_max : ℕ
u16_max = 65535

abbrev pub u8_mod : ℕ
u8_mod = 256

-- `u64::checked_add`, and `+` on `u64` where `overflow-checks` turns `none` into a panic.
unfoldable pub checked_add : ℕ → ℕ → Option ℕ
checked_add a b = if ltb (a + b) u64_mod then some (a + b) else none

-- `u32::checked_add`.
unfoldable pub checked_add_u32 : ℕ → ℕ → Option ℕ
checked_add_u32 a b = if ltb (a + b) u32_mod then some (a + b) else none

-- `u64::checked_sub`.
unfoldable pub checked_sub : ℕ → ℕ → Option ℕ
checked_sub a b = if leb b a then some (a - b) else none

pub checked_add-eq-some :
    (a b : ℕ) {c : ℕ} → checked_add a b ≡ some c → (c ≡ a + b) × (a + b < u64_mod)
unfolding checked_add
checked_add-eq-some a b h = ground arith

pub checked_add_total : (a b : ℕ) → a + b < u64_mod → checked_add a b ≡ some (a + b)
unfolding checked_add
checked_add_total a b h = ground arith

pub checked_sub-eq-some : (a b : ℕ) {c : ℕ} → checked_sub a b ≡ some c → (c + b ≡ a)
unfolding checked_sub
checked_sub-eq-some a b h = ground arith
