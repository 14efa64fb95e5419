-- ===== src/Base/Store.antt =====
-- A table as a function from keys: the accounts of the chain, by address.
use mathlib.Core.Path.{◌≡◌, refl}
use mathlib.Core.Logic.{◌≢◌}
use mathlib.Core.Option.{Option, some}
use native.Mathlib.Omega.{arith}
use privacy_x.Base.Tests.{if◌then◌else◌}
use privacy_x.Base.Equality.{Bytes, bytes_eq, bytes_eq_iff, bytes_eq_refl}

abbrev pub Store : Type 0 → Type 0
Store V = Bytes → Option V

module _ {V : Type 0} where
  unfoldable pub put : Store V → Bytes → V → Store V
  put s k v j = if bytes_eq k j then some v else s j

  pub put_self : (s : Store V) (k : Bytes) (v : V) → put s k v k ≡ some v
  unfolding put
  put_self s k v = ground (arith, bytes_eq_refl k)

  pub put_ne : (s : Store V) (k j : Bytes) (v : V) → k ≢ j → put s k v j ≡ s j
  unfolding put
  put_ne s k j v h = ground (arith, bytes_eq_iff k j)

  pub put_at :
      (s : Store V) (k j : Bytes) (v : V) → put s k v j ≡ (if bytes_eq k j then some v else s j)
  unfolding put
  put_at s k j v = refl
