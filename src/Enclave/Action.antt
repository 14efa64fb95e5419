-- ===== src/Enclave/Action.antt =====
-- An operation on the enclave's state: it returns a value or an error, and the state as it has left
-- it, after an error too.
use privacy_x.Base.{
  ℕ, ◌≡◌, ◌⊎◌, inl, inr, refl, Bool, true, false, Option, none, some, Bytes, Result, ok, err,
  checked_add, checked_sub, if◌then◌else◌, nat_eq, bytes_instance,
}
use privacy_x.Base.Table.{insert, remove}
use privacy_x.Vault.State.{Pubkey}
use privacy_x.Enclave.State.{
  VaultState, EnclaveError, panic, ClientBalance, ChannelId, ChannelState, ProviderCredit,
  PendingWithdrawal,
}

abbrev pub Action : Type 0 → Type 0
Action A = VaultState → Result EnclaveError A × VaultState

abbrev pub continue :
    {A B : Type 0}
    → Result EnclaveError A × VaultState
    → (A → Action B)
    → Result EnclaveError B × VaultState
continue (ok value, v) next = next value v
continue (err reason, v) next = (err reason, v)

infixl 5 ◌>>=◌ ◌>>◌
abbrev pub ◌>>=◌ : {A B : Type 0} → Action A → (A → Action B) → Action B
first >>= next = λ v. continue (first v) next

abbrev pub ◌>>◌ : {B : Type 0} → Action (Unit {0}) → Action B → Action B
first >> next = first >>= λ _. next

abbrev pub done : {A : Type 0} → A → Action A
done value v = (ok value, v)

abbrev pub fail : {A : Type 0} → EnclaveError → Action A
fail reason v = (err reason, v)

-- The state, to read from.
abbrev pub read : Action VaultState
read v = (ok v, v)

-- `if !test { return Err(reason) }`.
abbrev pub check : Bool → EnclaveError → Action (Unit {0})
check true reason v = (ok tt, v)
check false reason v = (err reason, v)

-- `value.ok_or(reason)?`.
abbrev pub some_or : {A : Type 0} → Option A → EnclaveError → Action A
some_or (some value) reason v = (ok value, v)
some_or none reason v = (err reason, v)

-- `a + b` on `u64` under overflow checks.
abbrev pub add : ℕ → ℕ → Action ℕ
add a b = some_or (checked_add a b) panic

-- `a - b` on `u64` under overflow checks.
abbrev pub sub : ℕ → ℕ → Action ℕ
sub a b = some_or (checked_sub a b) panic

-- `if test { step }`.
abbrev pub when : Bool → Action (Unit {0}) → Action (Unit {0})
when true step = step
when false step = done tt

-- Writes through a `DashMap`.
abbrev pub put_client : Pubkey → ClientBalance → Action (Unit {0})
put_client client balance v =
    (ok tt, record v { client_balances = insert v.client_balances client balance })

abbrev pub put_channel : ChannelId → ChannelState → Action (Unit {0})
put_channel id channel v =
    (ok tt, record v { active_channels = insert v.active_channels id channel })

abbrev pub remove_channel : ChannelId → Action (Unit {0})
remove_channel id v = (ok tt, record v { active_channels = remove v.active_channels id })

abbrev pub put_credit : Bytes → ProviderCredit → Action (Unit {0})
put_credit provider credit v =
    (ok tt, record v { provider_credits = insert v.provider_credits provider credit })

abbrev pub remove_credit : Bytes → Action (Unit {0})
remove_credit provider v =
    (ok tt, record v { provider_credits = remove v.provider_credits provider })

abbrev pub put_withdrawal : ℕ → PendingWithdrawal → Action (Unit {0})
put_withdrawal nonce withdrawal v =
    (ok tt, record v { pending_withdrawals = insert v.pending_withdrawals nonce withdrawal })

abbrev pub remove_withdrawal : ℕ → Action (Unit {0})
remove_withdrawal nonce v =
    (ok tt, record v { pending_withdrawals = remove v.pending_withdrawals nonce })

-- Inversion of an operation that has succeeded.
module _ {A B C : Type 0} {b : B} {v v' : VaultState} where
  pub on_some :
      (o : Option A) (reason : EnclaveError) (next : A → Action B)
      → (some_or o reason >>= next) v ≡ (ok b, v')
      → ((a : A) → o ≡ some a → next a v ≡ (ok b, v') → C)
      → C
  on_some none reason next h k = absurd (cc)
  on_some (some a) reason next h k = k a refl h

  pub on_action :
      (first : Action A) (next : A → Action B)
      → (first >>= next) v ≡ (ok b, v')
      → ((a : A) (u : VaultState) → first v ≡ (ok a, u) → next a u ≡ (ok b, v') → C)
      → C
  on_action first next h k = settle_first (first v) refl h
    where
      settle_first :
          (r : Result EnclaveError A × VaultState) → first v ≡ r → continue r next ≡ (ok b, v') → C
      settle_first (ok a, u) e h1 = k a u e h1
      settle_first (err x, u) e h1 = absurd (cc)

pub on_check :
    {B C : Type 0} {b : B} {v v' : VaultState} (test : Bool) (reason : EnclaveError)
    (next : Action B)
    → (check test reason >> next) v ≡ (ok b, v')
    → (test ≡ true → next v ≡ (ok b, v') → C)
    → C
on_check false reason next h k = absurd (cc)
on_check true reason next h k = k refl h

pub on_if :
    {B C : Type 0} {b : B} {v v' : VaultState} (test : Bool) (first second : Action B)
    → (if test then first else second) v ≡ (ok b, v')
    → (test ≡ true → first v ≡ (ok b, v') → C)
    → (test ≡ false → second v ≡ (ok b, v') → C)
    → C
on_if true first second h k l = k refl h
on_if false first second h k l = l refl h

pub on_when :
    {B C : Type 0} {b : B} {v v' : VaultState} (test : Bool) (step : Action (Unit {0}))
    (next : Action B)
    → (when test step >> next) v ≡ (ok b, v')
    → ((u : VaultState)
        → ((test ≡ true) × (step v ≡ (ok tt, u))) ⊎ ((test ≡ false) × (u ≡ v))
        → next u ≡ (ok b, v')
        → C)
    → C
on_when false step next h k = k _ (inr (refl, refl)) h
on_when true step next h k = on_action step (λ _. next) h λ x u e h1. k u (inl (refl, e)) h1

pub result_state :
    {B : Type 0} {r s : Result EnclaveError B} {v v' : VaultState}
    → ◌≡◌ {A = Result EnclaveError B × VaultState} (r, v) (s, v')
    → v ≡ v'
result_state h = cc
