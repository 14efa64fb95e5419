-- ===== src/Enclave/Runs.antt =====
-- Runs of the enclave: deposits, withdrawals and channel operations that succeed, in any order.
use privacy_x.Base.{
  ℕ, ◌+◌, ◌≡◌, refl, sym, subst, inl, inr, Option, none, ok, Bytes, ℤ, bytes_instance, nat_eq,
  arith,
}
use privacy_x.Base.Table.{get, All}
use privacy_x.Vault.State.{Pubkey}
use privacy_x.Vault.Platform.{Platform}
use privacy_x.Enclave.State.{VaultState, ChannelId, PendingWithdrawal, AdaptorPreSignature}
use privacy_x.Enclave.Adaptor.{Curve}
use privacy_x.Enclave.Ledger.{
  apply_deposit, authorize_withdrawal, expire_pending_withdrawal, apply_withdrawal,
}
use privacy_x.Enclave.Ledger.Accounts.{
  apply_deposit-Settles, authorize_withdrawal-Settles, expire_pending_withdrawal-Settles,
  apply_withdrawal-Settles,
}
use privacy_x.Enclave.Books.{Balanced, Settles, IsBacked, Balanced-IsBacked, liabilities}
use privacy_x.Enclave.Channels.{
  open_channel_with_id, submit_request, expire_request, ExpiredRequestOutcome, CloseOutcome,
}
use privacy_x.Enclave.Channels.Close.{close_channel_with_settlement_id}
use privacy_x.Enclave.Channels.Finalize.{
  deliver_adaptor, finalize_offchain, finalize_onchain_claim, FinalizeOutcome,
}
use privacy_x.Enclave.Channels.Machine.{Steps}
use privacy_x.Enclave.Channels.Calls.{
  submit_request-Steps, deliver_adaptor-Steps, expire_request-Steps,
}
use privacy_x.Enclave.Channels.Calls.Finalize.{
  finalize_offchain-Steps, finalize_onchain_claim-Steps,
}
use privacy_x.Enclave.Channels.Invariant.{IsSound}
use privacy_x.Enclave.Channels.Accounts.{
  AllSound, Steps-AllSound, Steps-Balanced, open_channel_with_id-Balanced,
  open_channel_with_id-AllSound,
}
use privacy_x.Enclave.Channels.Closing.{close_channel-Balanced-AllSound}

module _ {Scalar Point : Type 0} (p : Platform) (c : Curve Scalar Point) where
  -- An operation that succeeds, with what it takes in from the chain and what has been paid out there.
  -- A new channel and a new withdrawal have an identifier that is not in use.
  pub data Step (v v' : VaultState) : (paid_in paid_out : ℕ) → Type 0 where
    deposited :
        (client : Pubkey) (amount : ℕ)
        → apply_deposit client amount v ≡ (ok tt, v')
        → Step v v' amount 0
    authorized :
        (w : PendingWithdrawal)
        → get v.pending_withdrawals w.withdraw_nonce ≡ none
        → authorize_withdrawal w v ≡ (ok tt, v')
        → Step v v' 0 0
    withdrawal_expired :
        (nonce : ℕ) (w : PendingWithdrawal)
        → expire_pending_withdrawal nonce v ≡ (ok w, v')
        → Step v v' 0 0
    withdrawn :
        (nonce : ℕ) (w : PendingWithdrawal)
        → apply_withdrawal nonce v ≡ (ok w, v')
        → Step v v' 0 w.amount
    channel_opened :
        (now : ℤ) (id : ChannelId) (client : Pubkey) (provider : Bytes) (initial_deposit : ℕ)
        → get v.active_channels id ≡ none
        → open_channel_with_id now id client provider initial_deposit v ≡ (ok tt, v')
        → Step v v' 0 0
    request_submitted :
        (now : ℤ) (id : ChannelId) (rid : Bytes) (amount : ℕ) (hash : Bytes)
        → submit_request now id rid amount hash v ≡ (ok tt, v')
        → Step v v' 0 0
    adaptor_delivered :
        (now : ℤ) (id : ChannelId) (point : Bytes) (pre_sig : AdaptorPreSignature)
        (encrypted hash key : Bytes)
        → deliver_adaptor p c now id point pre_sig encrypted hash key v ≡ (ok tt, v')
        → Step v v' 0 0
    finalized :
        (now : ℤ) (id : ChannelId) (secret : Bytes) (o : FinalizeOutcome)
        → finalize_offchain p c now id secret v ≡ (ok o, v')
        → Step v v' 0 0
    claimed :
        (now : ℤ) (id : ChannelId) (sig_r sig_s : Bytes) (o : FinalizeOutcome)
        → finalize_onchain_claim p c now id sig_r sig_s v ≡ (ok o, v')
        → Step v v' 0 0
    request_expired :
        (now : ℤ) (id : ChannelId) (o : Option ExpiredRequestOutcome)
        → expire_request now id v ≡ (ok o, v')
        → Step v v' 0 0
    channel_closed :
        (now : ℤ) (fresh : Bytes) (id : ChannelId) (chosen : Option Bytes) (o : CloseOutcome)
        → close_channel_with_settlement_id now fresh id chosen v ≡ (ok o, v')
        → Step v v' 0 0

  pub data Run (v : VaultState) : (v' : VaultState) (paid_in paid_out : ℕ) → Type 0 where
    start : Run v v 0 0
    then_step :
        {u w : VaultState} {i o j k : ℕ} → Run v u i o → Step u w j k → Run v w (i + j) (o + k)

  -- Every channel is sound, and each client's channels and withdrawals are backed.
  pub record Healthy (v : VaultState) : Type 0 where
    pub sound : AllSound p c v
    pub backed : IsBacked v

  of_Settles :
      (v v' : VaultState) (i o : ℕ)
      → Healthy v
      → Settles v v' i o
      → Balanced v v' i o × AllSound p c v'
  of_Settles v v' i o h (b, same) = (b, subst (All (IsSound p c)) (sym same) h.sound)

  of_Steps :
      (v v' : VaultState) (id : ChannelId)
      → Healthy v
      → Steps p c id v v'
      → Balanced v v' 0 0 × AllSound p c v'
  of_Steps v v' id h s =
      (Steps-Balanced p c v v' id h.sound s, Steps-AllSound p c v v' id h.sound s)

  Step-Balanced :
      (v v' : VaultState) (i o : ℕ)
      → Healthy v
      → Step v v' i o
      → Balanced v v' i o × AllSound p c v'
  Step-Balanced v v' i o h (deposited client amount e) =
      of_Settles v v' _ _ h (apply_deposit-Settles v v' client amount e)
  Step-Balanced v v' i o h (authorized w fresh e) =
      of_Settles v v' _ _ h (authorize_withdrawal-Settles v v' w fresh e)
  Step-Balanced v v' i o h (withdrawal_expired nonce w e) =
      of_Settles v v' _ _ h (expire_pending_withdrawal-Settles v v' nonce w h.backed e)
  Step-Balanced v v' i o h (withdrawn nonce w e) =
      of_Settles v v' _ _ h (apply_withdrawal-Settles v v' nonce w h.backed e).1
  Step-Balanced v v' i o h (channel_opened now id client provider n fresh e) = (
    open_channel_with_id-Balanced p c v v' now id client provider n fresh e,
    open_channel_with_id-AllSound p c v v' now id client provider n h.sound e,
  )
  Step-Balanced v v' i o h (request_submitted now id rid amount hash e) =
      of_Steps v v' id h (submit_request-Steps p c now id rid amount hash v v' e)
  Step-Balanced v v' i o h (adaptor_delivered now id point pre_sig encrypted hash key e) =
      of_Steps v v' id h (deliver_adaptor-Steps p c now id v v' point pre_sig encrypted hash key e)
  Step-Balanced v v' i o h (finalized now id secret out e) =
      of_Steps v v' id h (finalize_offchain-Steps p c now id v v' secret out e)
  Step-Balanced v v' i o h (claimed now id sig_r sig_s out e) =
      of_Steps v v' id h (finalize_onchain_claim-Steps p c now id v v' sig_r sig_s out e)
  Step-Balanced v v' i o h (request_expired now id out e) =
      elim (expire_request-Steps p c now id v v' out e) [
        | inl same ↦
            subst (λ u. Balanced v u 0 0 × AllSound p c u) (sym same)
              (record { owed = refl; backing = λ owner. refl }, h.sound)
        | inr s ↦ of_Steps v v' id h s
      ]
  Step-Balanced v v' i o h (channel_closed now fresh id chosen out e) =
      close_channel-Balanced-AllSound p c v v' now fresh id chosen out h.sound h.backed e

  pub Step-Healthy : (v v' : VaultState) (i o : ℕ) → Healthy v → Step v v' i o → Healthy v'
  Step-Healthy v v' i o h s =
      let (balanced, sound) = Step-Balanced v v' i o h s in
      record { sound = sound; backed = Balanced-IsBacked v v' i o balanced h.backed }

  -- Through any run of deposits, withdrawals and channel operations that succeed, from a healthy state, the state stays healthy (each channel sound; each client's
  -- locked balance no less than what stands in its channels and pending withdrawals), and what the
  -- enclave owes to clients and providers changes by exactly what was deposited and what was paid out
  -- as withdrawals.
  pub Run-Healthy :
      (v v' : VaultState) (i o : ℕ)
      → Healthy v
      → Run v v' i o
      → Healthy v' × (liabilities v' + o ≡ liabilities v + i)
  Run-Healthy v v' i o h start = (h, refl)
  Run-Healthy v v' i o h (then_step run s) =
      let (before, books) = Run-Healthy v _ _ _ h run in
      let balanced = (Step-Balanced _ v' _ _ before s).0 in
      (Step-Healthy _ v' _ _ before s, omega (arith, books, balanced.owed))
