-- ===== src/Enclave/Tests/Traces.antt =====
-- A deposit, a channel, a request and a withdrawal, one after the other.
use privacy_x.Base.{
  ◌+◌, ◌≡◌, ◌≢◌, refl, [], ◌∷◌, ok, pos, arith, bytes_eq, bytes_instance, nat_eq, checked_add,
  checked_add_i64,
}
use privacy_x.Base.Table.{get, insert, remove, sum, measure, All}
use privacy_x.Enclave.State.{VaultState, PendingWithdrawal}
use privacy_x.Enclave.Ledger.{
  apply_deposit, authorize_withdrawal, apply_withdrawal, lock_funds, reserve_balance,
}
use privacy_x.Enclave.Books.{held, locked_at, liabilities, IsBacked}
use privacy_x.Enclave.Channels.{
  open_channel_with_id, submit_request, rollback_submit_request, contains,
}
use privacy_x.Enclave.Channels.Accounts.{AllSound}
use privacy_x.Enclave.Channels.Invariant.{idle}
use privacy_x.Enclave.Channels.Calls.{submit_request-Steps}
use privacy_x.Enclave.Channels.TakenBack.{submission}
use privacy_x.Enclave.Channels.Session.{
  here, step, Lasts, Session-Lasts, submit_request_once, taken_back,
}
use privacy_x.Enclave.Channels.Rollbacks.{touched, rollback_submit_request-submit_request}
use privacy_x.Enclave.Runs.{
  Healthy, Run, start, then_step, deposited, channel_opened, request_submitted, authorized,
  withdrawn, Run-Healthy,
}
use privacy_x.Enclave.Tests.Samples.{
  two_points, wide_machine, client, provider, channel_key, request_key, fresh_state, idle_channel,
  with_channel,
}

abbrev withdrawal : PendingWithdrawal
withdrawal = record {
  client = client;
  recipient_ata = 71 ∷ [];
  amount = 20;
  withdraw_nonce = 1;
  issued_at = pos 20;
  expires_at = pos 90;
}

after_deposit : VaultState
after_deposit = (apply_deposit client 100 fresh_state).1

after_open : VaultState
unfolding after_deposit
after_open = (open_channel_with_id (pos 5) channel_key client provider 50 after_deposit).1

after_request : VaultState
unfolding after_open
after_request = (submit_request (pos 10) channel_key request_key 30 (9 ∷ []) after_open).1

after_authorize : VaultState
unfolding after_request
after_authorize = (authorize_withdrawal withdrawal after_request).1

after_withdrawal : VaultState
unfolding after_authorize
after_withdrawal = (apply_withdrawal 1 after_authorize).1

fresh_Healthy : Healthy wide_machine two_points fresh_state
unfolding All IsBacked held locked_at get measure sum
fresh_Healthy = record { sound = tt; backed = λ o. omega arith }

trace : Run wide_machine two_points fresh_state after_withdrawal 100 20
unfolding after_withdrawal apply_deposit open_channel_with_id reserve_balance lock_funds
    submit_request authorize_withdrawal apply_withdrawal get insert remove bytes_eq checked_add
    checked_add_i64 contains
trace =
    then_step
      (then_step
        (then_step
          (then_step (then_step start (deposited client 100 refl))
            (channel_opened (pos 5) channel_key client provider 50 refl refl))
          (request_submitted (pos 10) channel_key request_key 30 (9 ∷ []) refl))
        (authorized withdrawal refl refl))
      (withdrawn 1 withdrawal refl)

Run-Healthy_example :
    Healthy wide_machine two_points after_withdrawal
    × (liabilities after_withdrawal + 20 ≡ liabilities fresh_state + 100)
Run-Healthy_example =
    Run-Healthy wide_machine two_points fresh_state after_withdrawal 100 20 fresh_Healthy trace

idle_AllSound : AllSound wide_machine two_points (with_channel idle_channel)
unfolding All
idle_AllSound = (idle refl refl refl, tt)

submitted_state : VaultState
submitted_state =
    (submit_request (pos 10) channel_key request_key 30 (9 ∷ []) (with_channel idle_channel)).1

submits :
    submit_request (pos 10) channel_key request_key 30 (9 ∷ []) (with_channel idle_channel)
    ≡ (ok tt, submitted_state)
unfolding submitted_state submit_request get insert bytes_eq checked_add checked_add_i64 contains
submits = refl

submit_request_once_example :
    submit_request (pos 300) channel_key request_key 5 [] submitted_state ≢ (ok tt, fresh_state)
submit_request_once_example =
    submit_request_once wide_machine two_points (pos 10) (pos 300) channel_key request_key 30 5
      (9 ∷ []) [] (with_channel idle_channel) submitted_state submitted_state fresh_state
      idle_AllSound submits here

rollback_submit_request-submit_request_example :
    rollback_submit_request (pos 11) channel_key request_key submitted_state
    ≡ (ok tt, touched (with_channel idle_channel) channel_key idle_channel (pos 11))
unfolding get bytes_eq
rollback_submit_request-submit_request_example =
    rollback_submit_request-submit_request wide_machine two_points (pos 10) (pos 11) channel_key
      request_key 30 (9 ∷ []) (with_channel idle_channel) submitted_state idle_channel idle_AllSound
      refl (omega arith) submits

-- The submission is taken back, and made again.
again_state : VaultState
again_state =
    (submit_request (pos 12) channel_key request_key 30 (9 ∷ [])
      (touched (with_channel idle_channel) channel_key idle_channel (pos 11))).1

submits_again :
    submit_request
      (pos 12)
      channel_key
      request_key
      30
      (9 ∷ [])
      (touched (with_channel idle_channel) channel_key idle_channel (pos 11))
    ≡ (ok tt, again_state)
unfolding again_state submit_request get insert bytes_eq checked_add checked_add_i64 contains
submits_again = refl

Session-Lasts_example : Lasts wide_machine two_points channel_key idle_channel again_state
unfolding get bytes_eq
Session-Lasts_example =
    Session-Lasts wide_machine two_points channel_key (with_channel idle_channel) again_state
      idle_channel refl (idle refl refl refl)
      (step
        (taken_back here (
          submission (pos 10) (pos 11) request_key request_key 30 (9 ∷ []) submitted_state submits
            rollback_submit_request-submit_request_example))
        (submit_request-Steps wide_machine two_points (pos 12) channel_key request_key 30 (9 ∷ [])
          (touched (with_channel idle_channel) channel_key idle_channel (pos 11)) again_state
          submits_again))
