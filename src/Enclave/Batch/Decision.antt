-- ===== src/Enclave/Batch/Decision.antt =====
-- When a batch fires.
use privacy_x.Base.{ℕ, ◌≤◌, ◌<◌, ◌≡◌, ◌⊎◌, Option, none, ℤ, pos, ◌≤ℤ◌, arith}
use privacy_x.Enclave.Batch.{fire, after_jitter, decide_batch_action, max_settlement_delay_sec}

module _ (now elapsed window : ℤ) (count : ℕ) (age : ℤ) (deadline : Option ℤ) (jitter : ℤ)
    (least : ℕ) where
  -- A batch fires only for some provider, and only with the least number of providers or at the
  -- liveness ceiling; and at the ceiling it fires, whatever the window, the jitter and the number of
  -- providers, as long as there is one.
  pub decide_batch_action_fires :
      ((decide_batch_action now elapsed window count age deadline jitter least).0 ≡ fire
        → (0 < count) × ((least ≤ count) ⊎ (pos max_settlement_delay_sec ≤ℤ age)))
      × (0 < count
          → pos max_settlement_delay_sec ≤ℤ age
          → decide_batch_action now elapsed window count age deadline jitter least ≡ (fire, none))
  unfolding decide_batch_action after_jitter
  decide_batch_action_fires = (λ h. ground arith, λ some_provider late. ground arith)
