-- ===== src/Vault/ForceSettle/Checks.antt =====
-- What the checks of a receipt and of a request establish.
use privacy_x.Base.{
  ℕ, ◌<◌, ◌≡◌, true, false, bytes_eq, eq_of_bytes_eq, ok, on_bind, on_ok_or, on_require,
  ok-injective, sym, not-eq-true, ◌==◌, ==_iff, ℤ, pos, ◌+ℤ◌, ◌≤ℤ◌, leb_ℤ, leb_ℤ→≤ℤ, eqb_ℤ,
  eqb_ℤ_iff, checked_add_i64, checked_add_i64-eq-some, ltb, ltb→lt, not, some, none,
}
use privacy_x.Vault.State.{
  Pubkey, VaultConfig, vault_config, ForceSettleRequest, force_settle_request, Chain, save,
  load_vault_config, load_vault_config-eq-ok, load_force_settle_request,
  load_force_settle_request-eq-ok, dispute_window_sec,
}
use privacy_x.Vault.Platform.{Platform, Env, init_account, init_account-eq-ok}
use privacy_x.Vault.Ed25519.{verify_ed25519_signature_details}
use privacy_x.Vault.Receipt.{ParticipantReceiptMessage, decode_participant_receipt_message}
use privacy_x.Vault.ForceSettle.{
  ReceiptArgs, receipt_matches, check_receipt, force_settle_init, force_settle_challenge,
  force_settle_seeds,
}

-- The arguments are those of a receipt that the vault's signer has signed, for this participant at
-- this vault.
pub record SignedReceipt (p : Platform) (e : Env) (config : VaultConfig) (participant : Pubkey)
    (kind : ℕ) (r : ReceiptArgs) (vault : Pubkey) : Type 0 where
  pub signature_is :
      verify_ed25519_signature_details p e config.vault_signer_pubkey
      ≡ ok (record { signature = r.receipt_signature; message = r.receipt_message })
  pub decoded : ParticipantReceiptMessage
  pub decoded_is : decode_participant_receipt_message r.receipt_message ≡ ok decoded
  pub participant_is : decoded.participant ≡ participant
  pub kind_is : decoded.participant_kind ≡ kind
  pub recipient_is : decoded.recipient_ata ≡ r.recipient_ata
  pub free_is : decoded.free_balance ≡ r.free_balance
  pub locked_is : decoded.locked_balance ≡ r.locked_balance
  pub lock_is : decoded.max_lock_expires_at ≡ r.max_lock_expires_at
  pub nonce_is : decoded.nonce ≡ r.receipt_nonce
  pub vault_is : decoded.vault_config ≡ vault

pub check_receipt-SignedReceipt :
    (p : Platform) (e : Env) (config : VaultConfig) (participant : Pubkey) (kind : ℕ)
    (r : ReceiptArgs) (vault : Pubkey)
    → check_receipt p e config participant kind r vault ≡ ok tt
    → SignedReceipt p e config participant kind r vault
unfolding check_receipt receipt_matches
check_receipt-SignedReceipt p e config participant kind r vault h0 =
    on_bind (verify_ed25519_signature_details p e config.vault_signer_pubkey) _ h0 λ v e0 h1.
      on_require (bytes_eq v.message r.receipt_message) _ _ h1 λ g1 h2.
        on_require (bytes_eq v.signature r.receipt_signature) _ _ h2 λ g2 h3.
          on_bind (decode_participant_receipt_message r.receipt_message) _ h3 λ d e3 h4.
            on_require (bytes_eq d.participant participant) _ _ h4 λ g4 h5.
              on_require (d.participant_kind == kind) _ _ h5 λ g5 h6.
                on_require (bytes_eq d.recipient_ata r.recipient_ata) _ _ h6 λ g6 h7.
                  on_require (d.free_balance == r.free_balance) _ _ h7 λ g7 h8.
                    on_require (d.locked_balance == r.locked_balance) _ _ h8 λ g8 h9.
                      on_require (eqb_ℤ d.max_lock_expires_at r.max_lock_expires_at) _ _ h9
                        λ g9 h10. on_require (d.nonce == r.receipt_nonce) _ _ h10 λ g10 h11.
                          on_require (bytes_eq d.vault_config vault) _ _ h11 λ g11 h12.
                            let m : v.message ≡ r.receipt_message =
                              eq_of_bytes_eq v.message r.receipt_message g1 in
                            let s : v.signature ≡ r.receipt_signature =
                              eq_of_bytes_eq v.signature r.receipt_signature g2 in
                            record {
                              signature_is = cc;
                              decoded = d;
                              decoded_is = e3;
                              participant_is = eq_of_bytes_eq d.participant participant g4;
                              kind_is = (==_iff d.participant_kind kind).0 g5;
                              recipient_is = eq_of_bytes_eq d.recipient_ata r.recipient_ata g6;
                              free_is = (==_iff d.free_balance r.free_balance).0 g7;
                              locked_is = (==_iff d.locked_balance r.locked_balance).0 g8;
                              lock_is =
                                  (eqb_ℤ_iff d.max_lock_expires_at r.max_lock_expires_at).0 g9;
                              nonce_is = (==_iff d.nonce r.receipt_nonce).0 g10;
                              vault_is = eq_of_bytes_eq d.vault_config vault g11;
                            }

-- A request that was opened.
pub record Opened (p : Platform) (e : Env) (participant vault : Pubkey) (kind : ℕ) (r : ReceiptArgs)
    (c c' : Chain) : Type 0 where
  pub config : VaultConfig
  pub deadline : ℤ
  pub config_at : c.accounts vault ≡ some (vault_config config)
  pub signed : e.is_signer participant ≡ true
  pub free :
      c.accounts (p.find_program_address (force_settle_seeds vault participant kind)).0 ≡ none
  pub receipt : SignedReceipt p e config participant kind r vault
  pub deadline_is : deadline ≡ e.clock +ℤ pos dispute_window_sec
  pub after :
      c'
      ≡ save c (p.find_program_address (force_settle_seeds vault participant kind)).0 (
          force_settle_request (record {
            bump = (p.find_program_address (force_settle_seeds vault participant kind)).1;
            vault = vault;
            participant = participant;
            participant_kind = kind;
            recipient_ata = r.recipient_ata;
            free_balance_due = r.free_balance;
            locked_balance_due = r.locked_balance;
            max_lock_expires_at = r.max_lock_expires_at;
            receipt_nonce = r.receipt_nonce;
            receipt_signature = r.receipt_signature;
            initiated_at = e.clock;
            dispute_deadline = deadline;
            is_resolved = false;
          }))

-- A request that is opened was signed by its participant, and the vault's signer had signed the
-- receipt message, which says what the arguments say of this participant, kind and vault; its
-- address was free, and the new request holds those arguments with a dispute deadline one window
-- after the clock.
pub force_settle_init-Opened :
    (p : Platform) (e : Env) (participant vault : Pubkey) (kind : ℕ) (r : ReceiptArgs)
    (c c' : Chain)
    → force_settle_init p e participant vault kind r c ≡ ok c'
    → Opened p e participant vault kind r c c'
unfolding force_settle_init
force_settle_init-Opened p e participant vault kind r c c' h0 =
    let pda = p.find_program_address (force_settle_seeds vault participant kind) in
    on_require (e.is_signer participant) _ _ h0 λ g0 h1.
      on_bind (load_vault_config c vault) _ h1 λ config e1 h2.
        on_bind (init_account e c pda.0) _ h2 λ u e2 h3.
          on_bind (check_receipt p e config participant kind r vault) _ h3 λ u' e3 h4.
            on_ok_or (checked_add_i64 e.clock (pos dispute_window_sec)) _ _ h4 λ deadline e4 h5.
              record {
                config = config;
                deadline = deadline;
                config_at = load_vault_config-eq-ok c vault e1;
                signed = g0;
                free = (init_account-eq-ok e c pda.0 e2).0;
                receipt = check_receipt-SignedReceipt p e config participant kind r vault e3;
                deadline_is = checked_add_i64-eq-some e.clock (pos dispute_window_sec) e4;
                after = sym (ok-injective h5);
              }

-- A request that a newer receipt has replaced.
abbrev pub replaced : ForceSettleRequest → ReceiptArgs → ForceSettleRequest
replaced request r = record request {
  recipient_ata = r.recipient_ata;
  free_balance_due = r.free_balance;
  locked_balance_due = r.locked_balance;
  max_lock_expires_at = r.max_lock_expires_at;
  receipt_nonce = r.receipt_nonce;
  receipt_signature = r.receipt_signature;
}

pub record Challenged (p : Platform) (e : Env) (vault key : Pubkey) (r : ReceiptArgs) (c c' : Chain)
    : Type 0 where
  pub config : VaultConfig
  pub request : ForceSettleRequest
  pub config_at : c.accounts vault ≡ some (vault_config config)
  pub request_at : c.accounts key ≡ some (force_settle_request request)
  pub of_vault : request.vault ≡ vault
  pub unresolved : request.is_resolved ≡ false
  pub in_window : e.clock ≤ℤ request.dispute_deadline
  pub newer : request.receipt_nonce < r.receipt_nonce
  pub receipt : SignedReceipt p e config request.participant request.participant_kind r vault
  pub after : c' ≡ save c key (force_settle_request (replaced request r))

-- A challenge that succeeds finds an unresolved request of this vault within its dispute window
-- and replaces its receipt by one with a higher nonce that the vault's signer has signed for the
-- same participant and kind; nothing else of the chain changes.
pub force_settle_challenge-Challenged :
    (p : Platform) (e : Env) (challenger vault key : Pubkey) (r : ReceiptArgs) (c c' : Chain)
    → force_settle_challenge p e challenger vault key r c ≡ ok c'
    → Challenged p e vault key r c c'
unfolding force_settle_challenge
force_settle_challenge-Challenged p e challenger vault key r c c' h0 =
    on_require (e.is_signer challenger) _ _ h0 λ g0 h1.
      on_bind (load_vault_config c vault) _ h1 λ config e1 h2.
        on_bind (load_force_settle_request c key) _ h2 λ q e2 h3.
          on_require (bytes_eq q.vault vault) _ _ h3 λ g3 h4.
            on_require (not q.is_resolved) _ _ h4 λ g4 h5.
              on_require (leb_ℤ e.clock q.dispute_deadline) _ _ h5 λ g5 h6.
                on_require (ltb q.receipt_nonce r.receipt_nonce) _ _ h6 λ g6 h7.
                  on_bind (check_receipt p e config q.participant q.participant_kind r vault) _ h7
                    λ u e7 h8. record {
                      config = config;
                      request = q;
                      config_at = load_vault_config-eq-ok c vault e1;
                      request_at = load_force_settle_request-eq-ok c key e2;
                      of_vault = eq_of_bytes_eq q.vault vault g3;
                      unresolved = not-eq-true q.is_resolved g4;
                      in_window = leb_ℤ→≤ℤ e.clock q.dispute_deadline g5;
                      newer = ltb→lt q.receipt_nonce r.receipt_nonce g6;
                      receipt =
                          check_receipt-SignedReceipt p e config q.participant q.participant_kind r
                            vault e7;
                      after = sym (ok-injective h8);
                    }
