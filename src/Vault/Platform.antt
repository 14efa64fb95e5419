-- ===== src/Vault/Platform.antt =====
-- What the program calls and does not contain: the Solana runtime, Anchor, the SPL token program,
-- SHA-256 and Borsh. They are parameters; the laws that a theorem needs of them are below.
use privacy_x.Base.{
  ℕ, ◌+◌, ◌-◌, ◌≤◌, ◌≡◌, ◌≢◌, ap, Bool, true, false, ◌&&◌, Option, none, some, List, Bytes, ℤ,
  Result, require, ok, err, arith,
}
use privacy_x.Vault.Error.{ProgramError, account_in_use}
use privacy_x.Vault.State.{Pubkey, Tokens, TokenAccount, Chain}

-- `AuditRecordData` of instructions/record_audit.rs and `SettlementEntry` of settle_vault.rs.
pub record AuditRecordData : Type 0 where
  pub encrypted_sender : Bytes
  pub encrypted_amount : Bytes
  pub provider : Pubkey
  pub timestamp : ℤ

pub record SettlementEntry : Type 0 where
  pub provider_token_account : Pubkey
  pub amount : ℕ

-- An instruction of the transaction, as the instructions sysvar returns it.
pub record Instruction : Type 0 where
  pub program_id : Pubkey
  pub accounts : List Pubkey
  pub ix_data : Bytes

-- A call of `token::transfer`; the seeds let a program address sign.
pub record TokenTransfer : Type 0 where
  pub from : Pubkey
  pub to : Pubkey
  pub authority : Pubkey
  pub signer_seeds : List Bytes
  pub amount : ℕ

pub record Platform : Type 0 where
  pub program_id : Pubkey
  pub ed25519_program_id : Pubkey
  pub sha256 : Bytes → Bytes
  -- `Pubkey::find_program_address`: the address and its bump.
  pub find_program_address : List Bytes → Pubkey × ℕ
  pub token_transfer : Tokens → TokenTransfer → Option Tokens
  -- Borsh: the value at the head of the input, and the rest.
  pub read_u64 : Bytes → Option (ℕ × Bytes)
  pub read_hash : Bytes → Option (Bytes × Bytes)
  pub read_audit_records : Bytes → Option (List AuditRecordData × Bytes)
  pub read_settlements : Bytes → Option (List SettlementEntry × Bytes)

-- What the runtime gives to one instruction.
pub record Env : Type 0 where
  pub clock : ℤ
  pub is_signer : Pubkey → Bool
  pub is_mint : Pubkey → Bool
  -- Whether the system program can fund and allocate an account.
  pub can_create : Pubkey → Bool
  -- `load_current_index_checked` and `load_instruction_at_checked` on the instructions sysvar.
  pub current_index : Option ℕ
  pub instruction_at : ℕ → Option Instruction

is_none {ℓ} : {A : Type ℓ} → Option A → Bool
is_none none = true
is_none (some a) = false

-- `init`: the address must be free, and the system program must create the account.
unfoldable pub init_account : Env → Chain → Pubkey → Result ProgramError (Unit {0})
unfolding is_none
init_account e c k =
    require (is_none (c.accounts k) && is_none (c.tokens k) && e.can_create k) account_in_use

pub init_account-eq-ok :
    (e : Env) (c : Chain) (k : Pubkey)
    → init_account e c k ≡ ok tt
    → (c.accounts k ≡ none) × (c.tokens k ≡ none)
unfolding init_account
init_account-eq-ok e c k h = ground arith

pub init_account_taken :
    (e : Env) (c : Chain) (k : Pubkey)
    → c.accounts k ≢ none
    → init_account e c k ≡ err account_in_use
unfolding init_account
init_account_taken e c k h = ground arith

-- The balance of a token account; an account that is not there holds nothing.
holding : Option TokenAccount → ℕ
holding none = 0
holding (some a) = a.amount

unfoldable pub balance : Tokens → Pubkey → ℕ
unfolding holding
balance t k = holding (t k)

pub balance_of_eq : (t t' : Tokens) (k : Pubkey) → t' k ≡ t k → balance t' k ≡ balance t k
unfolding balance
balance_of_eq t t' k e = ap holding e

-- What the SPL token program documents of a transfer that succeeds.
pub record TransferLaws (p : Platform) : Type 0 where
  pub funded :
      (t t' : Tokens) (x : TokenTransfer)
      → p.token_transfer t x ≡ some t'
      → x.amount ≤ balance t x.from
  pub debits :
      (t t' : Tokens) (x : TokenTransfer)
      → p.token_transfer t x ≡ some t'
      → x.from ≢ x.to
      → balance t' x.from ≡ balance t x.from - x.amount
  pub credits :
      (t t' : Tokens) (x : TokenTransfer)
      → p.token_transfer t x ≡ some t'
      → x.from ≢ x.to
      → balance t' x.to ≡ balance t x.to + x.amount
  pub leaves_others :
      (t t' : Tokens) (x : TokenTransfer) (k : Pubkey)
      → p.token_transfer t x ≡ some t'
      → k ≢ x.from
      → k ≢ x.to
      → t' k ≡ t k
