-- ===== src/Vault/Tests/Machine.antt =====
-- A concrete platform: a token program on a table, addresses that are their seeds, and readers for
-- the arguments of the other half of a batch.
use privacy_x.Base.{
  ◌+◌, ◌-◌, ◌≤◌, ◌≡◌, ◌≢◌, refl, sym, Option, some, none, [], ◌∷◌, concat, take, drop, leb,
  u64_of_bytes, replicate, arith, if◌then◌else◌, pos,
}
use privacy_x.Base.Store.{put, put_self, put_ne}
use privacy_x.Vault.State.{Pubkey, TokenAccount, Tokens}
use privacy_x.Vault.Platform.{Platform, TokenTransfer, TransferLaws, AuditRecordData, balance}

moved : Tokens → TokenTransfer → Option TokenAccount → Option TokenAccount → Option Tokens
moved t x (some f) (some g) =
    if leb x.amount f.amount
    then some (
        put (put t x.from (record f { amount = f.amount - x.amount })) x.to
          (record g { amount = g.amount + x.amount }))
    else none
moved t x _ _ = none

unfoldable pub transfer : Tokens → TokenTransfer → Option Tokens
unfolding moved
transfer t x = moved t x (t x.from) (t x.to)

-- What a transfer that succeeds has read and written.
record Moved (t t' : Tokens) (x : TokenTransfer) : Type 0 where
  f : TokenAccount
  g : TokenAccount
  f_at : t x.from ≡ some f
  g_at : t x.to ≡ some g
  funded : x.amount ≤ f.amount
  after :
      t'
      ≡ put
          (put t x.from (record f { amount = f.amount - x.amount }))
          x.to
          (record g { amount = g.amount + x.amount })

transfer-Moved : (t t' : Tokens) (x : TokenTransfer) → transfer t x ≡ some t' → Moved t t' x
unfolding transfer
transfer-Moved t t' x h = ground arith

abbrev pub sample_audit : AuditRecordData
sample_audit = record {
  encrypted_sender = replicate 64 1;
  encrypted_amount = replicate 64 2;
  provider = 7 ∷ [];
  timestamp = pos 100;
}

abbrev pub machine : Platform
machine = record {
  program_id = 100 ∷ [];
  ed25519_program_id = 101 ∷ [];
  sha256 = take 8;
  find_program_address = λ seeds. (concat seeds, 254);
  token_transfer = transfer;
  read_u64 = λ xs. some (u64_of_bytes (take 8 xs), drop 8 xs);
  read_hash = λ xs. some (take 8 xs, drop 8 xs);
  read_audit_records = λ xs. some (sample_audit ∷ [], []);
  read_settlements = λ xs. some ([], []);
}

pub machine_laws : TransferLaws machine
unfolding balance
machine_laws = record {
  funded =
      λ t t' x h. let m = transfer-Moved t t' x h in let a = m.f_at in let b = m.funded in rw a b;
  debits = λ t t' x h ne. let m = transfer-Moved t t' x h in debited t t' x m ne;
  credits = λ t t' x h ne. let m = transfer-Moved t t' x h in credited t t' x m;
  leaves_others = λ t t' x k h nf nt. kept t t' x (transfer-Moved t t' x h) k nf nt;
}
  where
    debited :
        (t t' : Tokens) (x : TokenTransfer)
        → Moved t t' x
        → x.from ≢ x.to
        → balance t' x.from ≡ balance t x.from - x.amount
    debited t t' x m ne =
        rw (m.after, put_ne _ x.to x.from _ (λ e. ne (sym e)), put_self, m.f_at) refl

    credited :
        (t t' : Tokens) (x : TokenTransfer)
        → Moved t t' x
        → balance t' x.to ≡ balance t x.to + x.amount
    credited t t' x m = rw (m.after, put_self, m.g_at) refl

    kept :
        (t t' : Tokens) (x : TokenTransfer)
        → Moved t t' x
        → (k : Pubkey) → k ≢ x.from
        → k ≢ x.to
        → t' k ≡ t k
    kept t t' x m k nf nt =
        rw (m.after, put_ne _ x.to k _ (λ e. nt (sym e)), put_ne _ x.from k _ (λ e. nf (sym e)))
          refl
