-- ===== src/Enclave/Channels/Machine.antt =====
-- A channel as a state machine: what each operation on one channel does when it succeeds.
use privacy_x.Base.{ℕ, ◌+◌, ◌-◌, ◌≤◌, ◌≡◌, true, false, some, ◌∷◌, Bytes, ℤ, ◌<ℤ◌, bytes_instance}
use privacy_x.Base.Table.{get, insert}
use privacy_x.Vault.Platform.{Platform}
use privacy_x.Enclave.State.{
  VaultState, ChannelId, open_, locked, pending, ChannelState, ChannelRequest, AdaptorPreSignature,
  AdaptedSignature, ChannelStatus,
}
use privacy_x.Enclave.Adaptor.{Curve, pre_verify, adapt, verify_adapted}
use privacy_x.Enclave.Channels.{contains, is_busy, submitted, released}
use privacy_x.Enclave.Channels.Finalize.{settled, payment_message}

abbrev pub after_submit :
    ChannelState → (rid : Bytes) (amount : ℕ) (hash : Bytes) (now expires_at : ℤ) → ChannelState
after_submit ch rid amount hash now expires_at = record ch {
  balance = record ch.balance {
    client_free = ch.balance.client_free - amount;
    client_locked = ch.balance.client_locked + amount;
  };
  status = locked;
  nonce = ch.nonce + 1;
  updated_at = now;
  used_request_ids = rid ∷ ch.used_request_ids;
  active_request = some (submitted rid amount hash now expires_at);
}

abbrev pub delivered :
    ChannelRequest
    → (point : Bytes) → AdaptorPreSignature
    → (encrypted hash key : Bytes) → ChannelRequest
delivered r point pre_sig encrypted hash key = record r {
  provider_pubkey = some key;
  adaptor_point = some point;
  provider_pre_sig = some pre_sig;
  encrypted_result = some encrypted;
  result_hash = some hash;
}

abbrev pub after_deliver : ChannelState → ChannelRequest → ℤ → ChannelState
after_deliver ch r now = record ch {
  active_request = some r;
  status = pending;
  nonce = ch.nonce + 1;
  updated_at = now;
}

pub data Deed : Type 0 where
  submitted_one delivered_one : Deed
  paid_one : ChannelRequest → Deed
  expired_one : ChannelStatus → ChannelRequest → Deed

module _ {Scalar Point : Type 0} (p : Platform) (c : Curve Scalar Point) where
  -- The secret of a request's adaptor point, by which its pre-signature becomes a signature of its
  -- provider over its payment message.
  pub record Unlocks (id : ChannelId) (r : ChannelRequest) (secret : Scalar) : Type 0 where
    pub pre_sig : AdaptorPreSignature
    pub point_bytes : Bytes
    pub point : Point
    pub key : Bytes
    pub sig : AdaptedSignature
    pub pre_sig_at : r.provider_pre_sig ≡ some pre_sig
    pub point_at : r.adaptor_point ≡ some point_bytes
    pub decompressed : c.decompress point_bytes ≡ some point
    pub key_at : r.provider_pubkey ≡ some key
    pub opens : c.point_eq point (c.mul_base secret) ≡ true
    pub adapts : adapt c pre_sig secret point ≡ some sig
    pub signed : verify_adapted c key (payment_message p id r) sig ≡ true

  -- What one operation makes of a channel.
  pub data Next (ch ch' : ChannelState) : Type 0 where
    submit :
        (rid : Bytes) (amount : ℕ) (hash : Bytes) (now expires_at : ℤ)
        → ch.status ≡ open_
        → contains rid ch.used_request_ids ≡ false
        → amount ≤ ch.balance.client_free
        → ch' ≡ after_submit ch rid amount hash now expires_at
        → Next ch ch'
    deliver :
        (r : ChannelRequest) (point : Bytes) (t : Point) (pre_sig : AdaptorPreSignature)
        (encrypted hash key : Bytes) (now : ℤ)
        → ch.status ≡ locked
        → ch.active_request ≡ some r
        → c.decompress point ≡ some t
        → pre_verify c key (payment_message p ch.channel_id r) t pre_sig ≡ true
        → ch' ≡ after_deliver ch (delivered r point pre_sig encrypted hash key) now
        → Next ch ch'
    finalize :
        (r : ChannelRequest) (secret : Scalar) (locked_left : ℕ) (now : ℤ)
        → ch.status ≡ pending
        → ch.active_request ≡ some r
        → Unlocks ch.channel_id r secret
        → locked_left + r.amount ≡ ch.balance.client_locked
        → ch' ≡ settled ch locked_left (ch.balance.provider_earned + r.amount) (ch.nonce + 1) now
        → Next ch ch'
    expire :
        (r : ChannelRequest) (now : ℤ)
        → is_busy ch.status ≡ true
        → ch.active_request ≡ some r
        → r.expires_at <ℤ now
        → ch' ≡ released ch r.amount (ch.balance.client_free + r.amount) (ch.nonce + 1) now
        → Next ch ch'

  -- Which operation a step is, with the request that it takes away.
  unfoldable pub deed_of : (ch : ChannelState) {ch' : ChannelState} → Next ch ch' → Deed
  deed_of ch (submit rid amount hash now x o f e a) = submitted_one
  deed_of ch (deliver r point t s x hash key now l a d v e) = delivered_one
  deed_of ch (finalize r secret left now s a u l e) = paid_one r
  deed_of ch (expire r now b a late e) = expired_one ch.status r

  -- An operation that has changed one channel, and nothing else of the state.
  pub record Steps (id : ChannelId) (v v' : VaultState) : Type 0 where
    pub before : ChannelState
    pub after : ChannelState
    pub at : get v.active_channels id ≡ some before
    pub next : Next before after
    pub rest : v' ≡ record v { active_channels = insert v.active_channels id after }

  -- A step that is a given operation.
  abbrev pub Does : ChannelId → (v v' : VaultState) → Deed → Type 0
  Does id v v' d = (s : Steps id v v') × (deed_of s.before s.next ≡ d)
