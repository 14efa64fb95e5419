-- ===== src/Enclave/Channels/Invariant.antt =====
-- The invariant of a channel, and what each step of its machine keeps and moves.
use privacy_x.Base.{◌+◌, ◌≤◌, ◌≡◌, refl, sym, subst, true, none, some, Bytes, arith}
use privacy_x.Vault.Platform.{Platform}
use privacy_x.Enclave.State.{
  ChannelId, ChannelState, ChannelRequest, AdaptorPreSignature, open_, locked, pending,
}
use privacy_x.Enclave.Adaptor.{Curve, pre_verify}
use privacy_x.Enclave.Books.{channel_total}
use privacy_x.Enclave.Channels.{contains}
use privacy_x.Enclave.Channels.Finalize.{payment_message}
use privacy_x.Enclave.Channels.Machine.{Next, submit, deliver, finalize, expire, delivered}

module _ {Scalar Point : Type 0} (p : Platform) (c : Curve Scalar Point) where
  -- A request whose pre-signature has been delivered and verified.
  pub record Delivered (id : ChannelId) (r : ChannelRequest) : Type 0 where
    pub pre_sig : AdaptorPreSignature
    pub point_bytes : Bytes
    pub point : Point
    pub key : Bytes
    pub encrypted : Bytes
    pub hash : Bytes
    pub pre_sig_at : r.provider_pre_sig ≡ some pre_sig
    pub point_at : r.adaptor_point ≡ some point_bytes
    pub decompressed : c.decompress point_bytes ≡ some point
    pub key_at : r.provider_pubkey ≡ some key
    pub encrypted_at : r.encrypted_result ≡ some encrypted
    pub hash_at : r.result_hash ≡ some hash
    pub verified : pre_verify c key (payment_message p id r) point pre_sig ≡ true

  -- Open without a request and nothing locked; or locked with the amount of the request that is under
  -- way; or pending with that and a verified delivery.
  pub data IsSound (ch : ChannelState) : Type 0 where
    idle : ch.status ≡ open_ → ch.active_request ≡ none → ch.balance.client_locked ≡ 0 → IsSound ch
    waiting :
        (r : ChannelRequest)
        → ch.status ≡ locked
        → ch.active_request ≡ some r
        → ch.balance.client_locked ≡ r.amount
        → IsSound ch
    ready :
        (r : ChannelRequest)
        → ch.status ≡ pending
        → ch.active_request ≡ some r
        → ch.balance.client_locked ≡ r.amount
        → Delivered ch.channel_id r
        → IsSound ch

  -- A sound channel with a request under way has its amount locked.
  pub locked_amount :
      (ch : ChannelState) (r : ChannelRequest)
      → IsSound ch
      → ch.active_request ≡ some r
      → ch.balance.client_locked ≡ r.amount
  locked_amount ch r (idle s a l) e = absurd (cc)
  locked_amount ch r (waiting q s a l) e = cc
  locked_amount ch r (ready q s a l d) e = cc

  pub nothing_locked :
      (ch : ChannelState) → IsSound ch → ch.status ≡ open_ → ch.balance.client_locked ≡ 0
  nothing_locked ch (idle s a l) e = l
  nothing_locked ch (waiting q s a l) e = absurd (cc)
  nothing_locked ch (ready q s a l d) e = absurd (cc)

  pub Next-IsSound : (ch ch' : ChannelState) → IsSound ch → Next p c ch ch' → IsSound ch'
  Next-IsSound ch ch' s (submit rid amount hash now x open_now new enough after) =
      let zero = nothing_locked ch s open_now in
      subst IsSound (sym after) (waiting _ refl refl (omega arith))
  Next-IsSound ch ch' s (deliver r point t pre_sig encrypted hash key now st at dec ver after) =
      subst IsSound (sym after) (
        ready (delivered r point pre_sig encrypted hash key) refl refl (locked_amount ch r s at)
          (record {
            pre_sig = pre_sig;
            point_bytes = point;
            point = t;
            key = key;
            encrypted = encrypted;
            hash = hash;
            pre_sig_at = refl;
            point_at = refl;
            decompressed = dec;
            key_at = refl;
            encrypted_at = refl;
            hash_at = refl;
            verified = ver;
          }))
  Next-IsSound ch ch' s (finalize r secret left now st at u l after) =
      let all = locked_amount ch r s at in subst IsSound (sym after) (idle refl refl (omega arith))
  Next-IsSound ch ch' s (expire r now busy at late after) =
      let all = locked_amount ch r s at in subst IsSound (sym after) (idle refl refl (omega arith))

  -- What a step leaves alone, and what it adds up.
  pub record Kept (ch ch' : ChannelState) : Type 0 where
    pub same_id : ch'.channel_id ≡ ch.channel_id
    pub same_client : ch'.client ≡ ch.client
    pub same_provider : ch'.provider_id ≡ ch.provider_id
    pub same_total : channel_total ch' ≡ channel_total ch
    pub earned_grows : ch.balance.provider_earned ≤ ch'.balance.provider_earned
    pub next_nonce : ch'.nonce ≡ ch.nonce + 1
    pub still_used :
        (rid : Bytes)
        → contains rid ch.used_request_ids ≡ true
        → contains rid ch'.used_request_ids ≡ true

  pub Next-Kept : (ch ch' : ChannelState) → IsSound ch → Next p c ch ch' → Kept ch ch'
  unfolding contains
  Next-Kept ch ch' s (submit rid amount hash now x open_now new enough after) =
      subst (Kept ch) (sym after) (record {
        same_id = refl;
        same_client = refl;
        same_provider = refl;
        same_total = omega arith;
        earned_grows = omega arith;
        next_nonce = refl;
        still_used = λ id used. ground (arith, used);
      })
  Next-Kept ch ch' s (deliver r point t pre_sig encrypted hash key now st at dec ver after) =
      subst (Kept ch) (sym after) (record {
        same_id = refl;
        same_client = refl;
        same_provider = refl;
        same_total = refl;
        earned_grows = omega arith;
        next_nonce = refl;
        still_used = λ id used. used;
      })
  Next-Kept ch ch' s (finalize r secret left now st at u l after) =
      subst (Kept ch) (sym after) (record {
        same_id = refl;
        same_client = refl;
        same_provider = refl;
        same_total = omega arith;
        earned_grows = omega arith;
        next_nonce = refl;
        still_used = λ id used. used;
      })
  Next-Kept ch ch' s (expire r now busy at late after) =
      let all = locked_amount ch r s at in
      subst (Kept ch) (sym after) (record {
        same_id = refl;
        same_client = refl;
        same_provider = refl;
        same_total = omega arith;
        earned_grows = omega arith;
        next_nonce = refl;
        still_used = λ id used. used;
      })
