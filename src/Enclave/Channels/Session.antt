-- ===== src/Enclave/Channels/Session.antt =====
-- The life of one channel, and the requests that it takes no second time.
use privacy_x.Base.{
  pos, checked_add_i64, ℕ, ◌-◌, ◌≤◌, ◌≡◌, ◌≢◌, refl, sym, ap, subst, true, not, some, ok, ◌∷◌,
  Bytes, bytes_eq_refl, bytes_instance, ℤ, arith, leb, checked_add, ◌∙◌, List,
}
use privacy_x.Base.Table.{get, get-insert_self, All-get}
use privacy_x.Vault.Platform.{Platform}
use privacy_x.Enclave.State.{VaultState, ChannelId, ChannelState, open_, locked, eqb_status}
use privacy_x.Enclave.Action.{on_some, on_check, result_state}
use privacy_x.Enclave.Adaptor.{Curve}
use privacy_x.Enclave.Books.{channel_total}
use privacy_x.Enclave.Channels.{contains, submitted, submit_request, request_expiry_sec}
use privacy_x.Enclave.Channels.Calls.{submit_request-Steps}
use privacy_x.Enclave.Channels.Accounts.{AllSound, Steps-AllSound}
use privacy_x.Enclave.Channels.Machine.{Steps}
use privacy_x.Enclave.Channels.TakenBack.{TakenBack, TakenBack-Left}
use privacy_x.Enclave.Channels.Invariant.{IsSound, Next-IsSound, Next-Kept}

module _ {Scalar Point : Type 0} (p : Platform) (c : Curve Scalar Point) (id : ChannelId) where
  -- What follows while a channel stays open: a submission, delivery, finalization or expiry on it
  -- succeeds; one succeeds and is taken back at once; or something happens that leaves it alone.
  -- The replay of the log, before the enclave serves, is not part of this.
  pub data Session (v : VaultState) : VaultState → Type 0 where
    here : Session v v
    step : {u w : VaultState} → Session v u → Steps p c id u w → Session v w
    taken_back : {u w : VaultState} → Session v u → TakenBack p c id u w → Session v w
    around :
        {u w : VaultState}
        → Session v u
        → get w.active_channels id ≡ get u.active_channels id
        → Session v w

  -- What has become of a channel.
  pub record Lasts (ch : ChannelState) (u : VaultState) : Type 0 where
    pub after : ChannelState
    pub at : get u.active_channels id ≡ some after
    pub sound : IsSound p c after
    pub same_client : after.client ≡ ch.client
    pub same_provider : after.provider_id ≡ ch.provider_id
    pub same_total : channel_total after ≡ channel_total ch
    pub earned_grows : ch.balance.provider_earned ≤ after.balance.provider_earned
    pub nonce_grows : ch.nonce ≤ after.nonce
    pub still_used :
        (rid : Bytes)
        → contains rid ch.used_request_ids ≡ true
        → contains rid after.used_request_ids ≡ true

  Lasts-one_more :
      (ch : ChannelState) (u w : VaultState) → Lasts ch u → Steps p c id u w → Lasts ch w
  Lasts-one_more ch u w l s =
      let same : l.after ≡ s.before = cc (l.at, s.at) in
      let sound = subst (IsSound p c) same l.sound in
      let k = Next-Kept p c s.before s.after sound s.next in
      record {
        after = s.after;
        at =
            subst (λ (x : VaultState). get x.active_channels id ≡ some s.after) (sym s.rest)
              (get-insert_self u.active_channels id s.after);
        sound = Next-IsSound p c s.before s.after sound s.next;
        same_client = cc (k.same_client, same, l.same_client);
        same_provider = cc (k.same_provider, same, l.same_provider);
        same_total = k.same_total ∙ ap channel_total (sym same) ∙ l.same_total;
        earned_grows =
            let e = ap (λ (x : ChannelState). x.balance.provider_earned) same in
            omega (arith, k.earned_grows, l.earned_grows, e);
        nonce_grows =
            let e = ap (λ (x : ChannelState). x.nonce) same in
            omega (arith, k.next_nonce, l.nonce_grows, e);
        still_used = λ rid used. k.still_used rid (
            subst (λ (x : ChannelState). contains rid x.used_request_ids ≡ true) same
              (l.still_used rid used));
      }

  Lasts-back :
      (ch : ChannelState) (u w : VaultState) → Lasts ch u → TakenBack p c id u w → Lasts ch w
  Lasts-back ch u w l t =
      let (back, at, b) = TakenBack-Left p c id u w l.after l.sound l.at t in
      record {
        after = back;
        at = at;
        sound = b.sound;
        same_client = b.same_client ∙ l.same_client;
        same_provider = b.same_provider ∙ l.same_provider;
        same_total = b.same_total ∙ l.same_total;
        earned_grows = omega (arith, b.same_earned, l.earned_grows);
        nonce_grows = omega (arith, b.same_nonce, l.nonce_grows);
        still_used = λ rid used.
            subst (λ ids. contains rid ids ≡ true) (sym b.same_ids) (l.still_used rid used);
      }

  -- Through any submissions, deliveries, finalizations and expiries on a sound channel that succeed,
  -- each of which may be taken back at once, and anything that leaves the channel alone: it stays
  -- sound; its client and its provider stay; what it holds in all stays the same; what the provider has
  -- earned and the nonce end no lower than they began; and no request identifier that it had taken at
  -- the beginning is forgotten.
  pub Session-Lasts :
      (v u : VaultState) (ch : ChannelState)
      → get v.active_channels id ≡ some ch
      → IsSound p c ch
      → Session v u
      → Lasts ch u
  Session-Lasts v u ch at sound here = record {
    after = ch;
    at = at;
    sound = sound;
    same_client = refl;
    same_provider = refl;
    same_total = refl;
    earned_grows = omega arith;
    nonce_grows = omega arith;
    still_used = λ rid used. used;
  }
  Session-Lasts v u ch at sound (step s n) =
      Lasts-one_more ch _ u (Session-Lasts v _ ch at sound s) n
  Session-Lasts v u ch at sound (taken_back s t) =
      Lasts-back ch _ u (Session-Lasts v _ ch at sound s) t
  Session-Lasts v u ch at sound (around s same) =
      let l = Session-Lasts v _ ch at sound s in
      record {
        after = l.after;
        at = same ∙ l.at;
        sound = l.sound;
        same_client = l.same_client;
        same_provider = l.same_provider;
        same_total = l.same_total;
        earned_grows = l.earned_grows;
        nonce_grows = l.nonce_grows;
        still_used = l.still_used;
      }

-- A request under an identifier that the channel has taken is not submitted.
refused :
    (now : ℤ) (id : ChannelId) (rid : Bytes) (amount : ℕ) (hash : Bytes) (v v' : VaultState)
    (ch : ChannelState)
    → get v.active_channels id ≡ some ch
    → contains rid ch.used_request_ids ≡ true
    → submit_request now id rid amount hash v ≢ (ok tt, v')
unfolding submit_request
refused now id rid amount hash v v' ch at used h =
    on_some (get v.active_channels id) _ _ h λ x e0 h0.
      on_check (eqb_status x.status open_) _ _ h0 λ g1 h1.
        on_check (not (contains rid x.used_request_ids)) _ _ h1 λ g2 h2.
          let same : x ≡ ch = cc (e0, at) in
          let again : contains rid x.used_request_ids ≡ true =
            subst (λ (y : ChannelState). contains rid y.used_request_ids ≡ true) (sym same) used in
          cc (g2, again)

taken_self : (rid : Bytes) (ids : List Bytes) → contains rid (rid ∷ ids) ≡ true
unfolding contains
taken_self rid ids = rw (bytes_eq_refl rid) refl

-- The channel after a submission has taken the identifier.
submit_request-takes :
    (now : ℤ) (id : ChannelId) (rid : Bytes) (amount : ℕ) (hash : Bytes) (v v' : VaultState)
    → submit_request now id rid amount hash v ≡ (ok tt, v')
    → (ch : ChannelState) × (get v'.active_channels id ≡ some ch)
      × (contains rid ch.used_request_ids ≡ true)
unfolding submit_request
submit_request-takes now id rid amount hash v v' h =
    on_some (get v.active_channels id) _ _ h λ ch e0 h0.
      on_check (eqb_status ch.status open_) _ _ h0 λ g1 h1.
        on_check (not (contains rid ch.used_request_ids)) _ _ h1 λ g2 h2.
          on_check (leb amount ch.balance.client_free) _ _ h2 λ g3 h3.
            on_some (checked_add ch.balance.client_locked amount) _ _ h3 λ l e4 h4.
              on_some (checked_add ch.nonce 1) _ _ h4 λ n e5 h5.
                on_some (checked_add_i64 now (pos request_expiry_sec)) _ _ h5 λ x e6 h6.
                  let taken : ChannelState = record ch {
                    balance = record ch.balance {
                      client_free = ch.balance.client_free - amount;
                      client_locked = l;
                    };
                    status = locked;
                    nonce = n;
                    updated_at = now;
                    used_request_ids = rid ∷ ch.used_request_ids;
                    active_request = some (submitted rid amount hash now x);
                  } in
                  (
                    taken,
                    subst (λ (u : VaultState). get u.active_channels id ≡ some taken)
                        (result_state h6) (get-insert_self v.active_channels id taken),
                    taken_self rid ch.used_request_ids,
                  )

module _ {Scalar Point : Type 0} (p : Platform) (c : Curve Scalar Point) where
  -- In a state whose channels are sound: once a request has been submitted to a channel, and is not
  -- itself taken back, then through any submissions, deliveries, finalizations and expiries on the
  -- channel that succeed, each of which may be taken back at once, and anything that leaves the channel
  -- alone, no second request with the same identifier is accepted.
  pub submit_request_once :
      (now now' : ℤ) (id : ChannelId) (rid : Bytes) (amount amount' : ℕ) (hash hash' : Bytes)
      (v v' u u' : VaultState)
      → AllSound p c v
      → submit_request now id rid amount hash v ≡ (ok tt, v')
      → Session p c id v' u
      → submit_request now' id rid amount' hash' u ≢ (ok tt, u')
  submit_request_once now now' id rid amount amount' hash hash' v v' u u' sound h s =
      let (ch, at, used) = submit_request-takes now id rid amount hash v v' h in
      let next = submit_request-Steps p c now id rid amount hash v v' h in
      let sound' = Steps-AllSound p c v v' id sound next in
      let l =
        Session-Lasts p c id v' u ch at (All-get (IsSound p c) v'.active_channels id ch sound' at)
          s in
      refused now' id rid amount' hash' u u' l.after l.at (l.still_used rid used)
