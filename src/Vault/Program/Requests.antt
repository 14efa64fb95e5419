-- ===== src/Vault/Program/Requests.antt =====
-- The life of a force-settle request along a run.
use privacy_x.Base.{
  ◌≤◌, ◌≡◌, refl, sym, ◌∙◌, subst, true, false, Option, some, ℤ, ◌≤ℤ◌, ◌<ℤ◌, arith,
}
use privacy_x.Vault.State.{Pubkey, ForceSettleRequest, force_settle_request, Account}
use privacy_x.Vault.Platform.{Platform}
use privacy_x.Vault.ForceSettle.{finalize_paid, finalize_nothing}
use privacy_x.Vault.ForceSettle.Payout.{due}
use privacy_x.Vault.Program.{World, Reach, here, next}
use privacy_x.Vault.Program.Evolution.{Evolves, RequestStep, SameRequest}
use privacy_x.Vault.Program.Frame.{Step-ChainEvolves}
use privacy_x.Vault.Program.Lifecycle.{step_forward}

-- What has become of a request, which was `r` at the time `start`.
pub record RequestHistory (start now : ℤ) (r r' : ForceSettleRequest) : Type 0 where
  pub same : SameRequest r r'
  pub nonce : r.receipt_nonce ≤ r'.receipt_nonce
  pub final : r.is_resolved ≡ true → r' ≡ r
  pub no_replacement :
      r.dispute_deadline <ℤ start
      → (r'.receipt_nonce ≡ r.receipt_nonce)
        × (r'.recipient_ata ≡ r.recipient_ata)
        × (due r' ≤ due r)
  pub resolved_late : r.is_resolved ≡ false → r'.is_resolved ≡ true → r.dispute_deadline <ℤ now

-- A finalization pays: it keeps what identifies the request, and does not raise what is due.
pub data Reduces (r r' : ForceSettleRequest) : Type 0 where
  reduces :
      SameRequest r r'
      → r'.receipt_nonce ≡ r.receipt_nonce
      → r'.recipient_ata ≡ r.recipient_ata
      → due r' ≤ due r
      → Reduces r r'

finalize_paid-Reduces : (now : ℤ) (r : ForceSettleRequest) → Reduces r (finalize_paid now r)
unfolding finalize_paid
finalize_paid-Reduces now r = reduces (ground arith) (ground arith) (ground arith) (ground arith)

finalize_nothing-Reduces : (r : ForceSettleRequest) → Reduces r (finalize_nothing r)
unfolding finalize_nothing
finalize_nothing-Reduces r = reduces (ground arith) (ground arith) (ground arith) (ground arith)

same_then : (u v w : ForceSettleRequest) → SameRequest u v → SameRequest v w → SameRequest u w
same_then u v w a b = record {
  bump = b.bump ∙ a.bump;
  vault = b.vault ∙ a.vault;
  participant = b.participant ∙ a.participant;
  participant_kind = b.participant_kind ∙ a.participant_kind;
  initiated_at = b.initiated_at ∙ a.initiated_at;
  dispute_deadline = b.dispute_deadline ∙ a.dispute_deadline;
}

reduced :
    (start now later : ℤ) (r u w : ForceSettleRequest)
    → now ≤ℤ later
    → RequestHistory start now r u
    → u.is_resolved ≡ false
    → u.dispute_deadline <ℤ later
    → Reduces u w
    → RequestHistory start later r w
reduced start now later r u w le hist unresolved over (reduces same nonce ata less) = record {
  same = same_then r u w hist.same same;
  nonce = omega (arith, hist.nonce, nonce);
  final = λ done. absurd (let eq = hist.final done in cc);
  no_replacement = λ past.
      let (n, a, d) = hist.no_replacement past in (nonce ∙ n, ata ∙ a, omega (arith, d, less));
  resolved_late = λ was done. subst (λ d. d <ℤ later) hist.same.dispute_deadline over;
}

request_then :
    (start now later : ℤ) (r u w : ForceSettleRequest)
    → start ≤ℤ now
    → now ≤ℤ later
    → RequestHistory start now r u
    → RequestStep later u w
    → RequestHistory start later r w
request_then start now later r u w begun le hist
      (RequestStep.challenged unresolved in_time newer same still) =
    record {
      same = same_then r u w hist.same same;
      nonce = omega (arith, hist.nonce, newer);
      final = λ done. absurd (let eq = hist.final done in cc);
      no_replacement = λ past. absurd (
          let before : later ≤ℤ r.dispute_deadline =
            subst (λ d. later ≤ℤ d) hist.same.dispute_deadline in_time in
          omega arith);
      resolved_late = λ was done. absurd (cc);
    }
request_then start now later r u w begun le hist (RequestStep.paid unresolved over eq) =
    reduced start now later r u w le hist unresolved over
      (subst (Reduces u) (sym eq) (finalize_paid-Reduces later u))
request_then start now later r u w begun le hist (RequestStep.nothing unresolved over eq) =
    reduced start now later r u w le hist unresolved over
      (subst (Reduces u) (sym eq) (finalize_nothing-Reduces u))

later_time :
    (start now later : ℤ) (r u : ForceSettleRequest)
    → now ≤ℤ later
    → RequestHistory start now r u
    → RequestHistory start later r u
later_time start now later r u le hist = record {
  same = hist.same;
  nonce = hist.nonce;
  final = hist.final;
  no_replacement = hist.no_replacement;
  resolved_late = λ was done. let over = hist.resolved_late was done in omega arith;
}

unchanged : (now : ℤ) (r : ForceSettleRequest) → RequestHistory now now r r
unchanged now r = record {
  same = ground arith;
  nonce = omega arith;
  final = λ done. refl;
  no_replacement = λ past. (refl, refl, omega arith);
  resolved_late = λ was done. absurd (cc);
}

-- A request that is there at the later time, and what has become of it.
abbrev pub RequestAfter : ℤ → ℤ → ForceSettleRequest → Option Account → Type 0
RequestAfter start now r a =
    (r' : ForceSettleRequest) × (a ≡ some (force_settle_request r')) × RequestHistory start now r r'

later_request :
    (start now later : ℤ) (a b : Option Account) (r : ForceSettleRequest)
    → start ≤ℤ now
    → now ≤ℤ later
    → RequestAfter start now r a
    → Evolves later a b
    → RequestAfter start later r b
later_request start now later a b r begun le (u, at, hist) (Evolves.same e) =
    (u, e ∙ at, later_time start now later r u le hist)
later_request start now later a b r begun le (u, at, hist) (Evolves.created x free new fresh) =
    absurd (cc)
later_request start now later a b r begun le (u, at, hist) (Evolves.vault v v' old new step) =
    absurd (cc)
later_request start now later a b r begun le (u, at, hist) (Evolves.request w w' old new step) =
    let eq : w ≡ u = cc in
    (
      w',
      new,
      request_then start now later r u w' begun le hist
          (subst (λ x. RequestStep later x w') eq step),
    )

pub Reach_forward : (p : Platform) (w v : World) → Reach p w v → w.now ≤ℤ v.now
Reach_forward p w v here = omega arith
Reach_forward p w v (next {u} before step) =
    omega (arith, Reach_forward p w u before, step_forward p u v step)

-- Whatever calls and token moves follow, a request stays there, with the same vault, participant and
-- dispute deadline; its receipt nonce never falls; once resolved it does not change; if its dispute
-- deadline had passed at the start, its receipt is not replaced, its recipient stays, and what is due
-- does not grow; and one that was open is resolved only after its dispute deadline.
pub Reach-request :
    (p : Platform) (w v : World) (k : Pubkey) (r : ForceSettleRequest)
    → w.chain.accounts k ≡ some (force_settle_request r)
    → Reach p w v
    → RequestAfter w.now v.now r (v.chain.accounts k)
Reach-request p w v k r at here = (r, at, unchanged w.now r)
Reach-request p w v k r at (next {u} before step) =
    later_request w.now u.now v.now _ _ r (Reach_forward p w u before) (step_forward p u v step)
      (Reach-request p w u k r at before) (Step-ChainEvolves p u v step k)
