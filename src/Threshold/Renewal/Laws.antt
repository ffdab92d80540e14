-- ===== src/Threshold/Renewal/Laws.antt =====
-- One transition of a renewal ledger.
use supgang.Base.{
  ℕ, ◌+◌, ◌≤◌, ◌≡◌, ◌≢◌, refl, true, ok, arith, ◌⊎◌, inl, inr, Bytes, sym, is_ok, if◌then◌else◌,
  ◌==◌,
}
use mathlib.Core.Path.{subst}
use supgang.External.{External}
use supgang.Threshold.{Digest}
use supgang.Threshold.Renewal.{
  Policy, Mode, initial, Counts, no_counts, Ledger, owner_total_cap, is_next, check_counts,
  check_observed, check_common, encode_policy, terms_digest, draft_issue, draft_observe, advance,
  encode_ledger,
}

-- What a protected ledger never takes back: its terms, its counts, its time, and the status that it
-- has seen under its counts.
pub record Extends (l l' : Ledger) : Type 0 where
  pub same_terms : (l'.terms ≡ l.terms) × (l'.budget_id ≡ l.budget_id) × (l'.epoch ≡ l.epoch)
  pub counts_mono :
      (l.counts.policy ≤ l'.counts.policy)
      × (l.counts.presence ≤ l'.counts.presence)
      × (l.counts.total ≤ l'.counts.total)
  pub time_mono : l.issued_at ≤ l'.issued_at
  pub one_status :
      l.status_digest ≢ 0
      → (l'.status_digest ≢ 0)
        × (l'.counts.policy ≡ l.counts.policy
            → l'.counts.presence ≡ l.counts.presence
            → l'.counts.total ≡ l.counts.total
            → (l'.status_digest ≡ l.status_digest) × (l'.issued_at ≡ l.issued_at))

pub Extends-refl : (l : Ledger) → Extends l l
Extends-refl l = record {
  same_terms = (refl, refl, refl);
  counts_mono = (omega arith, omega arith, omega arith);
  time_mono = omega arith;
  one_status = λ n. (n, λ a b c. (refl, refl));
}

pub Extends-trans : (a b c : Ledger) → Extends a b → Extends b c → Extends a c
Extends-trans a b c h k = record {
  same_terms = ground arith;
  counts_mono = ground arith;
  time_mono = omega arith;
  one_status = λ n.
      let q = h.one_status n in
      let r = k.one_status q.0 in
      (
        r.0,
        λ i j o.
            let e = r.1 (omega arith) (omega arith) (omega arith) in
            let f = q.1 (omega arith) (omega arith) (omega arith) in (omega arith, omega arith),
      );
}

-- The counts that a policy within the owner's limits admits.
pub record IsWithin (c : Counts) : Type 0 where
  pub no_policy : c.policy ≡ 0
  pub total_cap : c.total ≤ owner_total_cap
  pub sum : c.total ≡ c.policy + c.presence

-- The leases behind a ledger: the initial one and the renewals.
abbrev pub leases : Ledger → ℕ
leases l = if l.status_digest == 0 then 0 else l.counts.total + 1

module _ (x : External) (l : Ledger) (p : Policy) (mode : Mode) (c : Counts) (at : ℕ)
    (d : Digest) where
  common_facts :
      {u : Unit {0}} → check_common x l p c at d ≡ ok u → (l.issued_at ≤ at) × (d ≢ 0) × IsWithin c
  unfolding check_common terms_digest encode_policy check_counts
  common_facts h = (
    ground arith,
    ground arith,
    record { no_policy = ground arith; total_cap = ground arith; sum = ground arith },
  )

  issue_facts :
      {l' : Ledger}
      → draft_issue x l p mode c at d ≡ ok l'
      → (check_common x l p c at d ≡ ok tt)
        × (is_next l mode c ≡ ok true)
        × (l' ≡ advance l c at d)
        × (l.status_digest ≡ 0 → mode ≡ initial)
  unfolding draft_issue
  issue_facts h = (ground arith, ground arith, ground arith, ground arith)

  observe_facts :
      {l' : Ledger}
      → draft_observe x l p mode c at d ≡ ok l'
      → (check_common x l p c at d ≡ ok tt)
        × (check_observed l mode c at d ≡ ok tt)
        × (l' ≡ advance l c at d)
  unfolding draft_observe
  observe_facts h = (ground arith, ground arith, ground arith)

  -- What an observation may change.
  observed-Extends :
      {u : Unit {0}}
      → check_common x l p c at d ≡ ok u
      → check_observed l mode c at d ≡ ok u
      → Extends l (advance l c at d)
  unfolding check_observed
  observed-Extends h o =
      let f = common_facts h in
      record {
        same_terms = (refl, refl, refl);
        counts_mono = (ground arith, ground arith, ground arith);
        time_mono = f.0;
        one_status = λ n. (f.1, λ i j k. (ground arith, ground arith));
      }

  pub observe-Extends : {l' : Ledger} → draft_observe x l p mode c at d ≡ ok l' → Extends l l'
  observe-Extends h =
      let (f, o, e) = observe_facts h in subst (Extends l) (sym e) (observed-Extends f o)

  -- the next counts are counted from those that the ledger holds
  next_facts :
      is_next l mode c ≡ ok true
      → ((mode ≡ initial) × (l.status_digest ≡ 0) × (c ≡ no_counts))
        ⊎ ((mode ≢ initial) × (c.total ≡ l.counts.total + 1))
  unfolding is_next
  next_facts h = ground arith

  stored_facts : {b : Bytes} → encode_ledger x l ≡ ok b → l.status_digest ≡ 0 → l.counts ≡ no_counts
  unfolding encode_ledger
  stored_facts e z = ground arith

  -- From a ledger that can be stored, a target observes every lease that an issuer of the same ledger
  -- issues, and both then hold the same ledger.
  pub issue-observe :
      {b : Bytes} {l' : Ledger}
      → encode_ledger x l ≡ ok b
      → draft_issue x l p mode c at d ≡ ok l'
      → draft_observe x l p mode c at d ≡ ok l'
  unfolding is_next check_observed draft_observe
  issue-observe s h =
      let (f, n, e, i) = issue_facts h in let w = stored_facts s in ground (arith, w, i)

  advance-is_ok :
      {b : Bytes}
      → encode_ledger x l ≡ ok b
      → at ≢ 0
      → check_common x l p c at d ≡ ok tt
      → is_ok (encode_ledger x (advance l c at d)) ≡ true
  unfolding encode_ledger
  advance-is_ok e n h = let f = common_facts h in ground arith

  -- A ledger that can be stored can be stored again after a lease was issued on it or observed, if the
  -- lease was not issued at second zero.
  pub draft-encode_ledger :
      {b : Bytes} {l' : Ledger}
      → encode_ledger x l ≡ ok b
      → at ≢ 0
      → (draft_issue x l p mode c at d ≡ ok l') ⊎ (draft_observe x l p mode c at d ≡ ok l')
      → is_ok (encode_ledger x l') ≡ true
  draft-encode_ledger s n (inl h) =
      let (f, m, e, i) = issue_facts h in
      subst (λ k. is_ok (encode_ledger x k) ≡ true) (sym e) (advance-is_ok s n f)
  draft-encode_ledger s n (inr h) =
      let (f, o, e) = observe_facts h in
      subst (λ k. is_ok (encode_ledger x k) ≡ true) (sym e) (advance-is_ok s n f)

  -- The number of leases that a ledger has seen issued.
  pub issue-counts :
      {l' : Ledger}
      → draft_issue x l p mode c at d ≡ ok l'
      → (leases l' ≡ leases l + 1) × (leases l' ≤ owner_total_cap + 1)
  issue-counts h =
      let (f, n, e, i) = issue_facts h in
      let facts = common_facts f in
      let total = facts.2.total_cap in (ground (arith, next_facts n, i), ground arith)
