-- ===== src/Threshold/Renewal/Runs.antt =====
-- A ledger over its whole life: an issuer that issues leases until one is refused, and a target that
-- is shown leases in any order and may miss any of them.
use supgang.Base.{
  ℕ, ◌+◌, ◌≤◌, ◌≡◌, refl, List, [], ◌∷◌, Result, ok, err, ◌>>=◌, >>=-inv, length, arith,
}
use supgang.External.{External}
use supgang.Threshold.{Error, Digest}
use supgang.Threshold.Renewal.{
  Policy, Mode, Counts, Ledger, owner_total_cap, draft_new, draft_issue, draft_observe,
}
use supgang.Threshold.Renewal.Laws.{
  Extends, Extends-refl, Extends-trans, observe-Extends, leases, issue-counts,
}

pub record Lease : Type 0 where
  pub policy : Policy
  pub mode : Mode
  pub counts : Counts
  pub issued_at : ℕ
  pub status_digest : Digest

abbrev kept_or : Result Error Ledger → Ledger → Ledger
kept_or (ok l') l = l'
kept_or (err e) l = l

module _ (x : External) where
  -- leases that are all issued, one after the other
  unfoldable pub issue_all : List Lease → Ledger → Result Error Ledger
  issue_all [] l = ok l
  issue_all (s ∷ ss) l = do
    l' ← draft_issue x l s.policy s.mode s.counts s.issued_at s.status_digest
    issue_all ss l'

  -- leases that are presented; a refused one leaves the ledger as it is
  unfoldable pub observe_all : List Lease → Ledger → Ledger
  observe_all [] l = l
  observe_all (s ∷ ss) l =
      observe_all ss
        (kept_or (draft_observe x l s.policy s.mode s.counts s.issued_at s.status_digest) l)

  issue_all-leases :
      (ss : List Lease) (l : Ledger) {l' : Ledger}
      → leases l ≤ owner_total_cap + 1
      → issue_all ss l ≡ ok l'
      → (leases l' ≡ leases l + length ss) × (leases l' ≤ owner_total_cap + 1)
  unfolding issue_all
  issue_all-leases [] l b h = ground arith
  issue_all-leases (s ∷ ss) l b h =
      let (next, r, rest) =
        >>=-inv (draft_issue x l s.policy s.mode s.counts s.issued_at s.status_digest)
          (issue_all ss) h in
      let (n, m) = issue-counts x l s.policy s.mode s.counts s.issued_at s.status_digest r in
      let (k, j) = issue_all-leases ss next m rest in (omega arith, j)

  -- An issuer that starts from a new ledger issues at most five leases before a physical
  -- recertification: the initial one and four renewals, whatever policies it is given.
  pub issue_all-bound :
      (p : Policy) (ss : List Lease) {l l' : Ledger}
      → draft_new x p ≡ ok l
      → issue_all ss l ≡ ok l'
      → length ss ≤ owner_total_cap + 1
  issue_all-bound p ss {l} n h =
      let z : leases l ≡ 0 = unfold draft_new in ground arith in
      let (k, j) = issue_all-leases ss l (omega arith) h in omega arith

  kept-Extends :
      (l : Ledger) (s : Lease) (r : Result Error Ledger)
      → draft_observe x l s.policy s.mode s.counts s.issued_at s.status_digest ≡ r
      → Extends l (kept_or r l)
  kept-Extends l s (err e) h = Extends-refl l
  kept-Extends l s (ok l') h =
      observe-Extends x l s.policy s.mode s.counts s.issued_at s.status_digest h

  -- Whatever leases a target is shown, its ledger keeps its terms, its counts and its time never fall,
  -- and while its counts are the same it holds one and the same status.
  pub observe_all-Extends : (ss : List Lease) (l : Ledger) → Extends l (observe_all ss l)
  unfolding observe_all
  observe_all-Extends [] l = Extends-refl l
  observe_all-Extends (s ∷ ss) l =
      let r = draft_observe x l s.policy s.mode s.counts s.issued_at s.status_digest in
      Extends-trans l (kept_or r l) (observe_all ss (kept_or r l)) (kept-Extends l s r refl)
        (observe_all-Extends ss (kept_or r l))
