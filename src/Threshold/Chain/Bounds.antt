-- ===== src/Threshold/Chain/Bounds.antt =====
-- The fixed memory of a chain: the four tables that the code checks against `MAX_RECORDS` (the records,
-- the held steps, the recovery proofs and the spent grant identities) stay within it.
use supgang.Base.{ℕ, ◌≤◌, ◌≡◌, Option, Result, ok, err, length, length-insert, length-remove, arith}
use supgang.External.{External}
use supgang.Threshold.{Error, Digest, max_records}
use supgang.Threshold.Records.{SignedStep}
use supgang.Threshold.Regroup.{Succession}
use supgang.Threshold.Grant.{Grant}
use supgang.Threshold.Grant.Decode.{decode_grant}
use supgang.Threshold.Founding.{GroupDescriptor, RecoveryDescriptor}
use supgang.Threshold.Chain.{
  Context, Chain, halt, new, validate_grant_transition, apply_grant_transition,
}
use supgang.Threshold.Chain.Accept.{
  settle, accept_ordinary, repeat_recovery, accept_recovery, drop_held, accept,
}
use supgang.Threshold.Chain.Cases.{ordinary_keeps}
use supgang.Threshold.Chain.Induction.{accept_keeps}

pub record IsBounded (c : Chain) : Type 0 where
  pub records_bound : length c.records ≤ max_records
  pub pending_bound : length c.pending ≤ max_records
  pub proofs_bound : length c.recovery_proofs ≤ max_records
  pub grants_bound : length c.used_grant_ids ≤ max_records

-- The identity that a payload grants, for the instances of lemmas below.
abbrev pub granted_id : Result Error Grant → ℕ
granted_id (ok g) = g.id
granted_id (err e) = 0

module _ (x : External) where
  settle-IsBounded :
      (s : SignedStep) (d : Digest) (next : Context) (c : Chain)
      → IsBounded c
      → IsBounded (settle x s d next c).1
  unfolding settle halt validate_grant_transition apply_grant_transition
  settle-IsBounded s d next c b = ground (
    arith,
    length-insert d s c.records,
    length-insert (granted_id (decode_grant x s.step.payload)) tt c.used_grant_ids,
  )

  pub accept_ordinary-IsBounded :
      (s : SignedStep) (d : Digest) (t : Option Succession) (c : Chain)
      → IsBounded c
      → IsBounded (accept_ordinary x s d t c).1
  accept_ordinary-IsBounded s d t c b =
      ordinary_keeps x IsBounded s d c b t (λ l f. ground (arith, length-insert d s c.pending))
        (λ context next a g l e. settle-IsBounded s d next c b)

  accept_recovery-IsBounded :
      (s : SignedStep) (d : Digest) (t : Succession) (c : Chain)
      → IsBounded c
      → IsBounded (accept_recovery x s d t c).1
  unfolding accept_recovery repeat_recovery halt
  accept_recovery-IsBounded s d t c b = ground (
    arith,
    length-insert d s c.records,
    length-insert s.step.recovery_gen (s, c.recovery) c.recovery_proofs,
  )

  -- No step, accepted or refused, makes one of the four tables outgrow `MAX_RECORDS`.
  pub accept-IsBounded : (s : SignedStep) (c : Chain) → IsBounded c → IsBounded (accept x s c).1
  accept-IsBounded s c b =
      accept_keeps x IsBounded (λ d c b. ground (arith, length-remove d c.pending))
        (λ s d t c l h b.
          accept_ordinary-IsBounded s d t (drop_held d c)
            (ground (arith, length-remove d c.pending)))
        s c b (λ d t n h. accept_ordinary-IsBounded s d t c b)
        (λ d t n h k. accept_recovery-IsBounded s d t c b)

  pub new-IsBounded :
      (g : GroupDescriptor) (r : RecoveryDescriptor) {c : Chain} → new x g r ≡ ok c → IsBounded c
  unfolding new
  new-IsBounded g r e = ground arith
