-- ===== src/Threshold/Chain/Life.antt =====
-- What holds of every chain from its founding on.
use supgang.Base.{ℕ, ◌≡◌, refl, List, ok, lookup, insert, some, [], arith, inl, ap, sym, Map}
use mathlib.Core.Path.{subst}
use supgang.External.{External}
use supgang.Threshold.{Digest}
use supgang.Threshold.Records.{SignedStep}
use supgang.Threshold.Founding.{GroupDescriptor, RecoveryDescriptor}
use supgang.Threshold.Chain.{Chain, Context, new}
use supgang.Threshold.Chain.Accept.{accept}
use supgang.Threshold.Chain.Bounds.{IsBounded, new-IsBounded, accept-IsBounded}
use supgang.Threshold.Chain.Order.{IsAnchored, Rises, Rises-trans, new-IsAnchored, accept-Rises}
use supgang.Threshold.Chain.Grants.{Spends, IsSpent, Spends-refl, Spends-trans, accept-Spends}
use supgang.Threshold.Chain.Trust.{
  IsTrusted, Holds, founding_root, founding_recovery, root_role, accept-IsTrusted,
}
use supgang.Threshold.Chain.Run.{present, present_keeps}

module _ (x : External) (g : GroupDescriptor) (r : RecoveryDescriptor) where
  new_facts :
      {c : Chain}
      → new x g r ≡ ok c
      → (c.current.group ≡ g)
        × (c.recovery ≡ r)
        × (c.records ≡ [])
        × (c.recovery_proofs ≡ [])
        × (c.contexts ≡ insert c.founding c.current [])
  unfolding new
  new_facts e = ground arith

  only_context :
      (c : Chain) (d : Digest) (k : Context)
      → c.contexts ≡ insert c.founding c.current []
      → lookup d c.contexts ≡ some k
      → k ≡ c.current
  unfolding lookup insert
  only_context c d k e l = ground arith

  founded-IsTrusted : {c : Chain} → new x g r ≡ ok c → IsTrusted x g.public_key r.group.public_key c
  unfolding lookup
  founded-IsTrusted {c} e =
      let (group, recovery, records, proofs, contexts) = new_facts e in
      let n = founding_root (ap (λ (k : GroupDescriptor). k.public_key) group) in
      record {
        current_root = n;
        current_recovery =
            founding_recovery (ap (λ (k : RecoveryDescriptor). k.group.public_key) recovery);
        context_roots = λ d k l.
            subst
              (λ (k : Context).
                Holds x g.public_key r.group.public_key root_role k.group.public_key)
              (sym (only_context c d k contexts l)) n;
        proof_keys = λ d p l. absurd (none_of d c.recovery_proofs proofs l);
        vouched = λ d s l. absurd (none_of d c.records records l);
      }
    where
      none_of : {V : Type 0} (d : ℕ) (m : Map V) {v : V} → m ≡ [] → lookup d m ≡ some v → ⊥
      none_of d m e l = ground arith

  module _ (ss : List SignedStep) {c : Chain} (founded : new x g r ≡ ok c) where
    -- From its founding on, and whatever steps are presented, every key that the chain relies on
    -- descends from the two founding keys by signed successions, the recovery key by recoveries
    -- alone, and every record that it keeps is signed under such a key.
    pub life-IsTrusted : IsTrusted x g.public_key r.group.public_key (present x ss c)
    life-IsTrusted =
        present_keeps x (IsTrusted x g.public_key r.group.public_key)
          (accept-IsTrusted x g.public_key r.group.public_key) ss c (founded-IsTrusted founded)

    -- From its founding on, and whatever steps are presented, the records, the held steps, the
    -- recovery proofs and the spent grant identities stay within `MAX_RECORDS` entries each.
    pub life-IsBounded : IsBounded (present x ss c)
    life-IsBounded =
        present_keeps x IsBounded (accept-IsBounded x) ss c (new-IsBounded x g r founded)

  -- Between any two moments of a chain's life, whatever steps are presented before and between them,
  -- the context is the same or its recovery-first order has strictly risen.
  pub life-Rises :
      (before between : List SignedStep) {c : Chain}
      → new x g r ≡ ok c
      → Rises (present x before c) (present x between (present x before c))
  life-Rises before between {c} founded =
      let start = present x before c in
      let anchored : IsAnchored start =
        present_keeps x IsAnchored (λ s c' a. (accept-Rises x s c' a).0) before c
          (new-IsAnchored x g r founded) in
      (present_keeps x (λ c'. IsAnchored c' × Rises start c')
        (λ s c' p.
          let q = accept-Rises x s c' p.0 in
          (q.0, Rises-trans x start c' (accept x s c').1 p.1 q.1))
        between start (anchored, inl refl)).1

  -- Between any two moments of a chain's life, whatever steps are presented before and between them:
  -- a grant identity that was spent stays spent, its grant is what it was or gone, the revocation
  -- serial has not fallen, and a grant that is active has a spent identity.
  pub life-Spends :
      (id : ℕ) (before between : List SignedStep) {c : Chain}
      → new x g r ≡ ok c
      → Spends id (present x before c) (present x between (present x before c))
        × IsSpent id (present x between (present x before c))
  life-Spends id before between {c} founded =
      let spent : IsSpent id (present x before c) =
        present_keeps x (IsSpent id) (λ s c' p. (accept-Spends x id s c' p).1) before c
          (unfold new lookup in ground arith) in
      present_keeps x (λ c'. Spends id (present x before c) c' × IsSpent id c')
        (λ s c' p.
          let q = accept-Spends x id s c' p.1 in
          (Spends-trans id (present x before c) c' (accept x s c').1 p.0 q.0, q.1))
        between (present x before c) (Spends-refl id (present x before c), spent)
