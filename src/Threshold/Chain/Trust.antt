-- ===== src/Threshold/Chain/Trust.antt =====
-- Where authority comes from: every key that a chain relies on descends from its founding keys by
-- signed successions, and every record it keeps is signed under such a key.
use supgang.Base.{
  ℕ, ◌≡◌, refl, ◌⊎◌, inl, inr, true, false, Option, none, some, ok, arith, lookup, insert,
  if◌then◌else◌, ap, sym, length, ltb, lookup-insert_all, Bool, Map, remove,
}
use mathlib.Core.Path.{subst}
use supgang.External.{External}
use supgang.Threshold.{Digest, max_records}
use supgang.Threshold.Records.{SignedStep}
use supgang.Threshold.Step.{verify}
use supgang.Threshold.Regroup.{Succession}
use supgang.Threshold.Grant.{Grant}
use supgang.Threshold.Founding.{GroupDescriptor, RecoveryDescriptor}
use supgang.Threshold.Chain.{Chain, Context, Status, exhausted, halt}
use supgang.Threshold.Chain.Accept.{
  is_planned, extend, rotate, settle, accept_ordinary, accept_recovery, accept, drop_held, recover,
  transition_of, advance,
}
use supgang.Threshold.Chain.Order.{apply_grant_transition_same, extend_facts}
use supgang.Threshold.Chain.Cases.{settle_keeps, ordinary_keeps, recovery_keeps}
use supgang.Threshold.Chain.Induction.{accept_keeps}

pub data Role : Type 0 where
  root_role recovery_role : Role

module _ (x : External) (root recovery : ℕ) where
  -- A key descends from the founding keys: a planned succession is signed by the root key that it
  -- retires, and only the recovery key installs another root against it or another recovery key.
  pub data Holds : Role → ℕ → Type 0 where
    founding_root : {k : ℕ} → k ≡ root → Holds root_role k
    founding_recovery : {k : ℕ} → k ≡ recovery → Holds recovery_role k
    planned_root :
        {k k' : ℕ} (s : SignedStep) (t : Succession)
        → Holds root_role k
        → verify x s k ≡ ok tt
        → transition_of x s.step ≡ ok (some t)
        → is_planned t.kind ≡ true
        → k' ≡ t.successor.public_key
        → Holds root_role k'
    recovered_root :
        {k k' : ℕ} (s : SignedStep) (t : Succession)
        → Holds recovery_role k
        → verify x s k ≡ ok tt
        → transition_of x s.step ≡ ok (some t)
        → is_planned t.kind ≡ false
        → k' ≡ t.successor.public_key
        → Holds root_role k'
    replaced_recovery :
        {k k' : ℕ} (s : SignedStep) (t : Succession)
        → Holds recovery_role k
        → verify x s k ≡ ok tt
        → transition_of x s.step ≡ ok (some t)
        → is_planned t.kind ≡ false
        → k' ≡ t.recovery.group.public_key
        → Holds recovery_role k'

  -- A step signed under a key that descends from the founding keys.
  abbrev pub IsVouched : SignedStep → Type 0
  IsVouched s = (r : Role) × (k : ℕ) × Holds r k × (verify x s k ≡ ok tt)

  pub record IsTrusted (c : Chain) : Type 0 where
    pub current_root : Holds root_role c.current.group.public_key
    pub current_recovery : Holds recovery_role c.recovery.group.public_key
    pub context_roots :
        (d : Digest) (k : Context)
        → lookup d c.contexts ≡ some k
        → Holds root_role k.group.public_key
    pub proof_keys :
        (g : ℕ) (p : SignedStep × RecoveryDescriptor)
        → lookup g c.recovery_proofs ≡ some p
        → Holds recovery_role p.1.group.public_key
    pub vouched : (d : Digest) (s : SignedStep) → lookup d c.records ≡ some s → IsVouched s

  extend_group :
      (c : Chain) (s : SignedStep) (t : Option Succession) (context : Context) {next : Context}
      → extend x c s t context ≡ ok next
      → (next.group ≡ context.group)
        ⊎ ((u : Succession) × (t ≡ some u)
            × (is_planned u.kind ≡ true)
            × (next.group ≡ u.successor))
  unfolding extend rotate
  extend_group c s none context e = inl (ground arith)
  extend_group c s (some u) context e = inr (u, refl, ground arith, ground arith)

  step_root :
      (c : Chain) (s : SignedStep) (t : Option Succession) (context : Context) {next : Context}
      → Holds root_role context.group.public_key
      → transition_of x s.step ≡ ok t
      → extend x c s t context ≡ ok next
      → Holds root_role next.group.public_key
  step_root c s t context {next} h d e = elim (extend_group c s t context e) [
    | inl g ↦ subst (λ (k : GroupDescriptor). Holds root_role k.public_key) (sym g) h
    | inr (u, q, k, g) ↦
        planned_root s u h (extend_facts x c s t context e).4 (cc) k
          (ap (λ (k : GroupDescriptor). k.public_key) g)
  ]

  advance-IsTrusted :
      (s : SignedStep) (d : Digest) (next : Context) (c : Chain)
      → IsTrusted c
      → Holds root_role next.group.public_key
      → IsVouched s
      → IsTrusted (advance s d next c)
  advance-IsTrusted s d next c h n v = record {
    current_root = n;
    current_recovery = h.current_recovery;
    context_roots =
        lookup-insert_all (λ (k : Context). Holds root_role k.group.public_key) d next c.contexts n
          h.context_roots;
    proof_keys = h.proof_keys;
    vouched = lookup-insert_all IsVouched d s c.records v h.vouched;
  }

  if-IsVouched :
      (b : Bool) (m n : Map SignedStep)
      → ((j : ℕ) (w : SignedStep) → lookup j m ≡ some w → IsVouched w)
      → ((j : ℕ) (w : SignedStep) → lookup j n ≡ some w → IsVouched w)
      → (j : ℕ) (w : SignedStep) → lookup j (if b then m else n) ≡ some w
      → IsVouched w
  if-IsVouched true m n h k = h
  if-IsVouched false m n h k = k

  halt-IsTrusted :
      (first : Digest) (s : SignedStep) (d : Digest) (f : Bool) (c : Chain)
      → IsTrusted c
      → IsVouched s
      → IsTrusted (record (halt first s d c) { recovery_fork = f })
  unfolding halt
  halt-IsTrusted first s d f c h v = record {
    current_root = h.current_root;
    current_recovery = h.current_recovery;
    context_roots = h.context_roots;
    proof_keys = h.proof_keys;
    vouched =
        if-IsVouched (ltb (length c.records) max_records) (insert d s c.records) c.records
          (lookup-insert_all IsVouched d s c.records v h.vouched) h.vouched;
  }

  with_context :
      (d : Digest) (k : Context) (b : Bool) (c : Chain)
      → IsTrusted c
      → Holds root_role k.group.public_key
      → IsTrusted (if b then record c { contexts = insert d k c.contexts } else c)
  with_context d k false c h n = h
  with_context d k true c h n = record {
    current_root = h.current_root;
    current_recovery = h.current_recovery;
    context_roots =
        lookup-insert_all (λ (k : Context). Holds root_role k.group.public_key) d k c.contexts n
          h.context_roots;
    proof_keys = h.proof_keys;
    vouched = h.vouched;
  }

  -- fields that trust does not read
  retable :
      (c : Chain) (children : Map Digest) (pending : Map SignedStep) (grants : Map Grant)
      (used : Map (Unit {0})) (serial : ℕ) (status : Status)
      → IsTrusted c
      → IsTrusted (record c {
        children = children;
        pending = pending;
        grants = grants;
        used_grant_ids = used;
        grant_revocation_serial = serial;
        status = status;
      })
  retable c children pending grants used serial status h = record {
    current_root = h.current_root;
    current_recovery = h.current_recovery;
    context_roots = h.context_roots;
    proof_keys = h.proof_keys;
    vouched = h.vouched;
  }

  settled-IsTrusted :
      (s : SignedStep) (d : Digest) (t : Option Succession) (context next : Context) (c : Chain)
      → IsTrusted c
      → transition_of x s.step ≡ ok t
      → lookup s.step.predecessor c.contexts ≡ some context
      → extend x c s t context ≡ ok next
      → IsTrusted (settle x s d next c).1
  unfolding halt
  settled-IsTrusted s d t context next c h o l e =
      let k = h.context_roots s.step.predecessor context l in
      let n = step_root c s t context k o e in
      let v : IsVouched s =
        (root_role, context.group.public_key, k, (extend_facts x c s t context e).4) in
      let set = λ (m : Map Digest) (st : Status).
        retable c m c.pending c.grants c.used_grant_ids c.grant_revocation_serial st h in
      settle_keeps x IsTrusted s d c h next
        (λ first z.
          with_context d next _ (halt first s d c) (halt-IsTrusted first s d c.recovery_fork c h v)
            n)
        (set c.children exhausted) (set (insert s.step.predecessor d c.children) c.status)
        (λ c' z f p w a.
          advance-IsTrusted s d next c'
            (subst IsTrusted
              (sym (
                apply_grant_transition_same x s.step
                  (record c { children = insert s.step.predecessor d c.children }) a))
              (retable c (insert s.step.predecessor d c.children) c.pending c'.grants
                c'.used_grant_ids c'.grant_revocation_serial c.status h))
            n v)

  ordinary-IsTrusted :
      (s : SignedStep) (d : Digest) (t : Option Succession) (c : Chain)
      → transition_of x s.step ≡ ok t
      → IsTrusted c
      → IsTrusted (accept_ordinary x s d t c).1
  ordinary-IsTrusted s d t c o h =
      ordinary_keeps x IsTrusted s d c h t
        (λ l f.
          retable c c.children (insert d s c.pending) c.grants c.used_grant_ids
            c.grant_revocation_serial c.status h)
        (λ context next a g l e. settled-IsTrusted s d t context next c h o l e)

  recover-IsTrusted :
      (s : SignedStep) (d : Digest) (t : Succession) (epoch : ℕ) (c : Chain)
      → transition_of x s.step ≡ ok (some t)
      → is_planned t.kind ≡ false
      → verify x s c.recovery.group.public_key ≡ ok tt
      → IsTrusted c
      → IsTrusted (recover s d t epoch c)
  recover-IsTrusted s d t epoch c o k v h =
      let n = recovered_root s t h.current_recovery v o k refl in
      record {
        current_root = n;
        current_recovery = replaced_recovery s t h.current_recovery v o k refl;
        context_roots =
            lookup-insert_all (λ (k : Context). Holds root_role k.group.public_key) d
              (recover s d t epoch c).current c.contexts n h.context_roots;
        proof_keys =
            lookup-insert_all
              (λ (p : SignedStep × RecoveryDescriptor). Holds recovery_role p.1.group.public_key)
              s.step.recovery_gen (s, c.recovery) c.recovery_proofs h.current_recovery h.proof_keys;
        vouched =
            lookup-insert_all IsVouched d s c.records
              (recovery_role, c.recovery.group.public_key, h.current_recovery, v) h.vouched;
      }

  recovery-IsTrusted :
      (s : SignedStep) (d : Digest) (t : Succession) (c : Chain)
      → transition_of x s.step ≡ ok (some t)
      → is_planned t.kind ≡ false
      → IsTrusted c
      → IsTrusted (accept_recovery x s d t c).1
  recovery-IsTrusted s d t c o k h =
      recovery_keeps x IsTrusted s d c h t
        (λ first previous current l v. halt-IsTrusted first s d true c h (
          recovery_role,
          current.group.public_key,
          h.proof_keys s.step.recovery_gen (previous, current) l,
          v,
        ))
        (retable c c.children c.pending c.grants c.used_grant_ids c.grant_revocation_serial
          exhausted h)
        (λ epoch g v w f j e. recover-IsTrusted s d t epoch c o k v h)

  pub accept-IsTrusted : (s : SignedStep) (c : Chain) → IsTrusted c → IsTrusted (accept x s c).1
  accept-IsTrusted s c h =
      accept_keeps x IsTrusted
        (λ d c' p.
          retable c' c'.children (remove d c'.pending) c'.grants c'.used_grant_ids
            c'.grant_revocation_serial c'.status p)
        (λ s d t c' l o p. ordinary-IsTrusted s d t (drop_held d c') o (
          retable c' c'.children (remove d c'.pending) c'.grants c'.used_grant_ids
            c'.grant_revocation_serial c'.status p))
        s c h (λ d t n o. ordinary-IsTrusted s d t c o h)
        (λ d t n o k. recovery-IsTrusted s d t c o k h)
