-- ===== src/Threshold/Chain/Order.antt =====
-- The recovery-first order of the chain's tip never falls, whatever steps are presented.
use supgang.Base.{
  ℕ, ◌+◌, ◌<◌, ◌≤◌, ◌≡◌, refl, ◌⊎◌, inl, inr, true, Option, none, some, ok, lookup, insert, arith,
  lookup-insert,
}
use supgang.External.{External}
use supgang.Threshold.{Digest}
use supgang.Threshold.Records.{SignedStep, RootStep}
use supgang.Threshold.Step.{verify}
use supgang.Threshold.Regroup.{Succession}
use supgang.Threshold.Founding.{GroupDescriptor, RecoveryDescriptor}
use supgang.Threshold.Chain.{Chain, Context, is_active, halt, new, apply_grant_transition, order}
use supgang.Threshold.Chain.Accept.{
  extend, rotate, accept_ordinary, accept_recovery, accept, settle, advance, halt_on, recover,
  drop_held,
}
use supgang.Threshold.Chain.Cases.{settle_keeps, ordinary_keeps, recovery_keeps}
use supgang.Threshold.Chain.Induction.{accept_keeps}

-- `(u64, u64, u64)` in lexicographic order
abbrev pub Before : ℕ × ℕ × ℕ → ℕ × ℕ × ℕ → Type 0
Before (a, b, c) (a', b', c') = (a < a') ⊎ ((a ≡ a') × ((b < b') ⊎ ((b ≡ b') × (c < c'))))

-- While ordinary steps can extend it, the tip stands in the contexts with the current context.
abbrev pub IsAnchored : Chain → Type 0
IsAnchored c = is_active c.status ≡ true → lookup c.tip c.contexts ≡ some c.current

-- The context is untouched, or the order has risen.
abbrev pub Rises : Chain → Chain → Type 0
Rises c c' = (c'.current ≡ c.current) ⊎ Before (order c) (order c')

module _ (x : External) where
  -- A transition of grants changes nothing but grants.
  pub apply_grant_transition_same :
      (step : RootStep) (c : Chain) {c' : Chain}
      → apply_grant_transition x step c ≡ ok c'
      → c' ≡ record c {
        grants = c'.grants;
        used_grant_ids = c'.used_grant_ids;
        grant_revocation_serial = c'.grant_revocation_serial;
      }
  unfolding apply_grant_transition
  apply_grant_transition_same step c e = ground arith

  -- What an ordinary step must satisfy towards the context of its predecessor.
  pub extend_facts :
      (c : Chain) (s : SignedStep) (t : Option Succession) (context : Context) {next : Context}
      → extend x c s t context ≡ ok next
      → (context.recovery_gen ≡ c.current.recovery_gen)
        × (next.recovery_gen ≡ context.recovery_gen)
        × (next.sequence ≡ context.sequence + 1)
        × (context.epoch ≤ next.epoch)
        × (verify x s context.group.public_key ≡ ok tt)
  unfolding extend rotate
  extend_facts c s none context e = ground arith
  extend_facts c s (some t) context e = ground arith

  pub Rises-trans : (a b c : Chain) → Rises a b → Rises b c → Rises a c
  Rises-trans a b c h k = ground arith

  -- one ordinary step against the tip's own context
  advance-Before :
      (c : Chain) (s : SignedStep) (t : Option Succession) {next : Context}
      → extend x c s t c.current ≡ ok next
      → Before (order c) (next.recovery_gen, next.epoch, next.sequence)
  advance-Before c s t e = ground (arith, extend_facts c s t c.current e)

  -- a halted chain keeps its context and is not active
  halt_on-Rises :
      (first d : Digest) (s : SignedStep) (next : Context) (c : Chain)
      → IsAnchored (halt_on first s d next c) × Rises c (halt_on first s d next c)
  unfolding halt
  halt_on-Rises first d s next c = (ground arith, inl (ground arith))

  advance-IsAnchored :
      (s : SignedStep) (d : Digest) (next : Context) (c : Chain) → IsAnchored (advance s d next c)
  advance-IsAnchored s d next c _ = ground (arith, lookup-insert d d next c.contexts)

  settled-Rises :
      (c : Chain) (s : SignedStep) (d : Digest) (t : Option Succession) (context next : Context)
      → IsAnchored c
      → is_active c.status ≡ true
      → lookup s.step.predecessor c.contexts ≡ some context
      → extend x c s t context ≡ ok next
      → let c' = (settle x s d next c).1 in IsAnchored c' × Rises c c'
  settled-Rises c s d t context next a active l e =
      settle_keeps x (λ c'. IsAnchored c' × Rises c c') s d c (a, inl refl) next
        (λ first n. halt_on-Rises first d s next c) (ground arith, inl refl) (a, inl refl)
        (λ c' n f p v g. (
          advance-IsAnchored s d next c',
          inr (ground (arith, a active, extend_facts c s t context e)),
        ))

  ordinary-Rises :
      (s : SignedStep) (d : Digest) (t : Option Succession) (c : Chain)
      → IsAnchored c
      → let c' = (accept_ordinary x s d t c).1 in IsAnchored c' × Rises c c'
  ordinary-Rises s d t c a =
      ordinary_keeps x (λ c'. IsAnchored c' × Rises c c') s d c (a, inl refl) t
        (λ l f. (a, inl refl))
        (λ context next active g l e. settled-Rises c s d t context next a active l e)

  recover-Rises :
      (s : SignedStep) (d : Digest) (t : Succession) (epoch : ℕ) (c : Chain)
      → c.current.recovery_gen < s.step.recovery_gen
      → IsAnchored (recover s d t epoch c) × Rises c (recover s d t epoch c)
  recover-Rises s d t epoch c h = (
    λ _. ground (arith, lookup-insert d d (recover s d t epoch c).current c.contexts),
    inr (inl h),
  )

  recovery-Rises :
      (s : SignedStep) (d : Digest) (t : Succession) (c : Chain)
      → IsAnchored c
      → let c' = (accept_recovery x s d t c).1 in IsAnchored c' × Rises c c'
  recovery-Rises s d t c a =
      recovery_keeps x (λ c'. IsAnchored c' × Rises c c') s d c (a, inl refl) t
        (λ first previous current l v. unfold halt in (ground arith, inl refl))
        (ground arith, inl refl) (λ epoch h v w f k e. recover-Rises s d t epoch c h)

  -- Whatever step is presented, and whatever held steps follow it, an anchored chain stays
  -- anchored, and its context is untouched or its recovery-first order has strictly risen.
  pub accept-Rises :
      (s : SignedStep) (c : Chain)
      → IsAnchored c
      → IsAnchored (accept x s c).1 × Rises c (accept x s c).1
  accept-Rises s c a =
      accept_keeps x (λ c'. IsAnchored c' × Rises c c') (λ d c' p. p)
        (λ s d t c' l h p.
          let q = ordinary-Rises s d t (drop_held d c') p.0 in
          (
            q.0,
            Rises-trans c (drop_held d c') (accept_ordinary x s d t (drop_held d c')).1 p.1 q.1,
          ))
        s c (a, inl refl) (λ d t n h. ordinary-Rises s d t c a)
        (λ d t n h k. recovery-Rises s d t c a)

  -- A chain that has just been founded is anchored.
  pub new-IsAnchored :
      (g : GroupDescriptor) (r : RecoveryDescriptor) {c : Chain} → new x g r ≡ ok c → IsAnchored c
  unfolding new lookup insert
  new-IsAnchored g r e = ground arith
