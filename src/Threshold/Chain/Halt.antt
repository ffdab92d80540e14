-- ===== src/Threshold/Chain/Halt.antt =====
-- Halting: what a fork stops, and what alone can start the chain again.
use supgang.Base.{
  lookup, ◌==◌, ◌<◌, ◌≡◌, refl, ◌⊎◌, inl, inr, true, false, Option, some, List, [], ◌∷◌, ok, arith,
}
use supgang.External.{External}
use supgang.Threshold.{Digest}
use supgang.Threshold.Records.{SignedStep}
use supgang.Threshold.Step.{verify, digest}
use supgang.Threshold.Founding.{RecoveryDescriptor}
use supgang.Threshold.Regroup.{Succession}
use supgang.Threshold.Chain.{Chain, fork, is_halted, is_active, halt, validate_recovery}
use supgang.Threshold.Chain.Accept.{
  accept_ordinary, accept_recovery, accept, dispatch, finish, repeat_recovery, is_planned,
  drop_held, transition_of,
}
use supgang.Threshold.Chain.Cases.{ordinary_keeps, recovery_keeps}
use supgang.Threshold.Chain.Run.{present}
use supgang.Threshold.Chain.Induction.{accept_keeps}

module _ (x : External) where
  accept-forked : (s : SignedStep) (c : Chain) → c.recovery_fork ≡ true → (accept x s c).1 ≡ c
  unfolding accept
  accept-forked s c f = ground arith

  present-forked : (ss : List SignedStep) (c : Chain) → c.recovery_fork ≡ true → present x ss c ≡ c
  unfolding present
  present-forked [] c f = refl
  present-forked (s ∷ ss) c f = rw (accept-forked s c f) (present-forked ss c f)

  -- A second recovery of a generation, of other content than the recovery that the chain keeps as the
  -- proof of it, valid and signed under the recovery group that signed the first one, is reported as
  -- a fork, and halts the chain for good: no sequence of steps changes anything in it after that.
  pub accept-rival :
      (s previous : SignedStep) (current : RecoveryDescriptor) (t : Succession) (d first : Digest)
      (c : Chain) (ss : List SignedStep)
      → (s.step.hive == c.hive) ≡ true
      → c.recovery_fork ≡ false
      → transition_of x s.step ≡ ok (some t)
      → is_planned t.kind ≡ false
      → lookup s.step.recovery_gen c.recovery_proofs ≡ some (previous, current)
      → verify x s current.group.public_key ≡ ok tt
      → validate_recovery x c s.step t current ≡ ok tt
      → digest x previous.step ≡ ok first
      → digest x s.step ≡ ok d
      → (first == d) ≡ false
      → ((accept x s c).0 ≡ ok fork)
        × (is_halted (accept x s c).1.status ≡ true)
        × (present x ss (accept x s c).1 ≡ (accept x s c).1)
  unfolding accept dispatch accept_recovery repeat_recovery finish halt
  accept-rival s previous current t d first c ss hive open_still decoded kind proof signed valid
        before now other =
      let after : Chain = record (halt first s d c) { recovery_fork = true } in
      let outcome : accept x s c ≡ (ok fork, after) =
        rw
          (
            accept, now, hive, open_still, decoded, dispatch, kind, accept_recovery, proof,
            repeat_recovery, signed, valid, before, other, finish,
          )
          refl in
      (rw outcome refl, rw outcome refl, rw outcome (present-forked ss after refl))

  -- Evidence that a step is a recovery which the chain's recovery group signed.
  pub record Recovers (s : SignedStep) (c : Chain) : Type 0 where
    pub transition : Succession
    pub decoded : transition_of x s.step ≡ ok (some transition)
    pub signed : verify x s c.recovery.group.public_key ≡ ok tt
    pub valid : validate_recovery x c s.step transition c.recovery ≡ ok tt
    pub newer : c.current.recovery_gen < s.step.recovery_gen

  abbrev StaysOr : SignedStep → Chain → Chain → Type 0
  StaysOr s c c' = (is_active c'.status ≡ false) ⊎ Recovers s c

  -- an ordinary step finds the chain inactive and changes nothing
  ordinary-StaysOr :
      (s0 s : SignedStep) (d : Digest) (t : Option Succession) (c c' : Chain)
      → StaysOr s0 c c'
      → StaysOr s0 c (accept_ordinary x s d t c').1
  ordinary-StaysOr s0 s d t c c' (inr r) = inr r
  ordinary-StaysOr s0 s d t c c' (inl i) =
      ordinary_keeps x (λ c''. StaysOr s0 c c'') s d c' (inl i) t (λ l f. inl i)
        (λ context next a g l e. cc)

  recovery-StaysOr :
      (s : SignedStep) (d : Digest) (t : Succession) (c : Chain)
      → transition_of x s.step ≡ ok (some t)
      → is_active c.status ≡ false
      → StaysOr s c (accept_recovery x s d t c).1
  recovery-StaysOr s d t c h i =
      recovery_keeps x (λ c'. StaysOr s c c') s d c (inl i) t
        (λ first previous current l v. unfold halt in inl refl) (inl refl)
        (λ epoch g v w f k e.
          inr (record { transition = t; decoded = h; signed = v; valid = w; newer = g }))

  -- A chain that is halted or exhausted becomes active again only by a step that is a recovery of
  -- a higher generation, signed by the recovery group in force and valid towards it.
  pub accept-reactivates :
      (s : SignedStep) (c : Chain)
      → is_active c.status ≡ false
      → is_active (accept x s c).1.status ≡ true
      → Recovers s c
  accept-reactivates s c i a =
      elim (accept_keeps x (λ c'. StaysOr s c c') (λ d c' p. p)
        (λ s' d t c' l h p. ordinary-StaysOr s s' d t c (drop_held d c') p) s c (inl i)
        (λ d t n h. ordinary-StaysOr s s d t c c (inl i))
        (λ d t n h k. recovery-StaysOr s d t c h i)) [ inl j ↦ cc | inr r ↦ r ]
