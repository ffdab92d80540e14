-- ===== src/Threshold/Chain/Content.antt =====
-- Content addressing: the tables of a chain hold every step under the digest of its content.
use supgang.Base.{
  ◌≡◌, refl, List, [], some, ok, Option, Bool, true, false, if◌then◌else◌, Map, lookup, insert,
  lookup-insert_each, lookup-remove_each, length, ltb, arith,
}
use mathlib.Core.Path.{subst, sym, ap}
use supgang.External.{External}
use supgang.Threshold.{Digest, max_records}
use supgang.Threshold.Records.{SignedStep}
use supgang.Threshold.Step.{digest}
use supgang.Threshold.Founding.{GroupDescriptor, RecoveryDescriptor}
use supgang.Threshold.Regroup.{Succession}
use supgang.Threshold.Chain.{Chain, Context, halt, new}
use supgang.Threshold.Chain.Accept.{settle, accept_ordinary, accept_recovery, accept, drop_held}
use supgang.Threshold.Chain.Order.{apply_grant_transition_same}
use supgang.Threshold.Chain.Cases.{settle_keeps, ordinary_keeps, recovery_keeps}
use supgang.Threshold.Chain.Induction.{accept_keeps}
use supgang.Threshold.Chain.Run.{present, present_keeps}

module _ (x : External) where
  -- A table whose keys are the digests of its steps.
  abbrev pub IsKeyed : Map SignedStep → Type 0
  IsKeyed m = (d : Digest) (s : SignedStep) → lookup d m ≡ some s → digest x s.step ≡ ok d

  pub record IsAddressed (c : Chain) : Type 0 where
    pub records_keyed : IsKeyed c.records
    pub pending_keyed : IsKeyed c.pending

  insert-IsKeyed :
      (d : Digest) (s : SignedStep) (m : Map SignedStep)
      → digest x s.step ≡ ok d
      → IsKeyed m
      → IsKeyed (insert d s m)
  insert-IsKeyed d s m e h =
      lookup-insert_each (λ j (w : SignedStep). digest x w.step ≡ ok j) d s m e h

  empty-IsKeyed : IsKeyed []
  unfolding lookup
  empty-IsKeyed d s e = cc

  if-IsKeyed :
      (b : Bool) (m n : Map SignedStep) → IsKeyed m → IsKeyed n → IsKeyed (if b then m else n)
  if-IsKeyed true m n h k = h
  if-IsKeyed false m n h k = k

  addressed :
      {c : Chain} (m n : Map SignedStep)
      → c.records ≡ m
      → c.pending ≡ n
      → IsKeyed m
      → IsKeyed n
      → IsAddressed c
  addressed m n e f h k = record {
    records_keyed = subst IsKeyed (sym e) h;
    pending_keyed = subst IsKeyed (sym f) k;
  }

  halted_records :
      (first : Digest) (s : SignedStep) (d : Digest) (c : Chain)
      → digest x s.step ≡ ok d
      → IsAddressed c
      → IsKeyed (halt first s d c).records
  unfolding halt
  halted_records first s d c e h =
      if-IsKeyed (ltb (length c.records) max_records) (insert d s c.records) c.records
        (insert-IsKeyed d s c.records e h.records_keyed) h.records_keyed

  settle-IsAddressed :
      (s : SignedStep) (d : Digest) (next : Context) (c : Chain)
      → digest x s.step ≡ ok d
      → IsAddressed c
      → IsAddressed (settle x s d next c).1
  settle-IsAddressed s d next c e h =
      settle_keeps x IsAddressed s d c h next
        (λ first n.
          addressed (halt first s d c).records c.pending (unfold halt in ground arith)
            (unfold halt in ground arith) (halted_records first s d c e h) h.pending_keyed)
        (record { records_keyed = h.records_keyed; pending_keyed = h.pending_keyed })
        (record { records_keyed = h.records_keyed; pending_keyed = h.pending_keyed })
        (λ c' n f p v a.
          let same =
            apply_grant_transition_same x s.step
              (record c { children = insert s.step.predecessor d c.children }) a in
          addressed (insert d s c.records) c.pending (ap (λ (k : Chain). insert d s k.records) same)
            (ap (λ (k : Chain). k.pending) same) (insert-IsKeyed d s c.records e h.records_keyed)
            h.pending_keyed)

  ordinary-IsAddressed :
      (s : SignedStep) (d : Digest) (t : Option Succession) (c : Chain)
      → digest x s.step ≡ ok d
      → IsAddressed c
      → IsAddressed (accept_ordinary x s d t c).1
  ordinary-IsAddressed s d t c e h =
      ordinary_keeps x IsAddressed s d c h t
        (λ l f. record {
          records_keyed = h.records_keyed;
          pending_keyed = insert-IsKeyed d s c.pending e h.pending_keyed;
        })
        (λ context next a g l f. settle-IsAddressed s d next c e h)

  recovery-IsAddressed :
      (s : SignedStep) (d : Digest) (t : Succession) (c : Chain)
      → digest x s.step ≡ ok d
      → IsAddressed c
      → IsAddressed (accept_recovery x s d t c).1
  recovery-IsAddressed s d t c e h =
      recovery_keeps x IsAddressed s d c h t
        (λ first previous current l v.
          addressed (halt first s d c).records c.pending refl (unfold halt in refl)
            (halted_records first s d c e h) h.pending_keyed)
        (record { records_keyed = h.records_keyed; pending_keyed = h.pending_keyed })
        (λ epoch g v w f k a. record {
          records_keyed = insert-IsKeyed d s c.records e h.records_keyed;
          pending_keyed = empty-IsKeyed;
        })

  dropped-IsAddressed : (d : Digest) (c : Chain) → IsAddressed c → IsAddressed (drop_held d c)
  dropped-IsAddressed d c h = record {
    records_keyed = h.records_keyed;
    pending_keyed =
        lookup-remove_each (λ j (w : SignedStep). digest x w.step ≡ ok j) d c.pending
          h.pending_keyed;
  }

  accept-IsAddressed : (s : SignedStep) (c : Chain) → IsAddressed c → IsAddressed (accept x s c).1
  accept-IsAddressed s c h =
      accept_keeps x IsAddressed dropped-IsAddressed
        (λ s d t c' l o p.
          ordinary-IsAddressed s d t (drop_held d c') (p.pending_keyed d s l)
            (dropped-IsAddressed d c' p))
        s c h (λ d t e o. ordinary-IsAddressed s d t c e h)
        (λ d t e o k. recovery-IsAddressed s d t c e h)

  founded-IsAddressed :
      (g : GroupDescriptor) (r : RecoveryDescriptor) {c : Chain} → new x g r ≡ ok c → IsAddressed c
  founded-IsAddressed g r e =
      addressed [] [] (unfold new in ground arith) (unfold new in ground arith) empty-IsKeyed
        empty-IsKeyed

  -- From its founding on, and whatever steps are presented, the chain keeps every accepted and every
  -- held step under the digest of its canonical bytes.
  pub life-IsAddressed :
      (g : GroupDescriptor) (r : RecoveryDescriptor) (ss : List SignedStep) {c : Chain}
      → new x g r ≡ ok c
      → IsAddressed (present x ss c)
  life-IsAddressed g r ss {c} e =
      present_keeps x IsAddressed accept-IsAddressed ss c (founded-IsAddressed g r e)
