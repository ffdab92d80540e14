-- ===== src/Threshold/Chain/Cases.antt =====
-- What the state can be after an ordinary step and after a recovery, case by case, as rules for a
-- predicate on chains.
use supgang.Base.{
  ℕ, ◌<◌, ◌≡◌, refl, true, false, ◌||◌, Option, none, some, Result, ok, err, ◌>>=◌, lookup, insert,
  arith, length, leb, Option-cases, Bool-cases, inl, inr, ◌==◌, contains_key, checked_add, >>=-inv,
}
use supgang.External.{External}
use supgang.Threshold.{Error, Digest, max_records}
use supgang.Threshold.Records.{SignedStep}
use supgang.Threshold.Step.{digest, verify}
use supgang.Threshold.Regroup.{Succession}
use supgang.Threshold.Founding.{RecoveryDescriptor}
use supgang.Threshold.Chain.{
  Chain, Context, exhausted, halt, is_active, validate_grant_transition, apply_grant_transition,
  validate_recovery,
}
use supgang.Threshold.Chain.Accept.{
  is_reserved, other_child, extend, settle, apply, advance, halt_on, accept_ordinary,
  repeat_recovery, recover, accept_recovery,
}

module _ (x : External) (P : Chain → Type 0) (s : SignedStep) (d : Digest) (c : Chain)
    (p : P c) where
  module _ (next : Context)
      (forked : (first : Digest) → contains_key d c.records ≡ false → P (halt_on first s d next c))
      (full : P (record c { status = exhausted }))
      (refused : P (record c { children = insert s.step.predecessor d c.children }))
      (extended : (c' : Chain)
        → contains_key d c.records ≡ false
        → length c.records < max_records
        → (s.step.predecessor == c.tip) ≡ true
        → validate_grant_transition x c s.step ≡ ok tt
        → apply_grant_transition x s.step
            (record c { children = insert s.step.predecessor d c.children })
          ≡ ok c'
        → P (advance s d next c')) where
    apply_keeps :
        (r : Result Error Chain)
        → contains_key d c.records ≡ false
        → length c.records < max_records
        → (s.step.predecessor == c.tip) ≡ true
        → validate_grant_transition x c s.step ≡ ok tt
        → apply_grant_transition x s.step
            (record c { children = insert s.step.predecessor d c.children })
          ≡ r
        → P (apply x s d next c).1
    apply_keeps (err e) n l t v a = rw (a, apply) refused
    apply_keeps (ok c') n l t v a = rw (a, apply) (extended c' n l t v a)

    validated :
        (r : Result Error (Unit {0}))
        → contains_key d c.records ≡ false
        → other_child (lookup s.step.predecessor c.children) d ≡ none
        → leb max_records (length c.records) ≡ false
        → (s.step.predecessor == c.tip) ≡ true
        → validate_grant_transition x c s.step ≡ r
        → P (settle x s d next c).1
    unfolding settle
    validated (err e) n o l t v = rw (n, o, l, t, v, settle) p
    validated (ok u) n o l t v =
        rw (n, o, l, t, v, settle)
          (apply_keeps
            (apply_grant_transition x s.step
              (record c { children = insert s.step.predecessor d c.children }))
            n (ground (arith, l)) t v refl)

    unforked :
        contains_key d c.records ≡ false
        → other_child (lookup s.step.predecessor c.children) d ≡ none
        → P (settle x s d next c).1
    unfolding settle
    unforked n o = elim (Bool-cases (leb max_records (length c.records))) [
      | inl l ↦ rw (n, o, l, settle) full
      | inr l ↦ elim (Bool-cases (s.step.predecessor == c.tip)) [
        | inr t ↦ rw (n, o, l, t, settle) p
        | inl t ↦ validated (validate_grant_transition x c s.step) n o l t refl
      ]
    ]

    pub settle_keeps : P (settle x s d next c).1
    unfolding settle
    settle_keeps = elim (Bool-cases (contains_key d c.records)) [
      | inl y ↦ rw (y, settle) p
      | inr n ↦ elim (Option-cases (other_child (lookup s.step.predecessor c.children) d)) [
        | inl o ↦ unforked n o
        | inr (first, o) ↦ rw (n, o, settle) (forked first n)
      ]
    ]

  module _ (t : Option Succession)
      (held : lookup s.step.predecessor c.contexts ≡ none
        → length c.pending < max_records
        → P (record c { pending = insert d s c.pending }))
      (settled : (context next : Context)
        → is_active c.status ≡ true
        → (s.step.recovery_gen == c.current.recovery_gen) ≡ true
        → lookup s.step.predecessor c.contexts ≡ some context
        → extend x c s t context ≡ ok next
        → P (settle x s d next c).1) where
    known :
        (context : Context) (r : Result Error Context)
        → is_active c.status ≡ true
        → is_reserved s.step.operation ≡ false
        → (s.step.recovery_gen == c.current.recovery_gen) ≡ true
        → lookup s.step.predecessor c.contexts ≡ some context
        → extend x c s t context ≡ r
        → P (accept_ordinary x s d t c).1
    unfolding accept_ordinary
    known context (err e) a o g l r = rw (a, o, g, l, r, accept_ordinary) p
    known context (ok next) a o g l r =
        rw (a, o, g, l, r, accept_ordinary) (settled context next a g l r)

    looked_up :
        (k : Option Context)
        → is_active c.status ≡ true
        → is_reserved s.step.operation ≡ false
        → (s.step.recovery_gen == c.current.recovery_gen) ≡ true
        → lookup s.step.predecessor c.contexts ≡ k
        → P (accept_ordinary x s d t c).1
    unfolding accept_ordinary
    looked_up (some context) a o g l = known context (extend x c s t context) a o g l refl
    looked_up none a o g l = elim (Bool-cases (leb max_records (length c.pending))) [
      | inl f ↦ rw (a, o, g, l, f, accept_ordinary) p
      | inr f ↦ rw (a, o, g, l, f, accept_ordinary) (held l (ground arith))
    ]

    pub ordinary_keeps : P (accept_ordinary x s d t c).1
    unfolding accept_ordinary
    ordinary_keeps = elim (Bool-cases (is_active c.status)) [
      | inr a ↦ rw (a, accept_ordinary) p
      | inl a ↦ elim (Bool-cases (is_reserved s.step.operation)) [
        | inl o ↦ rw (a, o, accept_ordinary) p
        | inr o ↦ elim (Bool-cases (s.step.recovery_gen == c.current.recovery_gen)) [
          | inr g ↦ rw (a, o, g, accept_ordinary) p
          | inl g ↦ looked_up (lookup s.step.predecessor c.contexts) a o g refl
        ]
      ]
    ]

  module _ (t : Succession)
      (forked : (first : Digest) (previous : SignedStep) (current : RecoveryDescriptor)
        → lookup s.step.recovery_gen c.recovery_proofs ≡ some (previous, current)
        → verify x s current.group.public_key ≡ ok tt
        → P (record (halt first s d c) { recovery_fork = true }))
      (full : P (record c { status = exhausted }))
      (recovered : (epoch : ℕ)
        → c.current.recovery_gen < s.step.recovery_gen
        → verify x s c.recovery.group.public_key ≡ ok tt
        → validate_recovery x c s.step t c.recovery ≡ ok tt
        → length c.records < max_records
        → length c.recovery_proofs < max_records
        → checked_add s.step.epoch 1 ≡ some epoch
        → P (recover s d t epoch c)) where
    compared :
        (previous : SignedStep) (current : RecoveryDescriptor) (r : Result Error Digest)
        → lookup s.step.recovery_gen c.recovery_proofs ≡ some (previous, current)
        → (verify x s current.group.public_key >>= λ _.
            validate_recovery x c s.step t current >>= λ _. digest x previous.step)
          ≡ r
        → P (repeat_recovery x s d t previous current c).1
    unfolding repeat_recovery
    compared previous current (err e) l h = rw (h, repeat_recovery) p
    compared previous current (ok first) l h =
        let (u, v, w) =
          >>=-inv (verify x s current.group.public_key)
            (λ _. validate_recovery x c s.step t current >>= λ _. digest x previous.step) h in
        elim (Bool-cases (first == d)) [
          | inl y ↦ rw (h, y, repeat_recovery) p
          | inr n ↦ rw (h, n, repeat_recovery) (forked first previous current l v)
        ]

    advanced :
        (e : Option ℕ)
        → lookup s.step.recovery_gen c.recovery_proofs ≡ none
        → leb s.step.recovery_gen c.current.recovery_gen ≡ false
        → (verify x s c.recovery.group.public_key >>= λ _.
            validate_recovery x c s.step t c.recovery)
          ≡ ok tt
        → leb max_records (length c.records) || leb max_records (length c.recovery_proofs) ≡ false
        → checked_add s.step.epoch 1 ≡ e
        → P (accept_recovery x s d t c).1
    unfolding accept_recovery
    advanced none l g h f k = rw (l, g, h, f, k, accept_recovery) p
    advanced (some epoch) l g h f k =
        let (u, v, w) =
          >>=-inv (verify x s c.recovery.group.public_key)
            (λ _. validate_recovery x c s.step t c.recovery) h in
        rw (l, g, h, f, k, accept_recovery)
          (recovered epoch (ground arith) v w (ground arith) (ground arith) k)

    checked :
        (r : Result Error (Unit {0}))
        → lookup s.step.recovery_gen c.recovery_proofs ≡ none
        → leb s.step.recovery_gen c.current.recovery_gen ≡ false
        → (verify x s c.recovery.group.public_key >>= λ _.
            validate_recovery x c s.step t c.recovery)
          ≡ r
        → P (accept_recovery x s d t c).1
    unfolding accept_recovery
    checked (err e) l g h = rw (l, g, h, accept_recovery) p
    checked (ok u) l g h =
        elim (Bool-cases
          (leb max_records (length c.records) || leb max_records (length c.recovery_proofs))) [
            | inl f ↦ rw (l, g, h, f, accept_recovery) full
            | inr f ↦ advanced (checked_add s.step.epoch 1) l g h f refl
          ]

    proved :
        (o : Option (SignedStep × RecoveryDescriptor))
        → lookup s.step.recovery_gen c.recovery_proofs ≡ o
        → P (accept_recovery x s d t c).1
    unfolding accept_recovery
    proved (some (previous, current)) l =
        rw (l, accept_recovery)
          (compared previous current
            (verify x s current.group.public_key >>= λ _.
              validate_recovery x c s.step t current >>= λ _. digest x previous.step)
            l refl)
    proved none l = elim (Bool-cases (leb s.step.recovery_gen c.current.recovery_gen)) [
      | inl g ↦ rw (l, g, accept_recovery) p
      | inr g ↦
          checked
            (verify x s c.recovery.group.public_key >>= λ _.
              validate_recovery x c s.step t c.recovery)
            l g refl
    ]

    pub recovery_keeps : P (accept_recovery x s d t c).1
    recovery_keeps = proved (lookup s.step.recovery_gen c.recovery_proofs) refl
