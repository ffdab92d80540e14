-- ===== src/Threshold/Chain/Induction.antt =====
-- What every ordinary step, every recovery and every drop of a held step keep, `Chain::accept` keeps.
use supgang.Base.{
  ℕ, zero, suc, ◌≡◌, refl, Bool, true, false, Option, none, some, Result, ok, err, lookup,
  if◌then◌else◌, Bool-cases, inl, inr, ◌==◌,
}
use supgang.External.{External}
use supgang.Threshold.{Error, Digest, max_records, halted as halted_error}
use supgang.Threshold.Records.{SignedStep}
use supgang.Threshold.Step.{digest}
use supgang.Threshold.Regroup.{Succession}
use supgang.Threshold.Chain.{Outcome, accepted, Chain, is_active}
use supgang.Threshold.Chain.Accept.{
  find_ready, is_bound, is_planned, drop_held, Round, stop, go_on, after_round, retry, round,
  accept_ordinary, accept_recovery, transition_of, drain, finish, dispatch, accept,
}

pub if-state :
    {A : Type 0} (P : Chain → Type 0) (b : Bool) (r r' : Result Error A × Chain)
    → P r.1
    → P r'.1
    → P (if b then r else r').1
if-state P true r r' p q = p
if-state P false r r' p q = q

module _ (x : External) (P : Chain → Type 0)
    (dropped : (d : Digest) (c : Chain) → P c → P (drop_held d c))
    (drained : (s : SignedStep) (d : Digest) (t : Option Succession) (c : Chain)
      → lookup d c.pending ≡ some s
      → transition_of x s.step ≡ ok t
      → P c
      → P (accept_ordinary x s d t (drop_held d c)).1) where
  retry_keeps :
      (c : Chain) (d : Digest) (s : SignedStep) (o : Result Error (Option Succession))
      → transition_of x s.step ≡ o
      → lookup d c.pending ≡ some s
      → P c
      → P (after_round (retry x s d (drop_held d c)))
  unfolding retry
  retry_keeps c d s (err e) t l p = rw (t, retry) (dropped d c p)
  retry_keeps c d s (ok o) t l p =
      let q = drained s d o c l t p in
      elim (Bool-cases (is_bound (accept_ordinary x s d o (drop_held d c)).0)) [
        | inl b ↦ rw (t, b, retry) q
        | inr b ↦ rw (t, b, retry) q
      ]

  held_keeps :
      (c : Chain) (d : Digest) (o : Option SignedStep)
      → lookup d c.pending ≡ o
      → is_active c.status ≡ true
      → find_ready c.contexts c.pending ≡ some d
      → P c
      → P (after_round (round x c))
  unfolding round
  held_keeps c d none l a f p = rw (a, f, l, round) p
  held_keeps c d (some s) l a f p =
      rw (a, f, l, round) (retry_keeps c d s (transition_of x s.step) refl l p)

  ready_keeps :
      (c : Chain) (o : Option Digest)
      → find_ready c.contexts c.pending ≡ o
      → is_active c.status ≡ true
      → P c
      → P (after_round (round x c))
  unfolding round
  ready_keeps c none f a p = rw (a, f, round) p
  ready_keeps c (some d) f a p = held_keeps c d (lookup d c.pending) refl a f p

  round_keeps : (c : Chain) → P c → P (after_round (round x c))
  unfolding round
  round_keeps c p = elim (Bool-cases (is_active c.status)) [
    | inl a ↦ ready_keeps c (find_ready c.contexts c.pending) refl a p
    | inr a ↦ rw (a, round) p
  ]

  drain_on :
      (n : ℕ) (c : Chain) (r : Round)
      → round x c ≡ r
      → ((c' : Chain) → P c' → P (drain x n c').1)
      → P (after_round r)
      → P (drain x (suc n) c).1
  unfolding drain
  drain_on n c (stop r c') e ih p = rw (e, drain) p
  drain_on n c (go_on c') e ih p = rw (e, drain) (ih c' p)

  pub drain_keeps : (n : ℕ) (c : Chain) → P c → P (drain x n c).1
  drain_keeps zero c p = unfold drain in p
  drain_keeps (suc n) c p = drain_on n c (round x c) refl (drain_keeps n) (round_keeps c p)

  finish_drain :
      (c : Chain) (r : Result Error (Unit {0}))
      → (drain x max_records c).0 ≡ r
      → P (drain x max_records c).1
      → P (finish x (ok accepted) c).1
  unfolding finish
  finish_drain c (ok u) e p = rw (e, finish) p
  finish_drain c (err u) e p = rw (e, finish) p

  pub finish_keeps : (r : Result Error Outcome) (c : Chain) → P c → P (finish x r c).1
  unfolding finish
  finish_keeps (err e) c p = p
  finish_keeps (ok accepted) c p =
      finish_drain c (drain x max_records c).0 refl (drain_keeps max_records c p)
  finish_keeps (ok _) c p = p

  -- The step that is presented meets the chain as it stands.
  module _ (s : SignedStep) (c : Chain) (p : P c)
      (ordinary : (d : Digest) (t : Option Succession)
        → digest x s.step ≡ ok d
        → transition_of x s.step ≡ ok t
        → P (accept_ordinary x s d t c).1)
      (recovery : (d : Digest) (t : Succession)
        → digest x s.step ≡ ok d
        → transition_of x s.step ≡ ok (some t)
        → is_planned t.kind ≡ false
        → P (accept_recovery x s d t c).1) where
    pub dispatch_keeps :
        (d : Digest) (t : Option Succession)
        → digest x s.step ≡ ok d
        → transition_of x s.step ≡ ok t
        → P (dispatch x s d t c).1
    unfolding dispatch
    dispatch_keeps d none h t = ordinary d none h t
    dispatch_keeps d (some t) h e = elim (Bool-cases (is_planned t.kind)) [
      | inl k ↦ rw (k, dispatch) (ordinary d (some t) h e)
      | inr k ↦ rw (k, dispatch) (recovery d t h e k)
    ]

    accept_open :
        (d : Digest) (o : Result Error (Option Succession))
        → digest x s.step ≡ ok d
        → transition_of x s.step ≡ o
        → (s.step.hive == c.hive) ≡ true
        → P (accept x s c).1
    unfolding accept
    accept_open d (err e) h t y =
        rw (h, t, y, accept)
          (if-state {A = Outcome} P c.recovery_fork (err halted_error, c) (err e, c) p p)
    accept_open d (ok o) h t y =
        let (r, c') = dispatch x s d o c in
        rw (h, t, y, accept)
          (if-state {A = Outcome} P c.recovery_fork (err halted_error, c) (finish x r c') p
            (finish_keeps r c' (dispatch_keeps d o h t)))

    accept_on : (d : Digest) → digest x s.step ≡ ok d → P (accept x s c).1
    unfolding accept
    accept_on d h = elim (Bool-cases (s.step.hive == c.hive)) [
      | inr n ↦ rw (h, n, accept) p
      | inl y ↦ accept_open d (transition_of x s.step) h refl y
    ]

    accept_digest : (o : Result Error Digest) → digest x s.step ≡ o → P (accept x s c).1
    unfolding accept
    accept_digest (err e) h = rw (h, accept) p
    accept_digest (ok d) h = accept_on d h

    pub accept_keeps : P (accept x s c).1
    accept_keeps = accept_digest (digest x s.step) refl
