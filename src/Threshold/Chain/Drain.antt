-- ===== src/Threshold/Chain/Drain.antt =====
-- The loop over the held steps: its 256 rounds are enough, so that after an accepted step no step
-- whose predecessor is known is left behind.
use supgang.Base.{
  ℕ, zero, suc, ◌≤◌, ◌<◌, ◌≡◌, refl, sym, ap, ◌∙◌, ◌⊎◌, inl, inr, true, false, List, [], ◌∷◌,
  Option, none, some, Result, ok, err, arith, length, Map, lookup, insert, remove, contains_key,
  length-remove_found, length-remove, length-insert, IsOrdered, lookup-IsAbove, insert-IsOrdered,
  remove-IsOrdered, Bool-cases, ◌==◌,
}
use mathlib.Core.Path.{subst}
use supgang.External.{External}
use supgang.Threshold.{Error, Digest, max_records}
use supgang.Threshold.Records.{SignedStep}
use supgang.Threshold.Regroup.{Succession}
use supgang.Threshold.Founding.{GroupDescriptor, RecoveryDescriptor}
use supgang.Threshold.Chain.{
  Chain, Context, Outcome, accepted, held, duplicate, fork, halt, new, is_active,
}
use supgang.Threshold.Chain.Accept.{
  Round, stop, go_on, find_ready, settle, accept_ordinary, accept_recovery, accept, drop_held,
  retry, round, drain, finish, transition_of, dispatch,
}
use supgang.Threshold.Chain.Order.{apply_grant_transition_same}
use supgang.Threshold.Step.{digest}
use supgang.Threshold.Chain.Induction.{accept_keeps, dispatch_keeps}
use supgang.Threshold.Chain.Run.{present, present_keeps}
use supgang.Threshold.Chain.Cases.{settle_keeps, ordinary_keeps, recovery_keeps}

-- the step that is found is the one that is taken off, and its predecessor is known
find_ready-lookup :
    (contexts : Map Context) (m : Map SignedStep) (d : Digest)
    → IsOrdered m
    → find_ready contexts m ≡ some d
    → (s : SignedStep) × (lookup d m ≡ some s) × (contains_key s.step.predecessor contexts ≡ true)
unfolding find_ready lookup
find_ready-lookup contexts [] d o f = cc
find_ready-lookup contexts ((key, s) ∷ rest) d o f =
    elim (Bool-cases (contains_key s.step.predecessor contexts)) [
      | inl y ↦ (s, ground arith, y)
      | inr n ↦
          let (t, l, k) = find_ready-lookup contexts rest d o.1 (ground arith) in
          let apart : lookup key rest ≡ none = lookup-IsAbove key rest o.0 in (t, ground arith, k)
    ]

-- what a search that finds nothing says of every held step
find_ready-none :
    (contexts : Map Context) (m : Map SignedStep)
    → find_ready contexts m ≡ none
    → (d : Digest) (s : SignedStep) → lookup d m ≡ some s
    → contains_key s.step.predecessor contexts ≡ false
unfolding find_ready lookup
find_ready-none contexts [] f d s l = cc
find_ready-none contexts ((key, t) ∷ rest) f d s l = elim (Bool-cases (key == d)) [
  | inl y ↦ ground arith
  | inr n ↦ find_ready-none contexts rest (ground arith) d s (ground arith)
]

module _ (x : External) where
  settle-pending :
      (s : SignedStep) (d : Digest) (next : Context) (c : Chain)
      → (settle x s d next c).1.pending ≡ c.pending
  settle-pending s d next c =
      settle_keeps x (λ c'. c'.pending ≡ c.pending) s d c refl next
        (λ first n. unfold halt in ground arith) refl refl
        (λ c' n f p v a.
          ap (λ (k : Chain). k.pending)
            (apply_grant_transition_same x s.step
              (record c { children = insert s.step.predecessor d c.children }) a))

  -- an ordinary step whose predecessor is known is not held
  ordinary-pending :
      (s : SignedStep) (d : Digest) (t : Option Succession) (c : Chain)
      → contains_key s.step.predecessor c.contexts ≡ true
      → (accept_ordinary x s d t c).1.pending ≡ c.pending
  ordinary-pending s d t c k =
      ordinary_keeps x (λ c'. c'.pending ≡ c.pending) s d c refl t (λ l f. ground arith)
        (λ context next a g l e. settle-pending s d next c)

  retry-pending :
      (s : SignedStep) (d : Digest) (c : Chain) {c' : Chain}
      → contains_key s.step.predecessor c.contexts ≡ true
      → retry x s d c ≡ go_on c'
      → c'.pending ≡ c.pending
  unfolding retry
  retry-pending s d c {c'} k e = tried (transition_of x s.step) refl
    where
      tried :
          (t : Result Error (Option Succession))
          → transition_of x s.step ≡ t
          → c'.pending ≡ c.pending
      tried (err f) q = ground arith
      tried (ok t) q = let same = ordinary-pending s d t c k in ground arith

  -- A round that goes on has taken a held step off, and put none back.
  round-pending :
      (c : Chain) {c' : Chain}
      → IsOrdered c.pending
      → round x c ≡ go_on c'
      → (length c'.pending < length c.pending) × IsOrdered c'.pending
  unfolding round
  round-pending c {c'} o e = searched (find_ready c.contexts c.pending) refl
    where
      searched :
          (f : Option Digest)
          → find_ready c.contexts c.pending ≡ f
          → (length c'.pending < length c.pending) × IsOrdered c'.pending
      searched none f = ground arith
      searched (some d) f =
          let (s, l, k) = find_ready-lookup c.contexts c.pending d o f in
          let tried : retry x s d (drop_held d c) ≡ go_on c' = ground arith in
          let same : c'.pending ≡ remove d c.pending = retry-pending s d (drop_held d c) k tried in
          (
            ground (arith, length-remove_found d c.pending),
            subst IsOrdered (sym same) (remove-IsOrdered d c.pending o),
          )

  -- No held step has a predecessor that is known, unless the chain is not active.
  abbrev IsDrained : Chain → Type 0
  IsDrained c = (is_active c.status ≡ false) ⊎ (find_ready c.contexts c.pending ≡ none)

  stop-IsDrained : (c c' : Chain) {u : Unit {0}} → round x c ≡ stop (ok u) c' → IsDrained c'
  unfolding round retry
  stop-IsDrained c c' e = ground arith

  empty-find_ready :
      (contexts : Map Context) (m : Map SignedStep) → length m ≤ 0 → find_ready contexts m ≡ none
  unfolding find_ready
  empty-find_ready contexts [] b = refl
  empty-find_ready contexts ((key, s) ∷ rest) b = ground arith

  drain_on :
      (n : ℕ) (c : Chain) (r : Round)
      → round x c ≡ r
      → length c.pending ≤ suc n
      → IsOrdered c.pending
      → ((c' : Chain)
          → length c'.pending ≤ n
          → IsOrdered c'.pending
          → (drain x n c').0 ≡ ok tt
          → IsDrained (drain x n c').1)
      → (drain x (suc n) c).0 ≡ ok tt
      → IsDrained (drain x (suc n) c).1
  unfolding drain
  drain_on n c (stop (err f) c') e b o ih h = ground arith
  drain_on n c (stop (ok u) c') e b o ih h = rw (e, drain) (stop-IsDrained c c' e)
  drain_on n c (go_on c') e b o ih h =
      let (l, p) = round-pending c o e in rw (e, drain) (ih c' (omega arith) p (ground arith))

  drain-IsDrained :
      (n : ℕ) (c : Chain)
      → length c.pending ≤ n
      → IsOrdered c.pending
      → (drain x n c).0 ≡ ok tt
      → IsDrained (drain x n c).1
  unfolding drain
  drain-IsDrained zero c b o h = inr (empty-find_ready c.contexts c.pending b)
  drain-IsDrained (suc n) c b o h = drain_on n c (round x c) refl b o (drain-IsDrained n) h

  -- The held steps fit the fixed memory and stand in the order of their digests.
  abbrev pub IsQueued : Map SignedStep → Type 0
  IsQueued m = (length m ≤ max_records) × IsOrdered m

  dropped-IsQueued :
      (d : Digest) (c : Chain) → IsQueued c.pending → IsQueued (drop_held d c).pending
  dropped-IsQueued d c (b, o) =
      (omega (arith, length-remove d c.pending), remove-IsOrdered d c.pending o)

  ordinary-IsQueued :
      (s : SignedStep) (d : Digest) (t : Option Succession) (c : Chain)
      → IsQueued c.pending
      → IsQueued (accept_ordinary x s d t c).1.pending
  ordinary-IsQueued s d t c q =
      ordinary_keeps x (λ c'. IsQueued c'.pending) s d c q t
        (λ l f. (omega (arith, length-insert d s c.pending), insert-IsOrdered d s c.pending q.1))
        (λ context next a g l e. subst IsQueued (sym (settle-pending s d next c)) q)

  recovery-IsQueued :
      (s : SignedStep) (d : Digest) (t : Succession) (c : Chain)
      → IsQueued c.pending
      → IsQueued (accept_recovery x s d t c).1.pending
  recovery-IsQueued s d t c q =
      recovery_keeps x (λ c'. IsQueued c'.pending) s d c q t
        (λ first previous current l v. unfold halt in q) q (λ epoch g v w f k e. (omega arith, tt))

  retried-IsQueued :
      (s : SignedStep) (d : Digest) (t : Option Succession) (c : Chain)
      → IsQueued c.pending
      → IsQueued (accept_ordinary x s d t (drop_held d c)).1.pending
  retried-IsQueued s d t c q = ordinary-IsQueued s d t (drop_held d c) (dropped-IsQueued d c q)

  dispatch-IsQueued :
      (s : SignedStep) (c : Chain) (d : Digest) (t : Option Succession)
      → digest x s.step ≡ ok d
      → transition_of x s.step ≡ ok t
      → IsQueued c.pending
      → IsQueued (dispatch x s d t c).1.pending
  dispatch-IsQueued s c d t h e q =
      dispatch_keeps x (λ c'. IsQueued c'.pending) dropped-IsQueued
        (λ s d t c l e q. retried-IsQueued s d t c q) s c q (λ d t h e. ordinary-IsQueued s d t c q)
        (λ d t h e k. recovery-IsQueued s d t c q) d t h e

  accept-IsQueued :
      (s : SignedStep) (c : Chain) → IsQueued c.pending → IsQueued (accept x s c).1.pending
  accept-IsQueued s c q =
      accept_keeps x (λ c'. IsQueued c'.pending) dropped-IsQueued
        (λ s d t c l e q. retried-IsQueued s d t c q) s c q (λ d t h e. ordinary-IsQueued s d t c q)
        (λ d t h e k. recovery-IsQueued s d t c q)

  finish_accepted :
      (c : Chain) (r : Result Error (Unit {0}))
      → (drain x max_records c).0 ≡ r
      → IsQueued c.pending
      → (finish x (ok accepted) c).0 ≡ ok accepted
      → IsDrained (finish x (ok accepted) c).1
  unfolding finish
  finish_accepted c (err f) e q h = ground arith
  finish_accepted c (ok u) e (b, o) h = rw (e, finish) (drain-IsDrained max_records c b o e)

  finish-IsDrained :
      (r : Result Error Outcome) (c : Chain)
      → IsQueued c.pending
      → (finish x r c).0 ≡ ok accepted
      → IsDrained (finish x r c).1
  unfolding finish
  finish-IsDrained (err f) c q h = cc
  finish-IsDrained (ok accepted) c q h = finish_accepted c (drain x max_records c).0 refl q h
  finish-IsDrained (ok held) c q h = ground arith
  finish-IsDrained (ok duplicate) c q h = ground arith
  finish-IsDrained (ok fork) c q h = ground arith

  dispatched :
      (s : SignedStep) (c : Chain) (r : Result Error Digest) (u : Result Error (Option Succession))
      → digest x s.step ≡ r
      → transition_of x s.step ≡ u
      → (accept x s c).0 ≡ ok accepted
      → (d : Digest) × (t : Option Succession) × (digest x s.step ≡ ok d)
        × (transition_of x s.step ≡ ok t)
        × (accept x s c ≡ finish x (dispatch x s d t c).0 (dispatch x s d t c).1)
  unfolding accept
  dispatched s c (err e) u p q h = ground arith
  dispatched s c (ok d) (err e) p q h = ground arith
  dispatched s c (ok d) (ok t) p q h = (d, t, p, q, ground arith)

  accept-IsDrained :
      (s : SignedStep) (c : Chain)
      → IsQueued c.pending
      → (accept x s c).0 ≡ ok accepted
      → IsDrained (accept x s c).1
  accept-IsDrained s c q h =
      let (d, t, p, e, same) =
        dispatched s c (digest x s.step) (transition_of x s.step) refl refl h in
      let (r, c') = dispatch x s d t c in
      let done : IsDrained (finish x r c').1 =
        finish-IsDrained r c' (dispatch-IsQueued s c d t p e q) (ap (λ k. k.0) (sym same) ∙ h) in
      subst (λ (k : Result Error Outcome × Chain). IsDrained k.1) (sym same) done

  founded-IsQueued :
      (g : GroupDescriptor) (r : RecoveryDescriptor) {c : Chain}
      → new x g r ≡ ok c
      → IsQueued c.pending
  founded-IsQueued g r {c} e =
      let empty : c.pending ≡ [] = unfold new in ground arith in
      subst IsQueued (sym empty) (omega arith, tt)

  -- At any time from the founding on, when a step is accepted and the chain is still active, no held
  -- step is left whose predecessor the chain knows: 256 rounds always suffice.
  pub life-drained :
      (g : GroupDescriptor) (r : RecoveryDescriptor) (ss : List SignedStep) (s : SignedStep)
      {c : Chain}
      → new x g r ≡ ok c
      → (accept x s (present x ss c)).0 ≡ ok accepted
      → is_active (accept x s (present x ss c)).1.status ≡ true
      → (d : Digest) (waiting : SignedStep)
      → lookup d (accept x s (present x ss c)).1.pending ≡ some waiting
      → contains_key waiting.step.predecessor (accept x s (present x ss c)).1.contexts ≡ false
  life-drained g r ss s {c} n h a d waiting l =
      let q =
        present_keeps x (λ c'. IsQueued c'.pending) accept-IsQueued ss c (founded-IsQueued g r n) in
      let c' = (accept x s (present x ss c)).1 in
      elim (accept-IsDrained s (present x ss c) q h) [
        | inl i ↦ cc
        | inr f ↦ find_ready-none c'.contexts c'.pending f d waiting l
      ]
