-- ===== src/Threshold/Chain/Grants.antt =====
-- The life of a grant on a chain: identities are spent once, and the revocation serial never falls.
use supgang.Base.{
  ℕ, ◌≤◌, ◌≡◌, refl, ◌⊎◌, inl, true, Option, none, some, Result, ok, err, lookup, insert,
  contains_key, arith, lookup-insert, lookup-remove, Map,
}
use supgang.External.{External}
use supgang.Threshold.{Error, Digest}
use supgang.Threshold.Records.{SignedStep, RootStep}
use supgang.Threshold.Regroup.{Succession}
use supgang.Threshold.Grant.{Grant, Revocation}
use supgang.Threshold.Grant.Decode.{decode_grant, decode_revocation}
use supgang.Threshold.Chain.{
  Chain, Context, halt, validate_grant_transition, apply_grant_transition,
}
use supgang.Threshold.Chain.Accept.{settle, accept_ordinary, accept_recovery, accept, drop_held}
use supgang.Threshold.Chain.Cases.{settle_keeps, ordinary_keeps, recovery_keeps}
use supgang.Threshold.Chain.Induction.{accept_keeps}

-- From `c` to `c'` no spent identity is forgotten, none that was spent is granted again, and the
-- revocation serial does not fall.
pub record Spends (id : ℕ) (c c' : Chain) : Type 0 where
  pub kept : contains_key id c.used_grant_ids ≡ true → contains_key id c'.used_grant_ids ≡ true
  pub not_revived :
      contains_key id c.used_grant_ids ≡ true
      → (lookup id c'.grants ≡ lookup id c.grants) ⊎ (lookup id c'.grants ≡ none)
  pub serial_mono : c.grant_revocation_serial ≤ c'.grant_revocation_serial

-- Every active grant has a spent identity.
abbrev pub IsSpent : ℕ → Chain → Type 0
IsSpent id c = contains_key id c.grants ≡ true → contains_key id c.used_grant_ids ≡ true

abbrev granted_id : Result Error Grant → ℕ
granted_id (ok g) = g.id
granted_id (err e) = 0

abbrev granted : Result Error Grant → Option Grant
granted (ok g) = some g
granted (err e) = none

abbrev revoked_id : Result Error Revocation → ℕ
revoked_id (ok r) = r.id
revoked_id (err e) = 0

pub Spends-refl : (id : ℕ) (c : Chain) → Spends id c c
Spends-refl id c = record { kept = λ h. h; not_revived = λ h. inl refl; serial_mono = omega arith }

pub Spends-trans : (id : ℕ) (a b c : Chain) → Spends id a b → Spends id b c → Spends id a c
Spends-trans id a b c h k = record {
  kept = λ u. k.kept (h.kept u);
  not_revived = λ u. ground (arith, h.not_revived u, k.not_revived (h.kept u));
  serial_mono = omega arith;
}

module _ (x : External) (id : ℕ) where
  -- a valid transition spends a fresh identity, or removes a grant under the next serial
  transition-Spends :
      (step : RootStep) (c : Chain) (children : Map Digest) {c' : Chain} (g : Result Error Grant)
      → decode_grant x step.payload ≡ g
      → validate_grant_transition x c step ≡ ok tt
      → apply_grant_transition x step (record c { children = children }) ≡ ok c'
      → IsSpent id c
      → Spends id c c' × IsSpent id c'
  unfolding validate_grant_transition apply_grant_transition
  transition-Spends step c children (ok g) e v a h = ground (
    arith,
    lookup-insert g.id id tt c.used_grant_ids,
    lookup-insert g.id id g c.grants,
    lookup-remove (revoked_id (decode_revocation x step.payload)) id c.grants,
  )
  transition-Spends step c children (err e') e v a h =
      ground (arith, lookup-remove (revoked_id (decode_revocation x step.payload)) id c.grants)

  settle-Spends :
      (s : SignedStep) (d : Digest) (next : Context) (c : Chain)
      → IsSpent id c
      → let c' = (settle x s d next c).1 in Spends id c c' × IsSpent id c'
  settle-Spends s d next c h =
      settle_keeps x (λ c'. Spends id c c' × IsSpent id c') s d c (Spends-refl id c, h) next
        (λ first n. unfold halt in ground arith) (ground arith) (ground arith)
        (λ c' n f p v a.
          let q =
            transition-Spends s.step c (insert s.step.predecessor d c.children)
              (decode_grant x s.step.payload) refl v a h in
          ground arith)

  ordinary-Spends :
      (s : SignedStep) (d : Digest) (t : Option Succession) (c : Chain)
      → IsSpent id c
      → let c' = (accept_ordinary x s d t c).1 in Spends id c c' × IsSpent id c'
  ordinary-Spends s d t c h =
      ordinary_keeps x (λ c'. Spends id c c' × IsSpent id c') s d c (Spends-refl id c, h) t
        (λ l f. ground arith) (λ context next a g l e. settle-Spends s d next c h)

  recovery-Spends :
      (s : SignedStep) (d : Digest) (t : Succession) (c : Chain)
      → IsSpent id c
      → let c' = (accept_recovery x s d t c).1 in Spends id c c' × IsSpent id c'
  recovery-Spends s d t c h =
      recovery_keeps x (λ c'. Spends id c c' × IsSpent id c') s d c (Spends-refl id c, h) t
        (λ first previous current l v. unfold halt in ground arith) (ground arith)
        (λ epoch o v w f k e. unfold lookup in ground arith)

  -- Over one presented step and the held steps that follow it, for an identity that is spent if a
  -- grant of it is active: it stays so, an identity that was spent stays spent, its grant is what it
  -- was or gone, and the revocation serial does not fall.
  pub accept-Spends :
      (s : SignedStep) (c : Chain)
      → IsSpent id c
      → Spends id c (accept x s c).1 × IsSpent id (accept x s c).1
  accept-Spends s c h =
      accept_keeps x (λ c'. Spends id c c' × IsSpent id c') (λ d c' p. ground arith)
        (λ s d t c' l h p.
          let q = ordinary-Spends s d t (drop_held d c') p.1 in
          let dropped : Spends id c (drop_held d c') = ground arith in
          (Spends-trans id c _ _ dropped q.0, q.1))
        s c (Spends-refl id c, h) (λ d t n e. ordinary-Spends s d t c h)
        (λ d t n e k. recovery-Spends s d t c h)
