-- ===== src/Threshold/Renewal.antt =====
-- crates/supgang/src/threshold/status_renewal.rs: root-signed renewal terms, cumulative counts, and
-- the ledger that an issuer and a target keep. The `draft_` operations are the whole transitions;
-- `new` and `issue` only add a permit that no caller can have.
pub mod Decode
pub mod Laws
pub mod Runs
pub mod Tests
use supgang.Base.{
  ℕ, ◌+◌, Bool, true, false, not, ◌&&◌, ◌||◌, [], ◌∷◌, ◌++◌, Option, none, some, Result, ok, err,
  ◌>>=◌, ◌>>◌, refuse_if, ok_or, checked_add, ltb, leb, ◌==◌, if◌then◌else◌, Bytes, ascii,
}
use supgang.External.{External}
use supgang.Threshold.{
  Error, invalid, bound, authority, proof, halted, Digest, items, hash, fixed_item,
}

abbrev pub owner_max_age : ℕ
owner_max_age = 604800

abbrev pub owner_policy_cap : ℕ
owner_policy_cap = 0

abbrev pub owner_presence_cap : ℕ
owner_presence_cap = 4

abbrev pub owner_total_cap : ℕ
owner_total_cap = 4

abbrev policy_domain : Bytes
policy_domain = ascii "supgang/status-policy/v1" ++ (0 ∷ [])

abbrev terms_domain : Bytes
terms_domain = ascii "supgang/status-policy-terms/v1" ++ (0 ∷ [])

pub record Policy : Type 0 where
  pub hive : ℕ
  pub root_head : Digest
  pub budget_id : ℕ
  pub epoch : ℕ
  pub maximum_age : ℕ
  pub policy_cap : ℕ
  pub presence_cap : ℕ
  pub total_cap : ℕ

pub record SignedPolicy : Type 0 where
  pub policy : Policy
  pub signature : ℕ

pub data Mode : Type 0 where
  initial policy_mode presence_mode : Mode

abbrev pub mode_text : Mode → Bytes
mode_text initial = ascii "initial"
mode_text policy_mode = ascii "policy"
mode_text presence_mode = ascii "presence"

abbrev pub is_initial : Mode → Bool
is_initial initial = true
is_initial _ = false

abbrev pub is_policy : Mode → Bool
is_policy policy_mode = true
is_policy _ = false

abbrev pub is_presence : Mode → Bool
is_presence presence_mode = true
is_presence _ = false

pub record Counts : Type 0 where
  pub policy : ℕ
  pub presence : ℕ
  pub total : ℕ

-- `Counts::default`
abbrev pub no_counts : Counts
no_counts = record { policy = 0; presence = 0; total = 0 }

abbrev pub counts_eq : Counts → Counts → Bool
counts_eq a b = a.policy == b.policy && a.presence == b.presence && a.total == b.total

-- `self.policy.checked_add(self.presence) != Some(self.total)`
abbrev pub unlike : Option ℕ → ℕ → Bool
unlike none n = true
unlike (some m) n = not (m == n)

-- `Counts::check`
unfoldable pub check_counts : Counts → Policy → Result Error (Unit {0})
check_counts c p =
    refuse_if
      (ltb p.policy_cap c.policy
        || ltb p.presence_cap c.presence
        || ltb p.total_cap c.total
        || unlike (checked_add c.policy c.presence) c.total)
      authority

pub record Ledger : Type 0 where
  pub terms : Digest
  pub budget_id : ℕ
  pub epoch : ℕ
  pub counts : Counts
  pub issued_at : ℕ
  pub status_digest : Digest

abbrev bool_eq : Bool → Bool → Bool
bool_eq true b = b
bool_eq false b = not b

abbrev is_impossible : Ledger → Bool
is_impossible l =
    l.terms == 0
    || l.budget_id == 0
    || l.epoch == 0
    || unlike (checked_add l.counts.policy l.counts.presence) l.counts.total
    || ltb owner_total_cap l.counts.total
    || not (bool_eq (l.status_digest == 0) (l.issued_at == 0 && counts_eq l.counts no_counts))

-- The match on the mode in `Ledger::draft_issue`: exactly one more in the mode's own count.
unfoldable pub is_next : Ledger → Mode → Counts → Result Error Bool
is_next l initial c = ok (l.status_digest == 0 && counts_eq c no_counts)
is_next l policy_mode c = do
  policy ← ok_or (checked_add l.counts.policy 1) bound
  if c.policy == policy && c.presence == l.counts.presence
      then (do total ← ok_or (checked_add l.counts.total 1) bound; ok (c.total == total))
      else ok false
is_next l presence_mode c =
    if c.policy == l.counts.policy
    then (do
      presence ← ok_or (checked_add l.counts.presence 1) bound
      if c.presence == presence
          then (do total ← ok_or (checked_add l.counts.total 1) bound; ok (c.total == total))
          else ok false)
    else ok false

-- The checks of `Ledger::draft_observe` behind the common ones.
unfoldable pub check_observed : Ledger → Mode → Counts → ℕ → Digest → Result Error (Unit {0})
check_observed l mode c issued_at digest =
    if ltb c.policy l.counts.policy
      || ltb c.presence l.counts.presence
      || ltb c.total l.counts.total
    then err authority
    else if counts_eq c l.counts
    then (do
      refuse_if (not (l.status_digest == 0) && not (l.status_digest == digest)) halted
      refuse_if (not (l.status_digest == 0) && not (l.issued_at == issued_at)) halted
      refuse_if (l.status_digest == 0 && not (is_initial mode)) authority)
    else refuse_if
        (is_initial mode
          || l.status_digest == 0
          || (is_policy mode && c.policy == l.counts.policy)
          || (is_presence mode && c.presence == l.counts.presence))
        authority

abbrev pub advance : Ledger → Counts → ℕ → Digest → Ledger
advance l c issued_at digest = record l {
  counts = c;
  issued_at = issued_at;
  status_digest = digest;
}

module _ (x : External) where
  unfoldable pub encode_policy : Policy → Result Error Bytes
  encode_policy p = do
    refuse_if
        (p.budget_id == 0
          || p.epoch == 0
          || p.maximum_age == 0
          || ltb owner_max_age p.maximum_age
          || ltb owner_policy_cap p.policy_cap
          || ltb owner_presence_cap p.presence_cap
          || ltb owner_total_cap p.total_cap
          || ltb (p.policy_cap + p.presence_cap) p.total_cap)
        bound
    ok (
        items (
          x.array 9
          ∷ x.u8 1
          ∷ fixed_item x 32 p.hive
          ∷ fixed_item x 32 p.root_head
          ∷ fixed_item x 16 p.budget_id
          ∷ x.u64 p.epoch
          ∷ x.u64 p.maximum_age
          ∷ x.u64 p.policy_cap
          ∷ x.u64 p.presence_cap
          ∷ x.u64 p.total_cap
          ∷ []))

  abbrev terms : Policy → Bytes
  terms p = items (
      x.array 7
      ∷ fixed_item x 32 p.hive
      ∷ fixed_item x 16 p.budget_id
      ∷ x.u64 p.epoch
      ∷ x.u64 p.maximum_age
      ∷ x.u64 p.policy_cap
      ∷ x.u64 p.presence_cap
      ∷ x.u64 p.total_cap
      ∷ [])

  unfoldable pub terms_digest : Policy → Result Error Digest
  terms_digest p = do b ← encode_policy p; ok (hash x (terms_domain ++ terms p))

  unfoldable pub content_digest : Policy → Result Error Digest
  content_digest p = do b ← encode_policy p; ok (hash x (policy_domain ++ b))

  unfoldable pub encode_signed_policy : SignedPolicy → Result Error Bytes
  encode_signed_policy s = do
    policy ← encode_policy s.policy
    ok (items (x.array 3 ∷ x.u8 1 ∷ x.bytes policy ∷ fixed_item x 64 s.signature ∷ []))

  -- `SignedPolicy::verify`
  unfoldable pub verify_policy : SignedPolicy → ℕ → ℕ → Digest → Result Error (Unit {0})
  verify_policy s root_key hive head = do
    refuse_if (not (s.policy.hive == hive) || not (s.policy.root_head == head)) authority
    refuse_if (not (x.ed25519_key root_key)) proof
    refuse_if (x.is_weak root_key) proof
    b ← encode_policy s.policy
    refuse_if (not (x.verify_strict root_key (policy_domain ++ b) s.signature)) proof

  -- `Ledger::draft_new`
  unfoldable pub draft_new : Policy → Result Error Ledger
  draft_new p = do
    digest ← terms_digest p
    ok (record {
      terms = digest;
      budget_id = p.budget_id;
      epoch = p.epoch;
      counts = no_counts;
      issued_at = 0;
      status_digest = 0;
    })

  unfoldable pub encode_ledger : Ledger → Result Error Bytes
  encode_ledger l = do
    refuse_if (is_impossible l) invalid
    ok (
        items (
          x.array 9
          ∷ x.u8 1
          ∷ fixed_item x 32 l.terms
          ∷ fixed_item x 16 l.budget_id
          ∷ x.u64 l.epoch
          ∷ x.u64 l.counts.policy
          ∷ x.u64 l.counts.presence
          ∷ x.u64 l.counts.total
          ∷ x.u64 l.issued_at
          ∷ fixed_item x 32 l.status_digest
          ∷ []))

  -- `Ledger::check_common`
  unfoldable pub check_common : Ledger → Policy → Counts → ℕ → Digest → Result Error (Unit {0})
  check_common l p c issued_at digest = do
    named ← terms_digest p
    refuse_if
        (not (l.terms == named)
          || not (l.budget_id == p.budget_id)
          || not (l.epoch == p.epoch)
          || ltb issued_at l.issued_at
          || digest == 0)
        authority
    check_counts c p

  -- `Ledger::draft_issue`
  unfoldable pub draft_issue : Ledger → Policy → Mode → Counts → ℕ → Digest → Result Error Ledger
  draft_issue l p mode c issued_at digest = do
    check_common l p c issued_at digest
    next ← is_next l mode c
    refuse_if (not next || (not (is_initial mode) && l.status_digest == 0)) authority
    ok (advance l c issued_at digest)

  -- `Ledger::draft_observe`
  unfoldable pub draft_observe : Ledger → Policy → Mode → Counts → ℕ → Digest → Result Error Ledger
  draft_observe l p mode c issued_at digest = do
    check_common l p c issued_at digest
    check_observed l mode c issued_at digest
    ok (advance l c issued_at digest)
