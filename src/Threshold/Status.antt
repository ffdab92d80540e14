-- ===== src/Threshold/Status.antt =====
-- crates/supgang/src/threshold/status.rs: the short-lived root status, and what a target checks of it.
-- `binary_search` on a list that was checked to be sorted is membership.
pub mod Decode
pub mod Laws
pub mod Tests
use supgang.Base.{
  ℕ, ◌-◌, Bool, true, false, not, ◌&&◌, ◌||◌, List, [], ◌∷◌, ◌++◌, map, any, Result, ok, err, ◌>>=◌,
  ◌>>◌, refuse_if, ltb, leb, ◌==◌, if◌then◌else◌, length, Bytes, ascii,
}
use supgang.External.{External}
use supgang.Threshold.{Error, bound, authority, proof, Digest, items, hash, fixed_item}
use supgang.Threshold.Renewal.{
  SignedPolicy, Mode, mode_text, is_initial, is_policy, is_presence, Counts, no_counts, counts_eq,
  check_counts, Ledger, content_digest, verify_policy, draft_observe,
}

abbrev pub max_status_age : ℕ
max_status_age = 604800

abbrev pub max_active_entries : ℕ
max_active_entries = 256

abbrev pub max_status_bytes : ℕ
max_status_bytes = 16384

abbrev pub max_signed_status_bytes : ℕ
max_signed_status_bytes = 16512

abbrev domain : Bytes
domain = ascii "supgang/root-status/v1" ++ (0 ∷ [])

pub record Scope : Type 0 where
  pub hive : ℕ
  pub head : Digest
  pub member_floor : ℕ
  pub grant_floor : ℕ
  pub now : ℕ
  pub maximum_age : ℕ
  pub policy : SignedPolicy
  pub ledger : Ledger

pub record Status : Type 0 where
  pub hive : ℕ
  pub root_head : Digest
  pub member_serial : ℕ
  pub grant_serial : ℕ
  pub active_grants : List ℕ
  pub active_members : List ℕ
  pub issued_at : ℕ
  pub expires_at : ℕ
  pub policy_digest : Digest
  pub budget_id : ℕ
  pub epoch : ℕ
  pub mode : Mode
  pub counts : Counts

pub record SignedStatus : Type 0 where
  pub status : Status
  pub signature : ℕ

-- `windows(2).all(|pair| pair.first() < pair.get(1))`
unfoldable pub is_sorted : List ℕ → Bool
is_sorted [] = true
is_sorted (a ∷ []) = true
is_sorted (a ∷ b ∷ rest) = ltb a b && is_sorted (b ∷ rest)

unfoldable pub check_active_sets : Status → Result Error (Unit {0})
check_active_sets s =
    refuse_if
      (ltb max_active_entries (length s.active_grants)
        || ltb max_active_entries (length s.active_members)
        || not (is_sorted s.active_grants)
        || not (is_sorted s.active_members))
      bound

abbrev is_none {ℓ} : {A : Type ℓ} → List A → Bool
is_none [] = true
is_none (a ∷ rest) = false

abbrev pub holds : List ℕ → ℕ → Bool
holds ids id = any (λ other. other == id) ids

unfoldable pub check_active_grant : Status → ℕ → List ℕ → Result Error (Unit {0})
check_active_grant s grant_id signer_nodes = do
  check_active_sets s
  refuse_if
      (is_none signer_nodes
        || ltb 3 (length signer_nodes)
        || not (holds s.active_grants grant_id)
        || any (λ signer. not (holds s.active_members signer)) signer_nodes)
      authority

module _ (x : External) where
  unfoldable pub encode : Status → Result Error Bytes
  encode s = do
    refuse_if (leb s.expires_at s.issued_at || ltb max_status_age (s.expires_at - s.issued_at))
        bound
    check_active_sets s
    let bytes = items (
        x.array 16
        ∷ x.u8 1
        ∷ fixed_item x 32 s.hive
        ∷ fixed_item x 32 s.root_head
        ∷ x.u64 s.member_serial
        ∷ x.u64 s.grant_serial
        ∷ x.array (length s.active_grants)
        ∷ items (map (fixed_item x 16) s.active_grants)
        ∷ x.array (length s.active_members)
        ∷ items (map (fixed_item x 32) s.active_members)
        ∷ x.u64 s.issued_at
        ∷ x.u64 s.expires_at
        ∷ fixed_item x 32 s.policy_digest
        ∷ fixed_item x 16 s.budget_id
        ∷ x.u64 s.epoch
        ∷ x.str (mode_text s.mode)
        ∷ x.u64 s.counts.policy
        ∷ x.u64 s.counts.presence
        ∷ x.u64 s.counts.total
        ∷ [])
    if ltb max_status_bytes (length bytes) then err bound else ok bytes

  -- `Status::check`
  unfoldable pub check : Status → Scope → Result Error (Unit {0})
  check s scope = do
    check_active_sets s
    let policy = scope.policy.policy
    refuse_if (scope.maximum_age == 0 || ltb policy.maximum_age scope.maximum_age) bound
    refuse_if (not (s.hive == scope.hive) || not (s.hive == policy.hive)) authority
    refuse_if (not (s.root_head == scope.head) || not (scope.head == policy.root_head)) authority
    digest ← content_digest x policy
    refuse_if
        (not (s.policy_digest == digest)
          || not (s.budget_id == policy.budget_id)
          || not (s.epoch == policy.epoch))
        authority
    check_counts s.counts policy
    refuse_if
        ((is_initial s.mode && not (counts_eq s.counts no_counts))
          || (is_policy s.mode && s.counts.policy == 0)
          || (is_presence s.mode && s.counts.presence == 0))
        authority
    refuse_if (ltb s.member_serial scope.member_floor || ltb s.grant_serial scope.grant_floor)
        authority
    refuse_if (leb s.expires_at s.issued_at) authority
    refuse_if (ltb scope.now s.issued_at || ltb s.expires_at scope.now) authority
    refuse_if
        (ltb scope.maximum_age (scope.now - s.issued_at)
          || ltb scope.maximum_age (s.expires_at - s.issued_at))
        authority

  unfoldable pub encode_signed : SignedStatus → Result Error Bytes
  encode_signed signed = do
    content ← encode signed.status
    let bytes = items (x.array 3 ∷ x.u8 1 ∷ x.bytes content ∷ fixed_item x 64 signed.signature ∷ [])
    if ltb max_signed_status_bytes (length bytes) then err bound else ok bytes

  -- `SignedStatus::verify`
  unfoldable pub verify_status : SignedStatus → ℕ → Scope → Result Error Ledger
  verify_status signed root_key scope = do
    verify_policy x scope.policy root_key scope.hive scope.head
    check signed.status scope
    refuse_if (not (x.ed25519_key root_key)) proof
    refuse_if (x.is_weak root_key) proof
    content ← encode signed.status
    refuse_if (not (x.verify_strict root_key (domain ++ content) signed.signature)) proof
    envelope ← encode_signed signed
    draft_observe x scope.ledger scope.policy.policy signed.status.mode signed.status.counts
        signed.status.issued_at (hash x envelope)
