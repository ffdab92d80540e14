-- ===== src/Threshold/Records.antt =====
-- crates/supgang/src/threshold/step.rs: the operation inventory and the records of a root step.
use supgang.Base.{
  ℕ, List, [], ◌∷◌, ◌≡◌, refl, Bytes, ascii, list_eq, Result, ok, err, if◌then◌else◌,
}
use supgang.Threshold.{Error, invalid, Digest}

pub data Operation : Type 0 where
  issue_membership revoke trust_anchor allocate_name issue_leaf reshare succession : Operation
  set_recovery_group admit_roster grant revoke_grant : Operation

abbrev pub operation_text : Operation → Bytes
operation_text issue_membership = ascii "issue-membership"
operation_text revoke = ascii "revoke"
operation_text trust_anchor = ascii "trust-anchor"
operation_text allocate_name = ascii "allocate-name"
operation_text issue_leaf = ascii "issue-leaf"
operation_text reshare = ascii "reshare"
operation_text succession = ascii "succession"
operation_text set_recovery_group = ascii "set-recovery-group"
operation_text admit_roster = ascii "admit-roster"
operation_text grant = ascii "grant"
operation_text revoke_grant = ascii "revoke-grant"

-- `Operation::parse`: the labels in the order of the match.
abbrev parse_in : List Operation → Bytes → Result Error Operation
parse_in [] text = err invalid
parse_in (o ∷ os) text =
    let rest = parse_in os text in if list_eq text (operation_text o) then ok o else rest

unfoldable pub operation_parse : Bytes → Result Error Operation
operation_parse = parse_in (
    issue_membership ∷ revoke ∷ trust_anchor ∷ allocate_name ∷ issue_leaf ∷ reshare ∷ succession
    ∷ set_recovery_group ∷ admit_roster ∷ grant ∷ revoke_grant ∷ [])

pub operation-parse-text : (o : Operation) → operation_parse (operation_text o) ≡ ok o
unfolding operation_parse
operation-parse-text issue_membership = refl
operation-parse-text _ = refl

pub record RootStep : Type 0 where
  pub hive : ℕ
  pub predecessor : Digest
  pub sequence : ℕ
  pub epoch : ℕ
  pub recovery_gen : ℕ
  pub operation : Operation
  pub payload : Bytes
  pub proposed_at : ℕ
  pub proposer : ℕ

pub record SignedStep : Type 0 where
  pub step : RootStep
  pub signature : ℕ

-- Recovery generation, epoch, sequence: `RootStep::order`.
abbrev pub order : RootStep → ℕ × ℕ × ℕ
order s = (s.recovery_gen, s.epoch, s.sequence)
