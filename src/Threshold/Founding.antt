-- ===== src/Threshold/Founding.antt =====
-- crates/supgang/src/threshold/founding.rs: the owner's parameters, group and recovery descriptors
-- with their canonical bytes, and the founding digest. Custody of a share is always `file`.
pub mod Decode
use supgang.Base.{
  ℕ, ◌+◌, Bool, true, false, not, ◌&&◌, ◌||◌, List, [], ◌∷◌, ◌++◌, map, Option, none, some, Result,
  ok, err, ◌>>=◌, ◌>>◌, refuse_if, ltb, leb, ◌==◌, if◌then◌else◌, list_eq, all, any, length, Bytes,
  ascii,
}
use supgang.External.{External}
use supgang.Threshold.{
  Error, invalid, single_loss, threshold_one, proof, frost, Digest, max_participants, items, hash,
  fixed_item,
}

pub record Parameters : Type 0 where
  pub k : ℕ
  pub n : ℕ
  pub accept_single_loss_failure : Bool

unfoldable pub validate_parameters : Parameters → Result Error (Unit {0})
validate_parameters p =
    if p.k == 0 || ltb p.n p.k || ltb max_participants p.n
    then err invalid
    else if ltb p.n (p.k + 1) && not p.accept_single_loss_failure
    then err single_loss
    else if p.k == 1
    then err threshold_one
    else ok tt

pub record Participant : Type 0 where
  pub id : ℕ
  pub device : ℕ
  pub verifying_share : ℕ

pub record GroupDescriptor : Type 0 where
  pub label : Bytes
  pub k : ℕ
  pub generation : ℕ
  pub participants : List Participant
  pub public_key : ℕ

pub record RecoveryDescriptor : Type 0 where
  pub sequence : ℕ
  pub predecessor : Digest
  pub group : GroupDescriptor

-- The derived `PartialEq`.
abbrev pub participant_eq : Participant → Participant → Bool
participant_eq p q = p.id == q.id && p.device == q.device && p.verifying_share == q.verifying_share

abbrev pub participants_eq : List Participant → List Participant → Bool
participants_eq [] [] = true
participants_eq (p ∷ ps) (q ∷ qs) = participant_eq p q && participants_eq ps qs
participants_eq _ _ = false

unfoldable pub group_eq : GroupDescriptor → GroupDescriptor → Bool
group_eq g h =
    list_eq g.label h.label
    && g.k == h.k
    && g.generation == h.generation
    && participants_eq g.participants h.participants
    && g.public_key == h.public_key

unfoldable pub recovery_eq : RecoveryDescriptor → RecoveryDescriptor → Bool
unfolding group_eq
recovery_eq r s =
    r.sequence == s.sequence && r.predecessor == s.predecessor && group_eq r.group s.group

-- `u8::is_ascii_graphic`
abbrev is_graphic : ℕ → Bool
is_graphic b = leb 33 b && leb b 126

abbrev is_empty : Bytes → Bool
is_empty [] = true
is_empty (b ∷ bs) = false

module _ (x : External) where
  -- The loop over the participants: ids 1, 2, … in order, devices unrepeated, shares that decode.
  unfoldable pub check_participants : ℕ → List ℕ → List Participant → Result Error (Unit {0})
  check_participants index devices [] = ok tt
  check_participants index devices (p ∷ ps) =
      let rest = check_participants (index + 1) (p.device ∷ devices) ps in
      if not (p.id == index + 1) || any (λ d. d == p.device) devices
      then err invalid
      else if not (x.frost_share p.verifying_share)
      then err frost
      else rest

  unfoldable pub validate_group : GroupDescriptor → Result Error (Unit {0})
  validate_group g = do
    refuse_if
        (is_empty g.label
          || ltb 63 (length g.label)
          || not (all is_graphic g.label)
          || ltb g.k 2
          || ltb (length g.participants) g.k
          || ltb max_participants (length g.participants))
        invalid
    check_participants 0 [] g.participants
    refuse_if (not (x.ed25519_key g.public_key)) proof
    refuse_if (x.is_weak g.public_key) proof
    refuse_if (not (x.frost_key g.public_key)) frost

  abbrev participant_item : Participant → Bytes
  participant_item p = items (
      x.array 4
      ∷ x.u16 p.id
      ∷ fixed_item x 33 p.device
      ∷ fixed_item x 32 p.verifying_share
      ∷ x.str (ascii "file")
      ∷ [])

  unfoldable pub encode_group : GroupDescriptor → Result Error Bytes
  encode_group g = do
    validate_group g
    ok (
        items (
          x.array 7
          ∷ x.u8 1
          ∷ x.str g.label
          ∷ x.u16 g.k
          ∷ x.u64 (length g.participants)
          ∷ x.u64 g.generation
          ∷ x.array (length g.participants)
          ∷ items (map participant_item g.participants)
          ∷ fixed_item x 32 g.public_key
          ∷ []))

  unfoldable pub digest_group : GroupDescriptor → Result Error Digest
  digest_group g = do b ← encode_group g; ok (hash x b)

  unfoldable pub encode_recovery : RecoveryDescriptor → Result Error Bytes
  encode_recovery r = do
    group ← encode_group r.group
    ok (
        items (
          x.array 4
          ∷ x.u8 1
          ∷ x.u64 r.sequence
          ∷ fixed_item x 32 r.predecessor
          ∷ x.bytes group
          ∷ []))

  unfoldable pub digest_recovery : RecoveryDescriptor → Result Error Digest
  digest_recovery r = do b ← encode_recovery r; ok (hash x b)

  abbrev recovery_item : Option RecoveryDescriptor → Result Error Bytes
  recovery_item (some r) = do b ← encode_recovery r; ok (x.bytes b)
  recovery_item none = ok x.null

  unfoldable pub founding_digest : GroupDescriptor → Option RecoveryDescriptor → Result Error Digest
  founding_digest g r = do
    group ← encode_group g
    recovery ← recovery_item r
    ok (hash x (items (x.array 3 ∷ x.u8 1 ∷ x.bytes group ∷ recovery ∷ [])))
