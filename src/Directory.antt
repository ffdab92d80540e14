-- ===== src/Directory.antt =====
-- crates/supgang/src/peer_directory.rs: the verified peers of a device. The reachability claims are
-- listed in the order of their keys; the history of routes only serves dialing and is left out.
pub mod Apply
pub mod Laws
pub mod Runs
pub mod Tests
use supgang.Base.{
  ℕ, ◌+◌, ◌-◌, Bool, true, false, not, ◌&&◌, ◌||◌, List, [], ◌∷◌, ◌++◌, map, any, Option, none,
  some, Result, ok, err, ltb, leb, ◌==◌, if◌then◌else◌, length, Map, lookup, insert, list_eq, Bytes,
  retain, zero, suc,
}
use supgang.Network.Address.{SocketAddr, socket_eq}
use supgang.Network.Candidate.{EndpointCandidate, CandidateKind, local, reflexive, is_local}
use supgang.Hive.Record.{all_eq, candidate_words}
use supgang.Hive.Revocation.{SignedRevocationList}
use supgang.Hive.Contact.{PeerContact, contact_eq}
use supgang.Hive.Reachability.{ReachabilityClaim}

-- `MAX_HIVE_MEMBERS.saturating_sub(1)` peers
abbrev pub max_peers : ℕ
max_peers = 255

pub data ImportDecision : Type 0 where
  accepted_first accepted_newer duplicate rejected_stale : ImportDecision

-- the variants of `PeerDirectoryError` that the modelled operations return
pub data PeerDirectoryError : Type 0 where
  journal_failed read_only_snapshot contact_invalid revocation_invalid : PeerDirectoryError
  revocation_rollback revocation_equivocation local_node directory_full : PeerDirectoryError
  equivocation generation_transition_required revoked : PeerDirectoryError

pub record PeerEntry : Type 0 where
  pub current : PeerContact
  pub history : List PeerContact
  pub conflict : Option PeerContact

pub record PeerDirectory : Type 0 where
  pub root_key : ℕ
  pub local : ℕ
  pub entries : Map PeerEntry
  pub revocations : SignedRevocationList
  pub reachability : List ReachabilityClaim
  pub history_address_limit : ℕ

-- `PeerEntry::is_conflicted`
unfoldable pub is_conflicted : PeerEntry → Bool
is_conflicted entry = elim entry.conflict [ none ↦ false | some evidence ↦ true ]

abbrev is_reflexive : CandidateKind → Bool
is_reflexive reflexive = true
is_reflexive _ = false

abbrev pub eligible : Bool → EndpointCandidate → Bool
eligible current candidate =
    not (is_reflexive candidate.kind) && (current || not (is_local candidate.kind))

abbrev pub seen_before : SocketAddr → List SocketAddr → Bool
seen_before address seen = any (socket_eq address) seen

-- `fn unique_addresses` on the candidates of a contact: the addresses, at most `limit` of them, and
-- what was seen
unfoldable pub unique_addresses :
    List EndpointCandidate → List SocketAddr → ℕ → Bool → List SocketAddr × List SocketAddr
unique_addresses [] seen limit current = ([], seen)
unique_addresses (c ∷ rest) seen zero current = ([], seen)
unique_addresses (c ∷ rest) seen (suc limit) current =
    let passed = unique_addresses rest seen (suc limit) current in
    let taken = unique_addresses rest (c.address ∷ seen) limit current in
    if eligible current c && not (seen_before c.address seen)
    then (c.address ∷ taken.0, taken.1)
    else passed

-- `fn trim_history`: what is kept of a history, with the addresses that were retained before
unfoldable pub trim_history : ℕ → List SocketAddr → List PeerContact → List PeerContact
trim_history limit retained [] = []
trim_history limit retained (contact ∷ rest) =
    let found =
      unique_addresses contact.endpoint.content.candidates retained (limit - length retained)
        false in
    let kept = trim_history limit found.1 rest in
    let dropped = trim_history limit retained rest in
    if limit - length retained == 0
    then dropped
    else elim found.0 [ [] ↦ trim_history limit found.1 rest | a ∷ more ↦ contact ∷ kept ]

abbrev pub addresses_eq : List EndpointCandidate → List EndpointCandidate → Bool
addresses_eq = all_eq candidate_words

-- `fn dial_state_changed`
unfoldable pub dial_state_changed : PeerContact → PeerContact → Bool
dial_state_changed previous current =
    not (previous.endpoint.content.transport_key_id == current.endpoint.content.transport_key_id)
    || not (addresses_eq previous.endpoint.content.candidates current.endpoint.content.candidates)

-- the entry of a peer after a newer contact
unfoldable pub advanced : ℕ → PeerEntry → PeerContact → PeerEntry
advanced limit entry contact =
    if dial_state_changed entry.current contact
    then record entry {
      current = contact;
      history = trim_history limit [] (entry.current ∷ entry.history);
    }
    else record entry { current = contact }

abbrev pub node_of : PeerContact → ℕ
node_of contact = contact.endpoint.content.node_id
