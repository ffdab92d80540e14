-- ===== src/Directory/Tests.antt =====
-- A directory that is shown contacts and a revocation snapshot.
use supgang.Base.{refl, [], ◌∷◌, ok, lookup, insert, arith}
use supgang.Threshold.Toy.{toy}
use supgang.Hive.Tests.{contact, revoked}
use supgang.Directory.{PeerDirectory, node_of}
use supgang.Directory.Apply.{imported, snapshot, run, first_entry}
use supgang.Directory.Runs.{IsSound, Tracks, IsGrowing, run-IsSound, run-Tracks, run-IsGrowing}
use supgang.Hive.Revocation.{SignedRevocationList}

abbrev nobody_revoked : SignedRevocationList
nobody_revoked = record {
  list = record {
    version = 1;
    hive_id = 140194274;
    serial = 0;
    issued_at = 900;
    revoked_nodes = [];
  };
  signature = revoked.signature;
}

-- the device with the identifier 1, which knows nobody
abbrev start : PeerDirectory
start = record {
  root_key = 9;
  local = 1;
  entries = [];
  revocations = nobody_revoked;
  reachability = [];
  history_address_limit = 8;
}

start-IsSound : IsSound start
unfolding lookup
start-IsSound = record { ordered = tt; bounded = omega arith; others = refl }

run-IsSound_example :
    IsSound (run toy (imported contact 1500 (ok tt) (ok tt) ∷ snapshot revoked ∷ []) start)
run-IsSound_example =
    run-IsSound toy (imported contact 1500 (ok tt) (ok tt) ∷ snapshot revoked ∷ []) start
      start-IsSound

-- the same device, which has met a peer
abbrev acquainted : PeerDirectory
acquainted = record start { entries = insert (node_of contact) (first_entry contact) [] }

run-Tracks_example :
    Tracks acquainted
      (run toy (imported contact 1500 (ok tt) (ok tt) ∷ snapshot revoked ∷ []) acquainted)
run-Tracks_example =
    run-Tracks toy (imported contact 1500 (ok tt) (ok tt) ∷ snapshot revoked ∷ []) acquainted

run-IsGrowing_example :
    IsGrowing start (run toy (imported contact 1500 (ok tt) (ok tt) ∷ snapshot revoked ∷ []) start)
run-IsGrowing_example =
    run-IsGrowing toy (imported contact 1500 (ok tt) (ok tt) ∷ snapshot revoked ∷ []) start
