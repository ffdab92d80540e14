-- ===== src/Hive/Revocation/Read.antt =====
-- crates/supgang/src/revocation.rs: the items of a snapshot, in order.
use supgang.Base.{ltb, refuse_if}
use supgang.External.{External}
use supgang.Codec.{
  Reader, ◌>>=◌, ◌>>◌, lift, returns, repeat, require_array, read_size, read_u16, read_u64,
  read_fixed,
}
use supgang.Hive.Revocation.{
  RevocationError, RevocationList, max_revoked_nodes, decode, malformed, oversized,
}

module _ (x : External) where
  unfoldable pub read_list : Reader RevocationError RevocationList
  read_list = do
    require_array x decode malformed 5
    version ← read_u16 x decode
    hive_id ← read_fixed x decode malformed 32
    serial ← read_u64 x decode
    issued_at ← read_u64 x decode
    count ← read_size x decode malformed
    lift (refuse_if (ltb max_revoked_nodes count) oversized)
    revoked_nodes ← repeat count (read_fixed x decode malformed 32)
    returns (record {
      version = version;
      hive_id = hive_id;
      serial = serial;
      issued_at = issued_at;
      revoked_nodes = revoked_nodes;
    })
