-- ===== src/Hive/Contact/Read.antt =====
-- crates/supgang/src/contact.rs: the two parts of a contact, in order.
use supgang.Base.{not, ◌==◌, ltb, refuse_if, length, Bytes}
use supgang.External.{External}
use supgang.Codec.{Reader, ◌>>=◌, ◌>>◌, lift, returns, require_array, read_u16, read_bytes}
use supgang.Hive.Membership.{max_signed_membership_bytes}
use supgang.Hive.Wire.{max_signed_endpoint_record_bytes}
use supgang.Hive.Contact.{ContactError, decode, invalid_shape, oversized}

module _ (x : External) where
  unfoldable pub read_contact : Reader ContactError (Bytes × Bytes)
  read_contact = do
    require_array x decode invalid_shape 3
    version ← read_u16 x decode
    lift (refuse_if (not (version == 1)) invalid_shape)
    membership_bytes ← read_bytes x decode
    lift (refuse_if (ltb max_signed_membership_bytes (length membership_bytes)) oversized)
    endpoint_bytes ← read_bytes x decode
    lift (refuse_if (ltb max_signed_endpoint_record_bytes (length endpoint_bytes)) oversized)
    returns (membership_bytes, endpoint_bytes)
