-- ===== src/Hive/Ids.antt =====
-- crates/supgang/src/ids.rs and identity.rs: identifiers derived from keys, and the domain-separated
-- signature. An identifier or a key of 32 bytes is the number that it spells.
use supgang.Base.{
  ℕ, Bool, [], ◌∷◌, ◌++◌, ◌≡◌, true, Bytes, ascii, length, to_be_bytes, from_be_bytes,
}
use supgang.External.{External, IsSigning}

module _ (x : External) where
  -- `fn domain_hash`
  unfoldable pub domain_hash : Bytes → Bytes → ℕ
  domain_hash domain material = x.sha256 (domain ++ material)

  -- `HiveId::from_root_verifying_key`
  unfoldable pub hive_id : ℕ → ℕ
  hive_id key = domain_hash (ascii "supgang/hive-id/v1" ++ (0 ∷ [])) (to_be_bytes 32 key)

  -- `NodeId::from_verifying_key`
  unfoldable pub node_id : ℕ → ℕ
  node_id key = domain_hash (ascii "supgang/node-id/v1" ++ (0 ∷ [])) (to_be_bytes 32 key)

  -- `fn verify_domain`
  unfoldable pub verify_domain : ℕ → Bytes → Bytes → Bytes → Bool
  verify_domain key domain message signature =
      x.verify_strict key (domain ++ message) (from_be_bytes signature)

  -- `sign_domain` of a device or of a root
  unfoldable pub sign_domain : ℕ → Bytes → Bytes → Bytes
  sign_domain secret domain message = x.sign secret (domain ++ message)

  pub verify-sign_domain :
      IsSigning x
      → (secret : ℕ) (domain message : Bytes)
      → verify_domain (x.public_key secret) domain message (sign_domain secret domain message)
        ≡ true
  unfolding verify_domain sign_domain
  verify-sign_domain signing secret domain message = signing.verified secret (domain ++ message)

  pub length-sign_domain :
      IsSigning x
      → (secret : ℕ) (domain message : Bytes) → length (sign_domain secret domain message) ≡ 64
  unfolding sign_domain
  length-sign_domain signing secret domain message = signing.width secret (domain ++ message)
