-- ===== src/Network/Tunnel/Tests.antt =====
-- Policies on concrete names.
use supgang.Base.{
  ◌≡◌, refl, [], ◌∷◌, none, some, ok, err, Bytes, ascii, list_eq, if◌then◌else◌, ◌==◌,
}
use supgang.Hive.Record.{service_name}
use supgang.Network.Tunnel.{
  TunnelPolicy, default_policy, port, set, set_exposures, encoded_name, decoded_name, until_zero,
  zero_padded, validate_policy, validate_exposures, validate_mapped, zero_port_or_duplicate,
}
use supgang.Network.Tunnel.Laws.{decoded-encoded_name, port-set}

abbrev web : Bytes
web = ascii "web"

abbrev with_web : TunnelPolicy
with_web = record default_policy {
  exposures = record { name = web; port = 80 } ∷ record { name = ascii "ssh"; port = 22 } ∷ [];
}

-- the same name twice
duplicate_refused :
    validate_policy (record default_policy {
      exposures = record { name = web; port = 80 } ∷ record { name = web; port = 81 } ∷ [];
    })
    ≡ err zero_port_or_duplicate
unfolding validate_policy validate_exposures service_name
duplicate_refused = refl

set_valid : (set with_web web 8080).0 ≡ ok tt
unfolding set set_exposures validate_policy validate_exposures validate_mapped service_name
set_valid = refl

port-set_example : port (set with_web web 8080).1 (ascii "ssh") ≡ (
    if list_eq web (ascii "ssh")
    then (if 8080 == 0 then none else some 8080)
    else port with_web (ascii "ssh"))
port-set_example = port-set with_web web (ascii "ssh") 8080

web_valid : service_name web ≡ ok web
unfolding service_name
web_valid = refl

web_decoded :
    decoded_name (119 ∷ 101 ∷ 98 ∷ 0 ∷ 0 ∷ 0 ∷ 0 ∷ 0 ∷ 0 ∷ 0 ∷ 0 ∷ 0 ∷ 0 ∷ 0 ∷ 0 ∷ 0 ∷ []) ≡ ok web
unfolding decoded_name until_zero zero_padded service_name
web_decoded = refl

decoded-encoded_name_example :
    (decoded_name (encoded_name web) ≡ ok web)
    × (encoded_name web ≡ 119 ∷ 101 ∷ 98 ∷ 0 ∷ 0 ∷ 0 ∷ 0 ∷ 0 ∷ 0 ∷ 0 ∷ 0 ∷ 0 ∷ 0 ∷ 0 ∷ 0 ∷ 0 ∷ [])
decoded-encoded_name_example =
    decoded-encoded_name web
      (119 ∷ 101 ∷ 98 ∷ 0 ∷ 0 ∷ 0 ∷ 0 ∷ 0 ∷ 0 ∷ 0 ∷ 0 ∷ 0 ∷ 0 ∷ 0 ∷ 0 ∷ 0 ∷ []) web_valid refl
      web_decoded
