-- ===== src/Service/Admission/Tests.antt =====
-- Runs of the admission table, and the theorems on them.
use supgang.Base.{
  List, length, some, ◌≤◌, ◌≡◌, refl, true, false, [], ◌∷◌, lookup, insert, ◌^◌, ◌*◌, ◌+◌,
}
use supgang.Service.Admission.{
  IpAddr, v4, v6, attempt, authenticated_by, canonical_source, retain_open, admit, allow, make_room,
  run, opened, Event, source_key, max_tracked_sources, note_authenticated,
}
use supgang.Service.Admission.Tally.{tally, run-tally, run-refuses}

-- two interface identifiers of one /64 network
abbrev first_address : IpAddr
first_address = v6 (7 * 2 ^ 64 + 1)

abbrev second_address : IpAddr
second_address = v6 (7 * 2 ^ 64 + 2)

first_admitted : (allow first_address 5 []).0 ≡ true
unfolding allow admit retain_open lookup canonical_source
first_admitted = refl

-- A mapped address is the IPv4 address that it maps.
mapped_same : canonical_source (v6 (65535 * 2 ^ 32 + 9)) ≡ v4 9
unfolding canonical_source
mapped_same = refl

abbrev events : List Event
events = attempt first_address 5 ∷ authenticated_by first_address 6 ∷ attempt second_address 7 ∷ []

twice_admitted :
    lookup (source_key first_address) (run events [])
    ≡ some (record { started = 5; admitted = 2; authenticated = true })
unfolding run allow admit retain_open lookup insert canonical_source make_room note_authenticated
twice_admitted = refl

run-tally_example :
    (length (run events []) ≤ max_tracked_sources)
    × (1 ≤ tally (source_key first_address) events [] 0)
    × (tally (source_key first_address) events [] 0 ≤ 2)
run-tally_example =
    run-tally events (source_key first_address)
      (record { started = 5; admitted = 2; authenticated = true }) twice_admitted

once_admitted :
    lookup (source_key first_address) (run (attempt first_address 5 ∷ []) []) ≡ some (opened 5)
unfolding run allow admit retain_open lookup insert canonical_source make_room
once_admitted = refl

same_source : canonical_source second_address ≡ canonical_source first_address
unfolding canonical_source
same_source = refl

run-refuses_example : (allow second_address 8 (run (attempt first_address 5 ∷ []) [])).0 ≡ false
run-refuses_example =
    run-refuses (attempt first_address 5 ∷ []) first_address second_address 8 (opened 5) same_source
      once_admitted refl refl
