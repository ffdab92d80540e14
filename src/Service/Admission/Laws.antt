-- ===== src/Service/Admission/Laws.antt =====
-- The bounds of the admission table.
use supgang.Base.{
  ℕ, ◌≤◌, ◌<◌, ◌≡◌, refl, true, false, List, [], ◌∷◌, Option, none, some, arith, length, lookup,
  insert, length-insert, length-remove_found, Bool-cases, inl, inr, leb, contains_key, ◌⊎◌, Each,
  insert-Each, remove-Each, lookup-Each, IsOrdered, IsAbove, length-insert_found, insert-IsOrdered,
  remove-IsOrdered,
}
use supgang.Service.Admission.{
  IpAddr, SourceWindow, Sources, Event, attempt, authenticated_by, handle, run, limit, is_open,
  opened, counted, vouched, admit, allow, note_authenticated, retain_open, make_room, oldest_of,
  source_key, max_tracked_sources,
}

-- A source that was admitted once or more, within its limit.
abbrev pub IsWithin : SourceWindow → Type 0
IsWithin window = (1 ≤ window.admitted) × (window.admitted ≤ limit window.authenticated)

-- Fixed memory, and no source above its limit.
pub record IsFair (sources : Sources) : Type 0 where
  pub ordered : IsOrdered sources
  pub bounded : length sources ≤ max_tracked_sources
  pub limited : Each IsWithin sources

length-retain_open :
    (now : ℕ) (sources : Sources) → length (retain_open now sources) ≤ length sources
unfolding retain_open
length-retain_open now [] = omega arith
length-retain_open now ((key, window) ∷ rest) = ground (arith, length-retain_open now rest)

oldest_of-found :
    (key : ℕ) (window : SourceWindow) (rest : Sources)
    → (oldest_of key window rest ≡ key) ⊎ (contains_key (oldest_of key window rest) rest ≡ true)
unfolding oldest_of lookup
oldest_of-found key window [] = inl refl
oldest_of-found key window ((other, next) ∷ rest) =
    ground (arith, oldest_of-found other next rest, oldest_of-found key window rest)

length-make_room :
    (sources : Sources)
    → length sources ≤ max_tracked_sources
    → length (make_room sources) < max_tracked_sources
unfolding make_room lookup
length-make_room [] b = omega arith
length-make_room ((key, window) ∷ rest) b =
    let found : contains_key (oldest_of key window rest) ((key, window) ∷ rest) ≡ true =
      ground (arith, oldest_of-found key window rest) in
    let shorter = length-remove_found (oldest_of key window rest) ((key, window) ∷ rest) found in
    ground arith

retain_open-Each :
    (now : ℕ) (sources : Sources) → Each IsWithin sources → Each IsWithin (retain_open now sources)
unfolding retain_open
retain_open-Each now [] h = tt
retain_open-Each now ((key, window) ∷ rest) h = ground (arith, h, retain_open-Each now rest h.1)

make_room-Each : (sources : Sources) → Each IsWithin sources → Each IsWithin (make_room sources)
unfolding make_room
make_room-Each [] h = tt
make_room-Each ((key, window) ∷ rest) h =
    let removed = remove-Each IsWithin (oldest_of key window rest) ((key, window) ∷ rest) h in
    ground (arith, h, removed)

-- A window that is counted once more is still within its limit, if it was below it.
counted-IsWithin :
    (window : SourceWindow)
    → IsWithin window
    → leb (limit window.authenticated) window.admitted ≡ false
    → IsWithin (counted window)
counted-IsWithin window w l = (ground arith, ground arith)

vouched-IsWithin : (window : SourceWindow) → IsWithin window → IsWithin (vouched window)
vouched-IsWithin window h = (h.0, ground arith)

pub retain_open-IsAbove :
    (now low : ℕ) (sources : Sources) → IsAbove low sources → IsAbove low (retain_open now sources)
unfolding retain_open
retain_open-IsAbove now low [] a = tt
retain_open-IsAbove now low ((key, window) ∷ rest) a =
    ground (arith, a, retain_open-IsAbove now low rest a.1)

retain_open-IsOrdered :
    (now : ℕ) (sources : Sources) → IsOrdered sources → IsOrdered (retain_open now sources)
unfolding retain_open
retain_open-IsOrdered now [] o = tt
retain_open-IsOrdered now ((key, window) ∷ rest) o =
    ground (arith, retain_open-IsAbove now key rest o.0, retain_open-IsOrdered now rest o.1)

make_room-IsOrdered : (sources : Sources) → IsOrdered sources → IsOrdered (make_room sources)
unfolding make_room
make_room-IsOrdered [] o = tt
make_room-IsOrdered ((key, window) ∷ rest) o =
    let removed = remove-IsOrdered (oldest_of key window rest) ((key, window) ∷ rest) o in
    ground (arith, o, removed)

pub retain_open-IsFair :
    (now : ℕ) (sources : Sources) → IsFair sources → IsFair (retain_open now sources)
retain_open-IsFair now sources f = record {
  ordered = retain_open-IsOrdered now sources f.ordered;
  bounded = omega (arith, f.bounded, length-retain_open now sources);
  limited = retain_open-Each now sources f.limited;
}

-- the entry of a tracked source is rewritten
replaced-IsFair :
    (key : ℕ) (window : SourceWindow) (sources : Sources)
    → contains_key key sources ≡ true
    → IsWithin window
    → IsFair sources
    → IsFair (insert key window sources)
replaced-IsFair key window sources found w f = record {
  ordered = insert-IsOrdered key window sources f.ordered;
  bounded = omega (arith, f.bounded, length-insert_found key window sources f.ordered found);
  limited = insert-Each IsWithin key window sources w f.limited;
}

-- a new source takes the room that was made
entered-IsFair :
    (key now : ℕ) (sources : Sources)
    → IsFair sources
    → IsFair (insert key (opened now) (make_room sources))
entered-IsFair key now sources f =
    let room = make_room-IsOrdered sources f.ordered in
    record {
      ordered = insert-IsOrdered key (opened now) (make_room sources) room;
      bounded = omega (
        arith,
        length-make_room sources f.bounded,
        length-insert key (opened now) (make_room sources),
      );
      limited =
          insert-Each IsWithin key (opened now) (make_room sources) (omega arith, omega arith)
            (make_room-Each sources f.limited);
    }

admit-IsFair :
    (key now : ℕ) (sources : Sources) (entry : Option SourceWindow)
    → lookup key sources ≡ entry
    → IsFair sources
    → IsFair (admit key now sources entry).1
unfolding admit
admit-IsFair key now sources none e f = entered-IsFair key now sources f
admit-IsFair key now sources (some window) e f =
    elim (Bool-cases (leb (limit window.authenticated) window.admitted)) [
      | inl full ↦ rw (full, admit) f
      | inr free ↦
          rw (free, admit)
            (replaced-IsFair key (counted window) sources (ground arith)
              (counted-IsWithin window (lookup-Each IsWithin key window sources f.limited e) free)
              f)
    ]

allow-IsFair :
    (address : IpAddr) (now : ℕ) (sources : Sources)
    → IsFair sources
    → IsFair (allow address now sources).1
unfolding allow
allow-IsFair address now sources f =
    admit-IsFair (source_key address) now (retain_open now sources)
      (lookup (source_key address) (retain_open now sources)) refl
      (retain_open-IsFair now sources f)

noted-IsFair :
    (address : IpAddr) (now : ℕ) (sources : Sources) (entry : Option SourceWindow)
    → lookup (source_key address) sources ≡ entry
    → IsFair sources
    → IsFair (note_authenticated address now sources)
unfolding note_authenticated
noted-IsFair address now sources none e f = rw (e, note_authenticated) f
noted-IsFair address now sources (some window) e f = elim (Bool-cases (is_open now window)) [
  | inl live ↦
      rw (e, live, note_authenticated)
        (replaced-IsFair (source_key address) (vouched window) sources (ground arith)
          (vouched-IsWithin window
            (lookup-Each IsWithin (source_key address) window sources f.limited e))
          f)
  | inr over ↦ rw (e, over, note_authenticated) f
]

pub handle-IsFair : (e : Event) (sources : Sources) → IsFair sources → IsFair (handle e sources)
handle-IsFair (attempt address now) sources f = allow-IsFair address now sources f
handle-IsFair (authenticated_by address now) sources f =
    noted-IsFair address now sources (lookup (source_key address) sources) refl f

run_from-IsFair : (es : List Event) (sources : Sources) → IsFair sources → IsFair (run es sources)
unfolding run
run_from-IsFair [] sources f = f
run_from-IsFair (e ∷ es) sources f =
    run_from-IsFair es (handle e sources) (handle-IsFair e sources f)

pub run-IsFair : (es : List Event) → IsFair (run es [])
run-IsFair es = run_from-IsFair es [] (record { ordered = tt; bounded = omega arith; limited = tt })
