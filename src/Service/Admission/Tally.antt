-- ===== src/Service/Admission/Tally.antt =====
-- What the counts of the admission table say of the sessions that were admitted, and whom it refuses.
use supgang.Base.{
  ap, ℕ, ◌+◌, ◌≤◌, ◌≡◌, refl, sym, subst, true, false, ◌&&◌, List, [], ◌∷◌, Option, none, some,
  arith, lookup, insert, lookup-insert, Bool-cases, inl, inr, leb, ◌==◌, if◌then◌else◌,
  contains_key, IsOrdered, IsAbove, lookup-IsAbove, lookup-remove-some, lookup-Each, length,
}
use supgang.Service.Admission.{
  IpAddr, SourceWindow, Sources, Event, attempt, authenticated_by, handle, run, limit, is_open,
  opened, counted, vouched, admit, allow, note_authenticated, retain_open, make_room, oldest_of,
  source_key, max_tracked_sources, canonical_source, address_key,
}
use supgang.Service.Admission.Laws.{
  IsWithin, IsFair, retain_open-IsAbove, retain_open-IsFair, handle-IsFair, run-IsFair,
}

-- The sessions that a source was admitted to since its entry was made: the answers of `allow` that
-- are true, from one on where the source had no open window.
tallied : ℕ → Event → Sources → ℕ → ℕ
tallied key (attempt address now) sources n =
    if source_key address == key && (allow address now sources).0
    then (if contains_key key (retain_open now sources) then n + 1 else 1)
    else n
tallied key (authenticated_by address now) sources n = n

pub tally : ℕ → List Event → Sources → ℕ → ℕ
tally key [] sources n = n
tally key (e ∷ es) sources n = tally key es (handle e sources) (tallied key e sources n)

-- The entry of a source counts these sessions.
abbrev IsCounted : ℕ → Sources → ℕ → Type 0
IsCounted key sources n =
    (window : SourceWindow) → lookup key sources ≡ some window → window.admitted ≡ n

retain_open-lookup :
    (now key : ℕ) (window : SourceWindow) (sources : Sources)
    → IsOrdered sources
    → lookup key (retain_open now sources) ≡ some window
    → lookup key sources ≡ some window
unfolding lookup retain_open
retain_open-lookup now key window [] o e = e
retain_open-lookup now key window ((first, old) ∷ rest) o e =
    let later : lookup key (retain_open now rest) ≡ some window → lookup key rest ≡ some window =
      λ l. retain_open-lookup now key window rest o.1 l in
    let absent : first ≡ key → lookup key (retain_open now rest) ≡ none = λ same.
      lookup-IsAbove key (retain_open now rest) (
        subst (λ k. IsAbove k (retain_open now rest)) same
          (retain_open-IsAbove now first rest o.0)) in
    ground (arith, e, later, absent)

make_room-lookup :
    (key : ℕ) (window : SourceWindow) (sources : Sources)
    → lookup key (make_room sources) ≡ some window
    → lookup key sources ≡ some window
unfolding make_room
make_room-lookup key window [] e = e
make_room-lookup key window ((first, old) ∷ rest) e =
    ground
      (arith, lookup-remove-some (oldest_of first old rest) key window ((first, old) ∷ rest), e)

lookup-retain_open :
    (now key : ℕ) (window : SourceWindow) (sources : Sources)
    → lookup key sources ≡ some window
    → is_open now window ≡ true
    → lookup key (retain_open now sources) ≡ some window
unfolding lookup retain_open
lookup-retain_open now key window [] e live = cc
lookup-retain_open now key window ((first, old) ∷ rest) e live =
    let later : lookup key rest ≡ some window → lookup key (retain_open now rest) ≡ some window =
      λ l. lookup-retain_open now key window rest l live in
    ground (arith, e, live, later)

-- one more session of a source that is below its limit
free_IsCounted :
    (source key now n : ℕ) (sources : Sources) (old : SourceWindow)
    → lookup source sources ≡ some old
    → IsCounted key sources n
    → leb (limit old.authenticated) old.admitted ≡ false
    → (window : SourceWindow) → lookup key (insert source (counted old) sources) ≡ some window
    → window.admitted
      ≡ (if source == key then (if contains_key key sources then n + 1 else 1) else n)
free_IsCounted source key now n sources old e c free window l = elim (Bool-cases (source == key)) [
  | inl y ↦
      let same : source ≡ key = ground arith in
      let found : lookup key sources ≡ some old = subst (λ k. lookup k sources ≡ some old) same e in
      let now_counted : counted old ≡ window =
        ground (arith, lookup-insert source key (counted old) sources) in
      let one : (counted old).admitted ≡ old.admitted + 1 = ground (arith, free) in
      rw (y, found, sym now_counted, one) (ap (λ k. k + 1) (c old found))
  | inr m ↦
      let kept : lookup key sources ≡ some window =
        ground (arith, lookup-insert source key (counted old) sources) in
      rw m (c window kept)
]

admit-IsCounted :
    (source key now n : ℕ) (sources : Sources) (entry : Option SourceWindow)
    → lookup source sources ≡ entry
    → IsFair sources
    → IsCounted key sources n
    → IsCounted key (admit source now sources entry).1 (
        if source == key && (admit source now sources entry).0
        then (if contains_key key sources then n + 1 else 1)
        else n)
unfolding admit
admit-IsCounted source key now n sources none e f c window l = elim (Bool-cases (source == key)) [
  | inl y ↦
      let same : source ≡ key = ground arith in
      let absent : lookup key sources ≡ none = subst (λ k. lookup k sources ≡ none) same e in
      ground (arith, absent, lookup-insert source key (opened now) (make_room sources))
  | inr m ↦
      let kept : lookup key (make_room sources) ≡ some window =
        ground (arith, lookup-insert source key (opened now) (make_room sources)) in
      rw m (c window (make_room-lookup key window sources kept))
]
admit-IsCounted source key now n sources (some old) e f c window l =
    elim (Bool-cases (leb (limit old.authenticated) old.admitted)) [
      | inl full ↦
          let kept : lookup key sources ≡ some window = ground (arith, l) in
          ground (arith, c window kept)
      | inr free ↦
          let counted_once =
            free_IsCounted source key now n sources old e c free window (ground (arith, l)) in
          ground (arith, counted_once)
    ]

abbrev noted : ℕ → ℕ → Sources → Option SourceWindow → Sources
noted source now sources none = sources
noted source now sources (some window) =
    if is_open now window then insert source (vouched window) sources else sources

noted-IsCounted :
    (key source now n : ℕ) (sources : Sources) (entry : Option SourceWindow) (window : SourceWindow)
    → lookup source sources ≡ entry
    → IsCounted key sources n
    → lookup key (noted source now sources entry) ≡ some window
    → window.admitted ≡ n
noted-IsCounted key source now n sources none window e c l = c window l
noted-IsCounted key source now n sources (some old) window e c l =
    elim (Bool-cases (source == key)) [
      | inl y ↦
          let same : source ≡ key = ground arith in
          let found : lookup key sources ≡ some old =
            subst (λ k. lookup k sources ≡ some old) same e in
          let count : old.admitted ≡ n = c old found in
          ground (arith, l, found, count, lookup-insert source key (vouched old) sources)
      | inr m ↦
          let kept : lookup key sources ≡ some window =
            ground (arith, l, lookup-insert source key (vouched old) sources) in
          c window kept
    ]

handle-IsCounted :
    (key n : ℕ) (e : Event) (sources : Sources)
    → IsFair sources
    → IsCounted key sources n
    → IsCounted key (handle e sources) (tallied key e sources n)
unfolding tallied allow note_authenticated
handle-IsCounted key n (attempt address now) sources f c =
    let open_sources = retain_open now sources in
    admit-IsCounted (source_key address) key now n open_sources
      (lookup (source_key address) open_sources) refl (retain_open-IsFair now sources f)
      (λ window l. c window (retain_open-lookup now key window sources f.ordered l))
handle-IsCounted key n (authenticated_by address now) sources f c = λ window l.
    noted-IsCounted key (source_key address) now n sources (lookup (source_key address) sources)
      window refl c l

tally-IsCounted :
    (key : ℕ) (es : List Event) (sources : Sources) (n : ℕ)
    → IsFair sources
    → IsCounted key sources n
    → IsCounted key (run es sources) (tally key es sources n)
unfolding run tally
tally-IsCounted key [] sources n f c = c
tally-IsCounted key (e ∷ es) sources n f c =
    tally-IsCounted key es (handle e sources) (tallied key e sources n) (handle-IsFair e sources f)
      (handle-IsCounted key n e sources f c)

-- Whatever addresses attempt and authenticate, at whatever instants, a table that starts empty tracks at
-- most 64 sources, and a source that it tracks was admitted to at least one session since its entry was
-- made, and to at most two, or one while no session of it was authenticated.
pub run-tally :
    (es : List Event) (key : ℕ) (window : SourceWindow)
    → lookup key (run es []) ≡ some window
    → (length (run es []) ≤ max_tracked_sources)
      × (1 ≤ tally key es [] 0)
      × (tally key es [] 0 ≤ limit window.authenticated)
run-tally es key window l =
    let fair = run-IsFair es in
    let within = lookup-Each IsWithin key window (run es []) fair.limited l in
    let same : window.admitted ≡ tally key es [] 0 =
      tally-IsCounted key es [] 0 (record { ordered = tt; bounded = omega arith; limited = tt })
        (λ w e. unfold lookup in ground arith) window l in
    (fair.bounded, omega (arith, within.0, same), omega (arith, within.1, same))

-- While a table that starts empty tracks a source whose window is open, and no session of it was
-- authenticated, an attempt from any address of that canonical source is refused, whatever attempts
-- and authentications there were.
pub run-refuses :
    (es : List Event) (address other : IpAddr) (later : ℕ) (window : SourceWindow)
    → canonical_source other ≡ canonical_source address
    → lookup (source_key address) (run es []) ≡ some window
    → window.authenticated ≡ false
    → is_open later window ≡ true
    → (allow other later (run es [])).0 ≡ false
unfolding admit allow
run-refuses es address other later window same l unknown live =
    let key : source_key other ≡ source_key address = ap address_key same in
    let kept : lookup (source_key other) (retain_open later (run es [])) ≡ some window =
      rw key (lookup-retain_open later (source_key address) window (run es []) l live) in
    let within =
      lookup-Each IsWithin (source_key address) window (run es []) (run-IsFair es).limited l in
    let once : 1 ≤ window.admitted = within.0 in ground (arith, kept, unknown, once)
