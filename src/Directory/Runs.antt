-- ===== src/Directory/Runs.antt =====
-- The directory over any run of imports and revocation snapshots.
use supgang.Base.{
  ℕ, ◌≡◌, ◌∙◌, ◌⊎◌, ◌≤◌, ◌<◌, inl, inr, refl, sym, subst, true, false, not, List, [], ◌∷◌, none,
  some, Result, ok, err, >>=-inv, ◌==◌, length, lookup, insert, lookup-insert, length-insert,
  length-insert_found, insert-IsOrdered, IsOrdered, Bool-cases, arith, any,
}
use supgang.External.{External}
use supgang.Codec.{map_err}
use supgang.Hive.Contact.{PeerContact, verify_contact}
use supgang.Hive.Revocation.{SignedRevocationList, RevocationList, contains}
use supgang.Hive.Revocation
use supgang.Directory.{
  PeerEntry, PeerDirectory, PeerDirectoryError, max_peers, is_conflicted, node_of,
}
use supgang.Directory.Apply.{
  apply, import_contact, import_verified, set_revocations, replace_revocations, Event, imported,
  snapshot, handle, run, as_contact, as_revocation, after_compaction, kept,
}
use supgang.Directory.Laws.{Step, unchanged, entered, moved, IsLater, apply-Step}

-- A directory within its limit, without the device itself.
pub record IsSound (d : PeerDirectory) : Type 0 where
  pub ordered : IsOrdered d.entries
  pub bounded : length d.entries ≤ max_peers
  pub others : lookup d.local d.entries ≡ none

-- What became of every node that a directory knew.
abbrev pub Tracks : PeerDirectory → PeerDirectory → Type 0
Tracks before after =
    (key : ℕ) (entry : PeerEntry)
    → lookup key before.entries ≡ some entry
    → (next : PeerEntry) × (lookup key after.entries ≡ some next)
      × IsLater entry next
      × (is_conflicted entry ≡ true → next ≡ entry)

-- Revocations only grow, in the order of their serials.
pub record IsGrowing (before after : PeerDirectory) : Type 0 where
  pub serial : before.revocations.list.serial ≤ after.revocations.list.serial
  pub nodes :
      (node : ℕ)
      → contains before.revocations.list node ≡ true
      → contains after.revocations.list node ≡ true

Step-IsSound : (d next : PeerDirectory) → Step d next → IsSound d → IsSound next
Step-IsSound d next unchanged s = s
Step-IsSound d next (entered contact entry away fresh room) s = record {
  ordered = insert-IsOrdered (node_of contact) entry d.entries s.ordered;
  bounded = omega (arith, room, length-insert (node_of contact) entry d.entries);
  others = ground (arith, away, s.others, lookup-insert (node_of contact) d.local entry d.entries);
}
Step-IsSound d next (moved contact entry later away found clean l) s = record {
  ordered = insert-IsOrdered (node_of contact) later d.entries s.ordered;
  bounded = omega (
    arith,
    s.bounded,
    length-insert_found (node_of contact) later d.entries s.ordered (rw found refl),
  );
  others = ground (arith, away, s.others, lookup-insert (node_of contact) d.local later d.entries);
}

Step-Tracks : (d next : PeerDirectory) → Step d next → Tracks d next
Step-Tracks d next unchanged key entry e = (entry, e, (refl, inl refl), λ c. refl)
Step-Tracks d next (entered contact new away fresh room) key entry e =
    let kept_entry : lookup key (insert (node_of contact) new d.entries) ≡ some entry =
      ground (arith, fresh, e, lookup-insert (node_of contact) key new d.entries) in
    (entry, kept_entry, (refl, inl refl), λ c. refl)
Step-Tracks d next (moved contact old new away found clean later) key entry e =
    elim (Bool-cases (node_of contact == key)) [
      | inl same ↦
          let one : old ≡ entry = ground (arith, found, e, same) in
          let placed : lookup key (insert (node_of contact) new d.entries) ≡ some new =
            ground (arith, same, lookup-insert (node_of contact) key new d.entries) in
          let dirty : is_conflicted entry ≡ false =
            subst (λ o. is_conflicted o ≡ false) one clean in
          (new, placed, subst (λ o. IsLater o new) one later, λ c. ground (arith, dirty, c))
      | inr other ↦
          let kept_entry : lookup key (insert (node_of contact) new d.entries) ≡ some entry =
            ground (arith, e, other, lookup-insert (node_of contact) key new d.entries) in
          (entry, kept_entry, (refl, inl refl), λ c. refl)
    ]

-- What an import or a snapshot keeps, from what every step keeps.
module _ (x : External) (P : PeerDirectory → Type 0)
    (stepped : (d next : PeerDirectory) → Step d next → P d → P next)
    (replaced : (d : PeerDirectory) (s : SignedRevocationList) (next : PeerDirectory)
      → replace_revocations d s ≡ ok next
      → P d
      → P next) where
  imported_keeps :
      (r : Result PeerDirectoryError (Unit {0})) (d : PeerDirectory) (contact : PeerContact)
      (saved compacted : Result PeerDirectoryError (Unit {0}))
      → P d
      → P (import_verified x r d contact saved compacted).1
  imported_keeps (err e) d contact saved compacted p = p
  imported_keeps (ok u) d contact saved compacted p =
      elim (Bool-cases (contains d.revocations.list (node_of contact))) [
        | inl out ↦ rw out p
        | inr in_force ↦ rw in_force (compacted_keeps compacted)
      ]
    where
      compacted_keeps :
          (answer : Result PeerDirectoryError (Unit {0}))
          → P (after_compaction answer (apply d contact true saved)).1
      compacted_keeps (err e) =
          stepped d (apply d contact true saved).1 (apply-Step d contact true saved) p
      compacted_keeps (ok u) =
          stepped d (apply d contact true saved).1 (apply-Step d contact true saved) p

  snapshot_keeps :
      (d : PeerDirectory) (r : Result PeerDirectoryError PeerDirectory) (s : SignedRevocationList)
      → set_revocations x d s ≡ r
      → P d
      → P (kept x d r)
  unfolding set_revocations
  snapshot_keeps d (err e) s h p = p
  snapshot_keeps d (ok next) s h p =
      let (u, verified, rest) =
        >>=-inv (map_err as_revocation (Revocation.verify x s d.root_key)) _ h in
      replaced d s next rest p

  pub run_keeps : (es : List Event) (d : PeerDirectory) → P d → P (run x es d)
  unfolding run handle import_contact
  run_keeps [] d p = p
  run_keeps (imported contact now saved compacted ∷ es) d p =
      run_keeps es (handle x (imported contact now saved compacted) d) (
        imported_keeps (map_err as_contact (verify_contact x contact d.root_key now)) d contact
          saved compacted p)
  run_keeps (snapshot s ∷ es) d p =
      run_keeps es (handle x (snapshot s) d) (snapshot_keeps d (set_revocations x d s) s refl p)

replaced_facts :
    (d : PeerDirectory) (s : SignedRevocationList) (next : PeerDirectory)
    → replace_revocations d s ≡ ok next
    → (next.entries ≡ d.entries) × (next.local ≡ d.local)
unfolding replace_revocations
replaced_facts d s next h = (ground arith, ground arith)

any_missing :
    (list : RevocationList) (nodes : List ℕ) (node : ℕ)
    → any (λ n. not (contains list n)) nodes ≡ false
    → any (λ other. other == node) nodes ≡ true
    → contains list node ≡ true
any_missing list [] node h e = ground arith
any_missing list (first ∷ rest) node h e = elim (Bool-cases (first == node)) [
  | inl same ↦
      let one : first ≡ node = ground arith in
      subst (λ n. contains list n ≡ true) one (ground arith)
  | inr other ↦ any_missing list rest node (ground arith) (ground arith)
]

replaced_cases :
    (d : PeerDirectory) (s : SignedRevocationList) (next : PeerDirectory)
    → replace_revocations d s ≡ ok next
    → (next.revocations ≡ d.revocations)
      ⊎ ((next.revocations ≡ s)
          × (any (λ n. not (contains s.list n)) d.revocations.list.revoked_nodes ≡ false))
unfolding replace_revocations
replaced_cases d s next h = elim (Bool-cases (s.list.serial == d.revocations.list.serial)) [
  | inl same ↦ inl (ground arith)
  | inr other ↦ inr (ground arith, ground arith)
]

replaced-IsGrowing :
    (d : PeerDirectory) (s : SignedRevocationList) (next : PeerDirectory)
    → replace_revocations d s ≡ ok next
    → IsGrowing d next
unfolding replace_revocations contains
replaced-IsGrowing d s next h = record {
  serial = ground arith;
  nodes = λ node e. elim (replaced_cases d s next h) [
    | inl same ↦ rw same e
    | inr (taken, covered) ↦
        rw taken (any_missing s.list d.revocations.list.revoked_nodes node covered e)
  ];
}

replaced-IsSound :
    (d : PeerDirectory) (s : SignedRevocationList) (next : PeerDirectory)
    → replace_revocations d s ≡ ok next
    → IsSound d
    → IsSound next
replaced-IsSound d s next h p =
    let (entries, local) = replaced_facts d s next h in
    record {
      ordered = subst (λ e. IsOrdered e) (sym entries) p.ordered;
      bounded = subst (λ e. length e ≤ max_peers) (sym entries) p.bounded;
      others = rw (entries, local) p.others;
    }

Step-IsGrowing : (d next : PeerDirectory) → Step d next → IsGrowing d next
Step-IsGrowing d next unchanged = record { serial = omega arith; nodes = λ node e. e }
Step-IsGrowing d next (entered contact entry away fresh room) = record {
  serial = omega arith;
  nodes = λ node e. e;
}
Step-IsGrowing d next (moved contact entry later away found clean l) = record {
  serial = omega arith;
  nodes = λ node e. e;
}

IsLater-trans : (a b c : PeerEntry) → IsLater a b → IsLater b c → IsLater a c
IsLater-trans a b c (g, inl same) (g', inl same') = (g' ∙ g, inl (same' ∙ same))
IsLater-trans a b c (g, inl same) (g', inr higher) = (
  g' ∙ g,
  inr (
      subst (λ (k : PeerContact). k.endpoint.content.sequence < c.current.endpoint.content.sequence)
        same higher),
)
IsLater-trans a b c (g, inr higher) (g', inl same) = (
  g' ∙ g,
  inr (
      subst (λ (k : PeerContact). a.current.endpoint.content.sequence < k.endpoint.content.sequence)
        (sym same) higher),
)
IsLater-trans a b c (g, inr higher) (g', inr higher') =
    (g' ∙ g, inr (omega (arith, higher, higher')))

Tracks-trans : (a b c : PeerDirectory) → Tracks a b → Tracks b c → Tracks a c
Tracks-trans a b c p q key entry e =
    let (middle, at_b, later, frozen) = p key entry e in
    let (last, at_c, later', frozen') = q key middle at_b in
    (
      last,
      at_c,
      IsLater-trans entry middle last later later',
      λ bad. let same : middle ≡ entry = frozen bad in frozen' (rw same bad) ∙ same,
    )

module _ (x : External) where
  -- Whatever contacts are imported, whatever the journal answers and whatever snapshots come, a
  -- directory that is sound stays so: at most 255 peers, and never the device itself.
  pub run-IsSound : (es : List Event) (d : PeerDirectory) → IsSound d → IsSound (run x es d)
  run-IsSound es d s = run_keeps x IsSound Step-IsSound replaced-IsSound es d s

  -- Whatever contacts are imported, whatever the journal answers and whatever snapshots come, no known
  -- node is forgotten, its generation stays, and its contact is replaced by none but one of a higher
  -- sequence; and a node with evidence of conflicting records keeps its entry as it is.
  pub run-Tracks : (es : List Event) (d : PeerDirectory) → Tracks d (run x es d)
  run-Tracks es d =
      run_keeps x (Tracks d) (λ b c st p. Tracks-trans d b c p (Step-Tracks b c st))
        (λ b s c h p. λ key entry e.
          let (next, at_b, later, frozen) = p key entry e in
          let (entries, local) = replaced_facts b s c h in (next, rw entries at_b, later, frozen))
        es d (λ key entry e. (entry, e, (refl, inl refl), λ c. refl))

  -- Whatever is imported and whatever snapshots come, the serial of the revocations never falls and no
  -- revoked device is released.
  pub run-IsGrowing : (es : List Event) (d : PeerDirectory) → IsGrowing d (run x es d)
  run-IsGrowing es d =
      run_keeps x (IsGrowing d) (λ b c st p. grown d b c p (Step-IsGrowing b c st))
        (λ b s c h p. grown d b c p (replaced-IsGrowing b s c h)) es d
        (record { serial = omega arith; nodes = λ node e. e })
    where
      grown : (a b c : PeerDirectory) → IsGrowing a b → IsGrowing b c → IsGrowing a c
      grown a b c p q = record {
        serial = omega (arith, p.serial, q.serial);
        nodes = λ node e. q.nodes node (p.nodes node e);
      }
