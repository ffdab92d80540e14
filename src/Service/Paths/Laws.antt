-- ===== src/Service/Paths/Laws.antt =====
-- The two tables of past connections are bounded, and a peer is left alone after an attempt.
use supgang.Base.{
  ℕ, ◌+◌, ◌≡◌, ◌≤◌, ◌<◌, refl, subst, Bool, true, false, [], ◌∷◌, ◌⊎◌, inl, inr, ◌==◌,
  if◌then◌else◌, length, retain, length-retain, Map, lookup, insert, Option, none, some,
  lookup-insert, contains_key, Bool-cases, length-insert, length-remove_found, length-insert_found,
  IsAbove, IsOrdered, insert-IsOrdered, remove-IsOrdered, arith,
}
use supgang.Service.Paths.{
  max_anchor_peers, Connection, PathQualityWatch, oldest_entry, evict_oldest, insert_bounded,
  is_recent, note_all, sample, sample_all, observe, observation_of, wants_replacement, is_due, due,
  change, attempted, mark_attempt, backoff, attempt_cooldown, replacement_cooldown, Observation,
}

module _ {V : Type 0} where
  retain-IsAbove :
      (p : ℕ × V → Bool) (low : ℕ) (m : Map V) → IsAbove low m → IsAbove low (retain p m)
  retain-IsAbove p low [] a = tt
  retain-IsAbove p low ((key, value) ∷ rest) a = ground (arith, a, retain-IsAbove p low rest a.1)

  retain-IsOrdered : (p : ℕ × V → Bool) (m : Map V) → IsOrdered m → IsOrdered (retain p m)
  retain-IsOrdered p [] o = tt
  retain-IsOrdered p ((key, value) ∷ rest) o =
      ground (arith, retain-IsAbove p key rest o.0, retain-IsOrdered p rest o.1)

  oldest_entry-found :
      (key at : ℕ) (rest : Map (V × ℕ))
      → (oldest_entry key at rest ≡ key) ⊎ (contains_key (oldest_entry key at rest) rest ≡ true)
  unfolding oldest_entry lookup
  oldest_entry-found key at [] = inl refl
  oldest_entry-found key at ((other, (value, next)) ∷ rest) =
      ground (arith, oldest_entry-found other next rest, oldest_entry-found key at rest)

  -- In key order and at most as many as the peers that a device may have.
  abbrev pub IsSmall : Map (V × ℕ) → Type 0
  IsSmall m = IsOrdered m × (length m ≤ max_anchor_peers)

  evict-IsSmall :
      (m : Map (V × ℕ))
      → IsSmall m
      → IsOrdered (evict_oldest m) × (length (evict_oldest m) < max_anchor_peers)
  unfolding evict_oldest lookup
  evict-IsSmall [] s = (tt, omega arith)
  evict-IsSmall ((key, (value, at)) ∷ rest) s =
      let oldest = oldest_entry key at rest in
      let found : contains_key oldest ((key, (value, at)) ∷ rest) ≡ true =
        ground (arith, oldest_entry-found key at rest) in
      (
        remove-IsOrdered oldest ((key, (value, at)) ∷ rest) s.0,
        omega (arith, length-remove_found oldest ((key, (value, at)) ∷ rest) found, s.1),
      )

  insert_bounded-IsSmall :
      (peer : ℕ) (value : V) (now : ℕ) (m : Map (V × ℕ))
      → IsSmall m
      → IsSmall (insert_bounded peer value now m)
  unfolding insert_bounded
  insert_bounded-IsSmall peer value now m s =
      let evicted = evict-IsSmall m s in
      let fewer = length-insert peer (value, now) (evict_oldest m) in
      let more = length-insert peer (value, now) m in
      let same : contains_key peer m ≡ true → length (insert peer (value, now) m) ≡ length m =
        length-insert_found peer (value, now) m s.0 in
      let first = insert-IsOrdered peer (value, now) (evict_oldest m) evicted.0 in
      let second = insert-IsOrdered peer (value, now) m s.0 in
      ground (arith, s, evicted, fewer, more, same, first, second)

  if-IsSmall : (b : Bool) (m n : Map (V × ℕ)) → IsSmall m → IsSmall n → IsSmall (if b then m else n)
  if-IsSmall true m n s t = s
  if-IsSmall false m n s t = t

note_all-IsSmall :
    (active : Map Connection) (now : ℕ) (recent : Map (ℕ × ℕ))
    → IsSmall recent
    → IsSmall (note_all active now recent)
unfolding note_all
note_all-IsSmall [] now recent s = s
note_all-IsSmall ((peer, connection) ∷ rest) now recent s =
    note_all-IsSmall rest now (insert_bounded peer connection.stable_id now recent)
      (insert_bounded-IsSmall peer connection.stable_id now recent s)

-- A watch whose two tables of past connections are small.
pub record IsModest (watch : PathQualityWatch) : Type 0 where
  pub recent : IsSmall watch.recent_admissions
  pub holed : IsSmall watch.capped

sample_all-IsModest :
    (active : Map Connection) (now : ℕ) (watch : PathQualityWatch)
    → IsModest watch
    → IsModest (sample_all active now watch)
unfolding sample_all
sample_all-IsModest [] now watch m = m
sample_all-IsModest ((peer, connection) ∷ rest) now watch m =
    sample_all-IsModest rest now _ (record {
      recent = m.recent;
      holed =
          if-IsSmall
            (sample (observation_of (lookup peer watch.paths) connection.stable_id now)
              connection.rtt connection.black_holes_detected now).0
            _ _ (insert_bounded-IsSmall peer connection.remote_address now watch.capped m.holed)
            m.holed;
    })

-- An observation of any number of connections leaves at most 64 recent admissions and at most 64
-- capped addresses, both in key order, if the tables were so before.
pub observe-IsModest :
    (active : Map Connection) (now : ℕ) (watch : PathQualityWatch)
    → IsModest watch
    → IsModest (observe active now watch)
unfolding observe
observe-IsModest active now watch m =
    let recent = retain (is_recent now) watch.recent_admissions in
    let kept : IsSmall recent = (
      retain-IsOrdered (is_recent now) watch.recent_admissions m.recent.0,
      omega (arith, length-retain (is_recent now) watch.recent_admissions, m.recent.1),
    ) in
    sample_all-IsModest active now _
      (record { recent = note_all-IsSmall active now recent kept; holed = m.holed })

abbrev pub with_paths : PathQualityWatch → Map Observation → PathQualityWatch
with_paths watch paths = record watch { paths = paths }

-- A change that puts off an entry is seen at its own key only.
change-due :
    (peer other later : ℕ) (f : Observation → Observation) (paths : Map Observation)
    → ((entry : Observation) → due (f entry) later ≡ false)
    → is_due (lookup other (change peer f (lookup peer paths) paths)) later
      ≡ (if peer == other then false else is_due (lookup other paths) later)
change-due peer other later f paths quiet = go (lookup peer paths) refl
  where
    go :
        (found : Option Observation)
        → lookup peer paths ≡ found
        → is_due (lookup other (change peer f found paths)) later
          ≡ (if peer == other then false else is_due (lookup other paths) later)
    go none h = elim (Bool-cases (peer == other)) [
      | inl y ↦
          let same : peer ≡ other = ground arith in
          let absent : is_due (lookup other paths) later ≡ false =
            subst (λ k. is_due (lookup k paths) later ≡ false) same (rw h refl) in
          rw y absent
      | inr n ↦ rw n refl
    ]
    go (some entry) h = elim (Bool-cases (peer == other)) [
      | inl y ↦ rw (lookup-insert peer other (f entry) paths, y) (quiet entry)
      | inr n ↦ rw (lookup-insert peer other (f entry) paths, n) refl
    ]

late :
    (entry : Observation) (now cooldown later : ℕ)
    → later < now + cooldown
    → due (record entry { next_allowed = now + cooldown }) later ≡ false
unfolding due
late entry now cooldown later l = ground arith

-- On the watch that an attempt leaves, a replacement is not wanted for that peer within half a minute
-- of the attempt, and on the one that a rejection leaves, not within a minute of the rejection; for
-- every other peer it is wanted just if it was.
pub change-rests :
    (watch : PathQualityWatch) (peer other now soon later : ℕ)
    → soon < now + attempt_cooldown
    → later < now + replacement_cooldown
    → (wants_replacement (with_paths watch (mark_attempt peer now watch.paths)) other soon
        ≡ (if peer == other then false else wants_replacement watch other soon))
      × (wants_replacement (with_paths watch (backoff peer now watch.paths)) other later
          ≡ (if peer == other then false else wants_replacement watch other later))
change-rests watch peer other now soon later l l' = (
  change-due peer other soon (λ entry. attempted entry now) watch.paths
      (λ entry. late entry now attempt_cooldown soon l),
  change-due peer other later (λ entry. record entry { next_allowed = now + replacement_cooldown })
      watch.paths (λ entry. late entry now replacement_cooldown later l'),
)
