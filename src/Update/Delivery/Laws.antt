-- ===== src/Update/Delivery/Laws.antt =====
-- What is queued can be read again.
use supgang.Base.{
  ℕ, ◌+◌, ◌≡◌, ◌∙◌, subst, ◌≤◌, ◌<◌, refl, Bool, true, false, not, ◌&&◌, ◌||◌, List, [], ◌∷◌, ◌++◌,
  any, ok, >>=-inv, refuse_if, ok_or, checked_add, leb, ltb, ◌==◌, length, retain, retain_cons,
  Bool-cases, inl, inr, arith,
}
use supgang.Update.Delivery.{
  capacity, invalid_bundle, QueuedPeerDelivery, Deliveries, is_live, is_for, is_not_for,
  check_deliveries, read, insert_by_target, sort_by_target, write, queue_peer_delivery,
  max_queued_deliveries, delivery_lifetime_seconds,
}

-- A delivery with a positive lifetime of at most a day.
abbrev pub IsTimed : QueuedPeerDelivery → Type 0
IsTimed d = (d.queued_at < d.expires_at) × (d.expires_at ≤ d.queued_at + delivery_lifetime_seconds)

-- No two deliveries have one target.
abbrev pub IsApart : Deliveries → Type 0
IsApart [] = Unit
IsApart (d ∷ rest) = IsTimed d × (any (is_for d.target) rest ≡ false) × IsApart rest

abbrev pub is_seen : List ℕ → QueuedPeerDelivery → Bool
is_seen targets d = any (λ target. target == d.target) targets

unseen_split :
    (target : ℕ) (targets : List ℕ) (ds : Deliveries)
    → any (is_seen (target ∷ targets)) ds ≡ (any (is_for target) ds || any (is_seen targets) ds)
unseen_split target targets [] = refl
unseen_split target targets (d ∷ rest) = ground (arith, unseen_split target targets rest)

pub check-IsApart :
    (targets : List ℕ) (ds : Deliveries) {u : Unit {0}}
    → check_deliveries targets ds ≡ ok u
    → IsApart ds × (any (is_seen targets) ds ≡ false)
unfolding check_deliveries
check-IsApart targets [] h = (tt, refl)
check-IsApart targets (d ∷ rest) h =
    let later : check_deliveries (d.target ∷ targets) rest ≡ ok tt = ground arith in
    let (apart, unseen) = check-IsApart (d.target ∷ targets) rest later in
    let fresh : is_seen targets d ≡ false = ground arith in
    let timed : IsTimed d = (ground arith, ground arith) in
    (
      (timed, ground (arith, unseen, unseen_split d.target targets rest), apart),
      ground (arith, fresh, unseen, unseen_split d.target targets rest),
    )

pub IsApart-check :
    (targets : List ℕ) (ds : Deliveries)
    → IsApart ds
    → any (is_seen targets) ds ≡ false
    → check_deliveries targets ds ≡ ok tt
unfolding check_deliveries
IsApart-check targets [] a n = refl
IsApart-check targets (d ∷ rest) a n =
    let later : check_deliveries (d.target ∷ targets) rest ≡ ok tt =
      IsApart-check (d.target ∷ targets) rest a.2
        (ground (arith, a.1, n, unseen_split d.target targets rest)) in
    ground (arith, later, a.0, n)

pub any-retain :
    (p q : QueuedPeerDelivery → Bool) (ds : Deliveries)
    → any p ds ≡ false
    → any p (retain q ds) ≡ false
any-retain p q [] n = refl
any-retain p q (d ∷ rest) n = ground (arith, any-retain p q rest)

pub retain-IsApart :
    (q : QueuedPeerDelivery → Bool) (ds : Deliveries) → IsApart ds → IsApart (retain q ds)
retain-IsApart q [] a = tt
retain-IsApart q (d ∷ rest) a =
    kept (q d) (a.0, any-retain (is_for d.target) q rest a.1, retain-IsApart q rest a.2)
  where
    kept : (b : Bool) → IsApart (d ∷ retain q rest) → IsApart (retain_cons b d (retain q rest))
    kept true h = h
    kept false h = h.2

any-insert :
    (p : QueuedPeerDelivery → Bool) (v : QueuedPeerDelivery) (ds : Deliveries)
    → any p (insert_by_target v ds) ≡ (p v || any p ds)
unfolding insert_by_target
any-insert p v [] = refl
any-insert p v (d ∷ rest) = ground (arith, any-insert p v rest)

insert-IsApart :
    (v : QueuedPeerDelivery) (ds : Deliveries)
    → IsTimed v
    → any (is_for v.target) ds ≡ false
    → IsApart ds
    → IsApart (insert_by_target v ds)
unfolding insert_by_target
insert-IsApart v [] t n a = (t, refl, tt)
insert-IsApart v (d ∷ rest) t n a = elim (Bool-cases (ltb d.target v.target)) [
  | inl y ↦
      let apart : (v.target == d.target) ≡ false = ground arith in
      rw y (
        a.0,
        rw (any-insert (is_for d.target) v rest, apart) a.1,
        insert-IsApart v rest t (ground arith) a.2,
      )
  | inr m ↦ rw m (t, n, a)
]

sort-any : (p : QueuedPeerDelivery → Bool) (ds : Deliveries) → any p (sort_by_target ds) ≡ any p ds
unfolding sort_by_target
sort-any p [] = refl
sort-any p (d ∷ rest) = ground (arith, any-insert p d (sort_by_target rest), sort-any p rest)

sort-IsApart : (ds : Deliveries) → IsApart ds → IsApart (sort_by_target ds)
unfolding sort_by_target
sort-IsApart [] a = tt
sort-IsApart (d ∷ rest) a =
    insert-IsApart d (sort_by_target rest) a.0 (rw (sort-any (is_for d.target) rest) a.1)
      (sort-IsApart rest a.2)

pub none_seen : (ds : Deliveries) → any (is_seen []) ds ≡ false
none_seen [] = refl
none_seen (d ∷ rest) = none_seen rest

any-push :
    (p : QueuedPeerDelivery → Bool) (ds : Deliveries) (q : QueuedPeerDelivery)
    → any p (ds ++ (q ∷ [])) ≡ (any p ds || p q)
any-push p [] q = ground arith
any-push p (d ∷ rest) q = ground (arith, any-push p rest q)

push-IsApart :
    (ds : Deliveries) (q : QueuedPeerDelivery)
    → IsApart ds
    → IsTimed q
    → any (is_for q.target) ds ≡ false
    → IsApart (ds ++ (q ∷ []))
push-IsApart [] q a t n = (t, refl, tt)
push-IsApart (d ∷ rest) q a t n =
    let apart : (q.target == d.target) ≡ false = ground arith in
    (
      a.0,
      rw (any-push (is_for d.target) rest q, a.1) apart,
      push-IsApart rest q a.2 t (ground arith),
    )

any-others :
    (target : ℕ) (ds : Deliveries) → any (is_for target) (retain (is_not_for target) ds) ≡ false
any-others target [] = refl
any-others target (d ∷ rest) = ground (arith, any-others target rest)

pub read_facts :
    (document : Deliveries) {ds : Deliveries}
    → read document ≡ ok ds
    → (ds ≡ document) × (check_deliveries [] document ≡ ok tt)
unfolding read
read_facts document h = (ground arith, ground arith)

write_facts :
    (fits : Deliveries → Bool) (ds : Deliveries) {after : Deliveries}
    → write fits ds ≡ ok after
    → (after ≡ ds) × (length ds ≤ max_queued_deliveries)
unfolding write
write_facts fits ds h = (ground arith, ground arith)

expiry :
    (now : ℕ) {e : ℕ}
    → ok_or (checked_add now delivery_lifetime_seconds) invalid_bundle ≡ ok e
    → e ≡ now + delivery_lifetime_seconds
expiry now h = ground arith

abbrev pub queued_at_now : ℕ → ℕ → ℕ → QueuedPeerDelivery
queued_at_now target digest now = record {
  target = target;
  digest = digest;
  queued_at = now;
  expires_at = now + delivery_lifetime_seconds;
}

abbrev pub next_document : Deliveries → ℕ → ℕ → ℕ → Deliveries
next_document document target digest now =
    retain (is_not_for target) (retain (is_live now) document)
    ++ (queued_at_now target digest now ∷ [])

abbrev pub document_of : Deliveries → ℕ → ℕ → ℕ → ℕ → Deliveries
document_of live target digest now e = sort_by_target (
    retain (is_not_for target) live
    ++ (record { target = target; digest = digest; queued_at = now; expires_at = e } ∷ []))

queue_facts :
    (fits : Deliveries → Bool) (document : Deliveries) (target digest now : ℕ) {after : Deliveries}
    → queue_peer_delivery fits document target digest now ≡ ok after
    → (check_deliveries [] document ≡ ok tt)
      × (after ≡ sort_by_target (next_document document target digest now))
      × (length (sort_by_target (next_document document target digest now)) ≤ max_queued_deliveries)
unfolding queue_peer_delivery
queue_facts fits document target digest now {after} h =
    let (ds, r, rest) = >>=-inv (read document) _ h in
    let (same, checked) = read_facts document r in
    let (u, room, rest') =
      >>=-inv
        (refuse_if
          (leb max_queued_deliveries (length (retain (is_live now) ds))
            && not (any (is_for target) (retain (is_live now) ds)))
          capacity)
        _ rest in
    let (e, added, last) =
      >>=-inv (ok_or (checked_add now delivery_lifetime_seconds) invalid_bundle) _ rest' in
    let (written, few) =
      write_facts fits (document_of (retain (is_live now) ds) target digest now e) last in
    let whole : document_of (retain (is_live now) ds) target digest now e
        ≡ sort_by_target (next_document document target digest now) =
      rw (same, expiry now added) refl in
    (checked, written ∙ whole, subst (λ d. length d ≤ max_queued_deliveries) whole few)

-- When a delivery was queued, the document that is written can be read again; it holds the new
-- delivery and the unexpired ones for other targets, and no other.
pub queue-read :
    (fits : Deliveries → Bool) (document : Deliveries) (target digest now : ℕ) {after : Deliveries}
    (p : QueuedPeerDelivery → Bool)
    → queue_peer_delivery fits document target digest now ≡ ok after
    → (read after ≡ ok after)
      × (any p after ≡ (
          any p (retain (is_not_for target) (retain (is_live now) document))
          || p (queued_at_now target digest now)))
unfolding read
queue-read fits document target digest now {after} p h =
    let (checked, written, few) = queue_facts fits document target digest now h in
    let others = retain (is_not_for target) (retain (is_live now) document) in
    let queued = queued_at_now target digest now in
    let apart : IsApart others =
      retain-IsApart (is_not_for target) (retain (is_live now) document)
        (retain-IsApart (is_live now) document (check-IsApart [] document checked).0) in
    let pushed : IsApart (next_document document target digest now) =
      push-IsApart others queued apart (omega arith, omega arith)
        (any-others target (retain (is_live now) document)) in
    let sorted = sort-IsApart (next_document document target digest now) pushed in
    let readable : check_deliveries [] (sort_by_target (next_document document target digest now))
        ≡ ok tt =
      IsApart-check [] (sort_by_target (next_document document target digest now)) sorted
        (none_seen (sort_by_target (next_document document target digest now))) in
    let small : ltb max_queued_deliveries
          (length (sort_by_target (next_document document target digest now)))
        ≡ false =
      ground (arith, few) in
    (
      rw (written, small, readable) refl,
      rw written (sort-any p (next_document document target digest now) ∙ any-push p others queued),
    )
