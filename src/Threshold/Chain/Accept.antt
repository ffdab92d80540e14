-- ===== src/Threshold/Chain/Accept.antt =====
-- crates/supgang/src/threshold/step/chain.rs: `Chain::accept` and the three paths below it. A
-- handler returns its result beside the state, since a step that is refused may have changed it.
use supgang.Base.{
  ℕ, zero, suc, Bool, true, false, not, ◌||◌, [], ◌∷◌, ◌++◌, Option, none, some, Result, ok, err,
  ◌>>=◌, ◌>>◌, refuse_if, ok_or, leb, ◌==◌, if◌then◌else◌, list_eq, length, Map, lookup, insert,
  remove, contains_key, checked_add,
}
use supgang.External.{External}
use supgang.Threshold.{
  Error, invalid, bound, authority, halted as halted_error, Digest, max_records,
}
use supgang.Threshold.Records.{
  Operation, succession, set_recovery_group, reshare, RootStep, SignedStep,
}
use supgang.Threshold.Step.{digest, verify}
use supgang.Threshold.Founding.{RecoveryDescriptor, recovery_eq}
use supgang.Threshold.Regroup.{Kind, planned, recovery_kind, Succession, verify_possession}
use supgang.Threshold.Regroup.Decode.{decode_succession}
use supgang.Threshold.Chain.{
  active, exhausted, Outcome, accepted, held, duplicate, fork, Context, Chain, is_active, is_halted,
  halt, ancestry, validate_grant_transition, apply_grant_transition, validate_recovery,
}

abbrev pub is_planned : Kind → Bool
is_planned planned = true
is_planned recovery_kind = false

abbrev pub is_reserved : Operation → Bool
is_reserved set_recovery_group = true
is_reserved reshare = true
is_reserved _ = false

abbrev pub Handler : Type 0 → Type 0
Handler A = Chain → Result Error A × Chain

-- `children.get(&step.predecessor).copied().filter(|existing| *existing != digest)`
abbrev pub other_child : Option Digest → Digest → Option Digest
other_child none digest = none
other_child (some existing) digest = if existing == digest then none else some existing

-- the first held step, in key order, whose predecessor is known
unfoldable pub find_ready : Map Context → Map SignedStep → Option Digest
find_ready contexts [] = none
find_ready contexts ((d, s) ∷ rest) =
    let later = find_ready contexts rest in
    if contains_key s.step.predecessor contexts then some d else later

abbrev pub is_bound : Result Error Outcome → Bool
is_bound (err bound) = true
is_bound _ = false

abbrev pub drop_held : Digest → Chain → Chain
drop_held d c = record c { pending = remove d c.pending }

-- One round of the loop over the held steps: `break` or an error, or the next round.
pub data Round : Type 0 where
  stop : Result Error (Unit {0}) → Chain → Round
  go_on : Chain → Round

abbrev pub after_round : Round → Chain
after_round (stop r c) = c
after_round (go_on c) = c

-- the chain after a step that extends the tip
abbrev pub advance : SignedStep → Digest → Context → Chain → Chain
advance signed digest next c = record c {
  records = insert digest signed c.records;
  contexts = insert digest next c.contexts;
  current = next;
  tip = digest;
  active_digests = c.active_digests ++ (digest ∷ []);
}

-- a conflicting child halts the chain; its context is kept if its record was
abbrev pub halt_on : Digest → SignedStep → Digest → Context → Chain → Chain
halt_on existing signed digest next c =
    let c' = halt existing signed digest c in
    if contains_key digest c'.records
    then record c' { contexts = insert digest next c'.contexts }
    else c'

-- the chain after a recovery: grants, held steps and children are dropped
abbrev pub recover : SignedStep → Digest → Succession → ℕ → Chain → Chain
recover signed digest t epoch c =
    let next : Context = record {
      group = t.successor;
      epoch = epoch;
      recovery_gen = signed.step.recovery_gen;
      sequence = signed.step.sequence;
    } in
    record c {
      active_digests = ancestry c signed.step.predecessor ++ (digest ∷ []);
      grants = [];
      pending = [];
      children = [];
      recovery_proofs = insert signed.step.recovery_gen (signed, c.recovery) c.recovery_proofs;
      records = insert digest signed c.records;
      contexts = insert digest next c.contexts;
      current = next;
      recovery = t.recovery;
      tip = digest;
      status = active;
    }

module _ (x : External) where
  -- the successor context of a planned succession
  unfoldable pub rotate :
      Chain → RootStep → Option Succession → Context → Context → Result Error Context
  rotate c step none context next = ok next
  rotate c step (some t) context next = do
    refuse_if
        (not (is_planned t.kind)
          || not (t.previous_key == context.group.public_key)
          || not (recovery_eq t.recovery c.recovery)
          || t.successor.public_key == context.group.public_key
          || t.successor.public_key == t.recovery.group.public_key
          || not (list_eq t.successor.label context.group.label))
        authority
    generation ← ok_or (checked_add context.group.generation 1) bound
    refuse_if (not (t.successor.generation == generation)) authority
    verify_possession x t step false
    epoch ← ok_or (checked_add context.epoch 1) bound
    ok (record next { group = t.successor; epoch = epoch })

  -- the checks of an ordinary step against the context of its predecessor
  unfoldable pub extend : Chain → SignedStep → Option Succession → Context → Result Error Context
  extend c signed transition context = do
    refuse_if
        (not (context.recovery_gen == c.current.recovery_gen)
          || not (signed.step.epoch == context.epoch))
        authority
    sequence ← ok_or (checked_add context.sequence 1) bound
    refuse_if (not (signed.step.sequence == sequence)) authority
    verify x signed context.group.public_key
    rotate c signed.step transition context (record context { sequence = signed.step.sequence })

  abbrev pub apply : SignedStep → Digest → Context → Handler Outcome
  apply signed digest next c =
      let c' = record c { children = insert signed.step.predecessor digest c.children } in
      elim (apply_grant_transition x signed.step c') [
        | err e ↦ (err e, c')
        | ok c'' ↦ (ok accepted, advance signed digest next c'')
      ]

  -- an ordinary step whose proof holds: repeated, conflicting, refused, or the new tip
  unfoldable pub settle : SignedStep → Digest → Context → Handler Outcome
  settle signed digest next c =
      if contains_key digest c.records
      then (ok duplicate, c)
      else elim (other_child (lookup signed.step.predecessor c.children) digest) [
        | some existing ↦ (ok fork, halt_on existing signed digest next c)
        | none ↦
            if leb max_records (length c.records)
            then (err bound, record c { status = exhausted })
            else if not (signed.step.predecessor == c.tip)
            then (err authority, c)
            else elim (validate_grant_transition x c signed.step) [
              | err e ↦ (err e, c)
              | ok _ ↦ apply signed digest next c
            ]
      ]

  -- `fn accept_ordinary`
  unfoldable pub accept_ordinary : SignedStep → Digest → Option Succession → Handler Outcome
  accept_ordinary signed digest transition c =
      if not (is_active c.status)
      then (err halted_error, c)
      else if is_reserved signed.step.operation
      then (err authority, c)
      else if not (signed.step.recovery_gen == c.current.recovery_gen)
      then (err authority, c)
      else elim (lookup signed.step.predecessor c.contexts) [
        | none ↦
            if leb max_records (length c.pending)
            then (err bound, c)
            else (ok held, record c { pending = insert digest signed c.pending })
        | some context ↦ elim (extend c signed transition context) [
          | err e ↦ (err e, c)
          | ok next ↦ settle signed digest next c
        ]
      ]

  -- a generation that a recovery has already used: the same content, or a fork for good
  unfoldable pub repeat_recovery :
      SignedStep → Digest → Succession → SignedStep → RecoveryDescriptor → Handler Outcome
  repeat_recovery signed digest' t previous current c =
      elim (do
        verify x signed current.group.public_key
        validate_recovery x c signed.step t current
        digest x previous.step) [
          | err e ↦ (err e, c)
          | ok first ↦
              if first == digest'
              then (ok duplicate, c)
              else (ok fork, record (halt first signed digest' c) { recovery_fork = true })
        ]

  -- `fn accept_recovery`
  unfoldable pub accept_recovery : SignedStep → Digest → Succession → Handler Outcome
  accept_recovery signed digest t c = elim (lookup signed.step.recovery_gen c.recovery_proofs) [
    | some (previous, current) ↦ repeat_recovery signed digest t previous current c
    | none ↦
        if leb signed.step.recovery_gen c.current.recovery_gen
        then (err authority, c)
        else elim (do
          verify x signed c.recovery.group.public_key
          validate_recovery x c signed.step t c.recovery) [
            | err e ↦ (err e, c)
            | ok _ ↦
                if leb max_records (length c.records) || leb max_records (length c.recovery_proofs)
                then (err bound, record c { status = exhausted })
                else elim (checked_add signed.step.epoch 1) [
                  | none ↦ (err bound, c)
                  | some epoch ↦ (ok accepted, recover signed digest t epoch c)
                ]
          ]
  ]

  -- the typed payload of a succession
  unfoldable pub transition_of : RootStep → Result Error (Option Succession)
  transition_of step = elim step.operation [
    | succession ↦ elim (decode_succession x step.payload) [ err e ↦ err e | ok s ↦ ok (some s) ]
    | _ ↦ ok none
  ]

  -- a held step, taken off, is tried again; an undecodable payload only loses it
  unfoldable pub retry : SignedStep → Digest → Chain → Round
  retry signed d c = elim (transition_of signed.step) [
    | err e ↦ go_on c
    | ok t ↦
        let (r, c') = accept_ordinary signed d t c in
        if is_bound r then stop (err bound) c' else go_on c'
  ]

  -- the body of the loop of `fn drain_pending`
  unfoldable pub round : Chain → Round
  round c =
      if not (is_active c.status) then stop (ok tt) c else elim (find_ready c.contexts c.pending) [
        | none ↦ stop (ok tt) c
        | some d ↦ elim (lookup d c.pending) [
          | none ↦ stop (err invalid) c
          | some signed ↦ retry signed d (drop_held d c)
        ]
      ]

  -- `fn drain_pending`, with the rounds that are left
  unfoldable pub drain : ℕ → Handler (Unit {0})
  drain zero c = (ok tt, c)
  drain (suc n) c = elim (round c) [ stop r c' ↦ (r, c') | go_on c' ↦ drain n c' ]

  abbrev report : Outcome → Chain → Outcome
  report o c = if is_halted c.status then fork else o

  -- held descendants follow an accepted step; a halted chain reports the fork
  unfoldable pub finish : Result Error Outcome → Handler Outcome
  finish (err e) c = (err e, c)
  finish (ok accepted) c =
      let (r, c') = drain max_records c in
      elim r [ err e ↦ (err e, c') | ok _ ↦ (ok (report accepted c'), c') ]
  finish (ok o) c = (ok (report o c), c)

  unfoldable pub dispatch : SignedStep → Digest → Option Succession → Handler Outcome
  dispatch signed digest none c = accept_ordinary signed digest none c
  dispatch signed digest (some t) c =
      if is_planned t.kind
      then accept_ordinary signed digest (some t) c
      else accept_recovery signed digest t c

  -- `Chain::accept`
  unfoldable pub accept : SignedStep → Handler Outcome
  accept signed c = elim (digest x signed.step) [
    | err e ↦ (err e, c)
    | ok d ↦
        if not (signed.step.hive == c.hive)
        then (err authority, c)
        else if c.recovery_fork
        then (err halted_error, c)
        else elim (transition_of signed.step) [
          | err e ↦ (err e, c)
          | ok t ↦ let (r, c') = dispatch signed d t c in finish r c'
        ]
  ]
