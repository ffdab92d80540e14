-- ===== src/Hive/Record/Sort.antt =====
-- `sort_unstable` and `dedup`, which put the claims of a record into canonical order. Values are
-- compared by their words in the derived order, and values of equal words are equal.
use supgang.Base.{
  Bool, true, false, List, [], ◌∷◌, if◌then◌else◌, ◌≡◌, refl, arith, Bytes, list_lt, list_eq,
  list_eq_iff, Bool-cases, inl, inr, any, ◌||◌,
}
use supgang.Hive.Record.{
  EndpointRecord, ServiceAdvert, strictly_sorted, candidate_words, service_words, candidate_lt,
}

module _ {A : Type 0} (words : A → Bytes) where
  abbrev lt : A → A → Bool
  lt first second = list_lt (words first) (words second)

  unfoldable pub sorted_insert : A → List A → List A
  sorted_insert value [] = value ∷ []
  sorted_insert value (first ∷ rest) =
      let behind = sorted_insert value rest in
      if lt first value then first ∷ behind else value ∷ first ∷ rest

  unfoldable pub sort : List A → List A
  sort [] = []
  sort (value ∷ rest) = sorted_insert value (sort rest)

  -- the values behind a first one, without the ones that equal the one before them
  unfoldable pub dedup_behind : A → List A → List A
  dedup_behind first [] = []
  dedup_behind first (second ∷ rest) =
      let kept = dedup_behind second rest in
      let dropped = dedup_behind first rest in
      if list_eq (words first) (words second) then dropped else second ∷ kept

  unfoldable pub dedup : List A → List A
  dedup [] = []
  dedup (first ∷ rest) = first ∷ dedup_behind first rest

  -- no value is smaller than the one before it
  abbrev IsFrom : A → List A → Type 0
  IsFrom before [] = Unit
  IsFrom before (first ∷ rest) = (lt first before ≡ false) × IsFrom first rest

  abbrev IsWeak : List A → Type 0
  IsWeak [] = Unit
  IsWeak (first ∷ rest) = IsFrom first rest

abbrev pub service_lt : ServiceAdvert → ServiceAdvert → Bool
service_lt first second = list_lt (service_words first) (service_words second)

-- `EndpointRecord::canonicalize_candidates`
unfoldable pub canonicalize_candidates : EndpointRecord → EndpointRecord
canonicalize_candidates r = record r {
  candidates = dedup candidate_words (sort candidate_words r.candidates);
  services = dedup service_words (sort service_words r.services);
}

list_lt_asym : (xs ys : Bytes) → list_lt xs ys ≡ true → list_lt ys xs ≡ false
list_lt_asym [] [] h = refl
list_lt_asym [] (y ∷ ys) h = refl
list_lt_asym (x ∷ xs) [] h = ground arith
list_lt_asym (x ∷ xs) (y ∷ ys) h = ground (arith, list_lt_asym xs ys)

-- of two texts, neither of which is smaller than the other, both are the same
list_lt_total :
    (xs ys : Bytes) → list_lt ys xs ≡ false → list_eq xs ys ≡ false → list_lt xs ys ≡ true
list_lt_total [] [] h n = ground arith
list_lt_total [] (y ∷ ys) h n = refl
list_lt_total (x ∷ xs) [] h n = ground arith
list_lt_total (x ∷ xs) (y ∷ ys) h n = ground (arith, list_lt_total xs ys)

module _ {A : Type 0} (words : A → Bytes) where
  insert-IsFrom :
      (before value : A) (xs : List A)
      → lt words value before ≡ false
      → IsFrom words before xs
      → IsFrom words before (sorted_insert words value xs)
  unfolding sorted_insert
  insert-IsFrom before value [] h f = (h, tt)
  insert-IsFrom before value (first ∷ rest) h f = elim (Bool-cases (lt words first value)) [
    | inl y ↦
        ground (
          arith,
          f,
          insert-IsFrom first value rest (list_lt_asym (words first) (words value) y) f.1,
        )
    | inr n ↦ ground (arith, f, h)
  ]

  insert-IsWeak :
      (value : A) (xs : List A) → IsWeak words xs → IsWeak words (sorted_insert words value xs)
  unfolding sorted_insert
  insert-IsWeak value [] f = tt
  insert-IsWeak value (first ∷ rest) f = elim (Bool-cases (lt words first value)) [
    | inl y ↦
        ground
          (arith, insert-IsFrom first value rest (list_lt_asym (words first) (words value) y) f)
    | inr n ↦ ground (arith, f)
  ]

  sort-IsWeak : (xs : List A) → IsWeak words (sort words xs)
  unfolding sort
  sort-IsWeak [] = tt
  sort-IsWeak (value ∷ rest) = insert-IsWeak value (sort words rest) (sort-IsWeak rest)

  IsFrom-equal :
      (first second : A) (xs : List A)
      → words first ≡ words second
      → IsFrom words second xs
      → IsFrom words first xs
  IsFrom-equal first second [] e f = tt
  IsFrom-equal first second (third ∷ rest) e f = (rw e f.0, f.1)

  dedup_behind-sorted :
      (first : A) (xs : List A)
      → IsFrom words first xs
      → strictly_sorted (lt words) (first ∷ dedup_behind words first xs) ≡ true
  unfolding strictly_sorted dedup_behind
  dedup_behind-sorted first [] f = refl
  dedup_behind-sorted first (second ∷ rest) f =
      elim (Bool-cases (list_eq (words first) (words second))) [
        | inl y ↦
            let same = (list_eq_iff (words first) (words second)).0 y in
            rw y (dedup_behind-sorted first rest (IsFrom-equal first second rest same f.1))
        | inr n ↦
            let above = list_lt_total (words first) (words second) f.0 n in
            rw (n, above) (dedup_behind-sorted second rest f.1)
      ]

  dedup-sorted :
      (xs : List A) → IsWeak words xs → strictly_sorted (lt words) (dedup words xs) ≡ true
  unfolding dedup strictly_sorted
  dedup-sorted [] f = refl
  dedup-sorted (first ∷ rest) f = dedup_behind-sorted first rest f

  pub dedup-sort : (xs : List A) → strictly_sorted (lt words) (dedup words (sort words xs)) ≡ true
  dedup-sort xs = dedup-sorted (sort words xs) (sort-IsWeak xs)

  -- some value has these words
  abbrev pub holds : Bytes → List A → Bool
  holds text xs = any (λ value. list_eq (words value) text) xs

  insert-holds :
      (text : Bytes) (value : A) (xs : List A)
      → holds text (sorted_insert words value xs) ≡ (list_eq (words value) text || holds text xs)
  unfolding sorted_insert
  insert-holds text value [] = refl
  insert-holds text value (first ∷ rest) = ground (arith, insert-holds text value rest)

  sort-holds : (text : Bytes) (xs : List A) → holds text (sort words xs) ≡ holds text xs
  unfolding sort
  sort-holds text [] = refl
  sort-holds text (value ∷ rest) =
      rw (insert-holds text value (sort words rest), sort-holds text rest) refl

  same_holds :
      (text : Bytes) (first second : A)
      → list_eq (words first) (words second) ≡ true
      → list_eq (words second) text ≡ list_eq (words first) text
  same_holds text first second y = rw ((list_eq_iff (words first) (words second)).0 y) refl

  dedup_behind-holds :
      (text : Bytes) (first : A) (xs : List A)
      → (list_eq (words first) text || holds text (dedup_behind words first xs))
        ≡ (list_eq (words first) text || holds text xs)
  unfolding dedup_behind
  dedup_behind-holds text first [] = refl
  dedup_behind-holds text first (second ∷ rest) = ground (
    arith,
    same_holds text first second,
    dedup_behind-holds text first rest,
    dedup_behind-holds text second rest,
  )

  dedup-holds : (text : Bytes) (xs : List A) → holds text (dedup words xs) ≡ holds text xs
  unfolding dedup
  dedup-holds text [] = refl
  dedup-holds text (first ∷ rest) = dedup_behind-holds text first rest

  pub dedup-sort-holds :
      (text : Bytes) (xs : List A) → holds text (dedup words (sort words xs)) ≡ holds text xs
  dedup-sort-holds text xs = rw (dedup-holds text (sort words xs)) (sort-holds text xs)

-- The canonical form of a record has its candidates and its services strictly sorted, each in the
-- derived order of all their fields, and claims a candidate or a service exactly if the record did.
pub canonicalize_candidates-sorted :
    (r : EndpointRecord) (text : Bytes)
    → (strictly_sorted candidate_lt (canonicalize_candidates r).candidates ≡ true)
      × (strictly_sorted service_lt (canonicalize_candidates r).services ≡ true)
      × (holds candidate_words text (canonicalize_candidates r).candidates
          ≡ holds candidate_words text r.candidates)
      × (holds service_words text (canonicalize_candidates r).services
          ≡ holds service_words text r.services)
unfolding canonicalize_candidates
canonicalize_candidates-sorted r text = (
  dedup-sort candidate_words r.candidates,
  dedup-sort service_words r.services,
  dedup-sort-holds candidate_words text r.candidates,
  dedup-sort-holds service_words text r.services,
)
