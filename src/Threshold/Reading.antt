-- ===== src/Threshold/Reading.antt =====
-- Decoders in sequence: each reads from where the one before it stopped, and the first error ends
-- the run.
use supgang.Base.{ℕ, zero, suc, List, [], ◌∷◌, Result, ok, err, Bytes}
use supgang.Threshold.{Error, Reader}

infixl 5 ◌>>=◌ ◌>>◌
abbrev pub ◌>>=◌ {ℓ κ} : {A : Type ℓ} {B : Type κ} → Reader A → (A → Reader B) → Reader B
◌>>=◌ m f b = elim (m b) [ err e ↦ err e | ok (a, rest) ↦ f a rest ]

abbrev pub ◌>>◌ {ℓ κ} : {A : Type ℓ} {B : Type κ} → Reader A → Reader B → Reader B
m >> k = m >>= λ _. k

abbrev pub returns {ℓ} : {A : Type ℓ} → A → Reader A
returns a b = ok (a, b)

-- A check that reads nothing.
abbrev pub lift {ℓ} : {A : Type ℓ} → Result Error A → Reader A
lift (ok a) b = ok (a, b)
lift (err e) b = err e

-- `for _ in 0..n`
unfoldable pub repeat {ℓ} : {A : Type ℓ} → ℕ → Reader A → Reader (List A)
repeat zero m = returns []
repeat (suc n) m = do a ← m; rest ← repeat n m; returns (a ∷ rest)

-- The value that a decoder returns; what it leaves unread is dropped.
abbrev pub run {ℓ} : {A : Type ℓ} → Reader A → Bytes → Result Error A
run m b = elim (m b) [ err e ↦ err e | ok (a, rest) ↦ ok a ]
