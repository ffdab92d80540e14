-- ===== src/Threshold/Chain/Run.antt =====
-- A chain over its whole life: founded once, and presented with any steps in any order.
use supgang.Base.{List, [], ◌∷◌}
use supgang.External.{External}
use supgang.Threshold.Records.{SignedStep}
use supgang.Threshold.Chain.{Chain}
use supgang.Threshold.Chain.Accept.{accept}

module _ (x : External) where
  -- Steps presented one after the other, whatever each returns.
  unfoldable pub present : List SignedStep → Chain → Chain
  present [] c = c
  present (s ∷ ss) c = present ss (accept x s c).1

  pub present_keeps :
      (P : Chain → Type 0)
      → ((s : SignedStep) (c : Chain) → P c → P (accept x s c).1)
      → (ss : List SignedStep) (c : Chain) → P c
      → P (present ss c)
  unfolding present
  present_keeps P step [] c p = p
  present_keeps P step (s ∷ ss) c p = present_keeps P step ss (accept x s c).1 (step s c p)
