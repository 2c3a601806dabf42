-- ===== src/Manager/Backed.antt =====
-- Which results the task of anchor/qbft_manager/src/instance.rs sends.
use anchor.Base.{ℕ, List, [], ◌∷◌, Option}
use anchor.Ssv.Consensus.{QbftData}
use anchor.Qbft.Instance.{Qbft}
use anchor.Manager.Instance.{QbftInstance, Effect, answer, send_decided}
use anchor.Manager.Answers.{Loop, begun, turned}
use anchor.Manager.Held.{AdmissibleEvent, Backing, Held}

module _ {D : Type 0} (env : QbftData D) where
  abbrev pub AllBacked : List (Effect D) → Type 0
  AllBacked [] = Unit {0}
  AllBacked (answer l value ∷ effects) = Backing env value × AllBacked effects
  AllBacked (send_decided m operators ∷ effects) = AllBacked effects

  -- The messages that the task received are admissible.
  abbrev pub Admits :
      {checked_add : ℕ → ℕ → Option ℕ} {asked : List ℕ} {effects : List (Effect D)}
      {last : Option (QbftInstance D)}
      → Loop env checked_add asked effects last
      → Type 0
  Admits begun = Unit {0}
  Admits (turned asked effects i now event next more before step) =
      Admits before × AdmissibleEvent event
