-- ===== src/ChainOfCustody/Settling.antt =====
-- How many turns of the consumer a message takes, and where it is meanwhile.
use forensic_chain.Common.{ℕ, suc, ◌+◌, ◌*◌, ◌≤◌, String, false, List, [], ◌∷◌, ◌≡◌, ◌≢◌, ◌⊎◌, All}
use forensic_chain.ChainOfCustody.Events.{CustodyDb, Externals}
use forensic_chain.ChainOfCustody.Consumer.{Faults, max_retries}
use forensic_chain.ChainOfCustody.Retries.{Course, takes, smooth, rough, left, IsStored}

module _ (x : Externals) (text : String) where
  -- No count is above the limit, only copies at the limit are dead, and the message is in one of the
  -- queues or its event is stored.
  abbrev pub IsSound : Course → Type 0
  IsSound c =
      All (λ n. n ≤ max_retries) c.waiting
      × All (λ n. n ≡ max_retries) c.dead
      × ((c.waiting ≢ []) ⊎ (c.dead ≢ []) ⊎ IsStored x text c.db)

  -- A turn in which the broker takes what is sent uses up a delivery; another adds three at most.
  abbrev Uses : Faults → List ℕ → List ℕ → Type 0
  Uses f before after =
      (suc (left after) ≤ left before) ⊎ ((takes f ≡ false) × (left after ≤ left before + 3))

  abbrev Turned : Faults → List ℕ → Course → Type 0
  Turned f before c = IsSound c × Uses f before c.waiting

  -- No copy waits, or there are turns enough for those that do.
  abbrev Enough : List Faults → List ℕ → Type 0
  Enough fs waiting = (waiting ≡ []) ⊎ (left waiting + 3 * rough fs ≤ smooth fs)

  -- A new message in the queue.
  abbrev pub posted : CustodyDb → Course
  posted db = record { db = db; waiting = 0 ∷ []; dead = [] }
