-- ===== src/DecodeQueue/Refine.antt =====
-- The queue of detected bursts is a bounded queue of jobs.
use reticulum_tnc.Base.{ℕ, List, [], ◌∷◌, Option, none, some}
use reticulum_tnc.Ring.Spsc.Refine.{IsSound, items}
use reticulum_tnc.DecodeQueue.{DecodeQueue, DecodeSlot, DecodeJob, empty_slot, job_of}

abbrev pub IsValid : DecodeQueue → Type 0
IsValid queue = IsSound empty_slot 8 queue

abbrev pub slots : DecodeQueue → List DecodeSlot
slots queue = items empty_slot queue

module _ {ℓ} {Float : Type ℓ} (quantize : Float → ℕ) (restore : ℕ → Float) where
  -- The job that a pop of the oldest slot gives.
  abbrev pub first_job : List DecodeSlot → Option (DecodeJob Float)
  first_job [] = none
  first_job (slot ∷ rest) = some (job_of quantize restore slot)

  abbrev job_out : Option DecodeSlot → Option (DecodeJob Float)
  job_out out = elim out [ none ↦ none | some slot ↦ some (job_of quantize restore slot) ]
