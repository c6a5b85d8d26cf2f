-- ===== src/World/Calls.antt =====
-- Where a call of the driver ends.
use lytecache.Common.{Bool, inl, inr, Bool-cases}
use lytecache.Errors.{Error, database}
use lytecache.World.{World, M, next_fault, call}
use lytecache.World.Ends.{Ends, called}

pub Ends-next_fault :
    {w : World} {Q : Bool → World → Type 0} {E : Error → World → Type 0}
    → Q (w.env.faults 0) (called w)
    → Ends w next_fault Q E
unfolding next_fault
Ends-next_fault h = record { at = h }

pub Ends-call :
    {A : Type 0} {w : World} {Q : A → World → Type 0} {E : Error → World → Type 0} {m : M A}
    → Ends (called w) m Q E
    → E database (called w)
    → Ends w (call m) Q E
unfolding call
Ends-call {w = w} h k = elim (Bool-cases (w.env.faults 0)) [
  | inl e ↦ record { at = rw e k }
  | inr e ↦ record { at = rw e h.at }
]
