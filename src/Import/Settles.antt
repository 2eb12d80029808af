-- ===== src/Import/Settles.antt =====
-- How the loop of an import ends, and the status of every artifact that it has reached.
use harbor_transfer_portal.Domain.Status.{conflict as artifact_conflict}
use harbor_transfer_portal.Destination.Model.{conflict}
use harbor_transfer_portal.Base.{Bool, Option, all, err, false, length, ok, true, ℕ, ◌+◌, ◌≡◌}
use harbor_transfer_portal.Bundle.Manifest.{ArtifactDescriptor}
use harbor_transfer_portal.Bundle.Text.{Text}
use harbor_transfer_portal.Domain.Status.{
  ArtifactStatus, failed, imported, pending, running, skipped, verified,
}
use harbor_transfer_portal.Import.Loop.{
  Ended, LoopEnd, Progress, Registry, TargetReference, cancelled, inspect, mutate, raised, through,
  uncaught,
}

abbrev pub is_final : ArtifactStatus → Bool
is_final verified = true
is_final skipped = true
is_final artifact_conflict = true
is_final failed = true
is_final pending = false
is_final running = false
is_final imported = false

module _ {S : Type 0} (registry : Registry S) where
  -- A tool raised an exception that the loop does not catch: an inspection, while the row is still
  -- pending, or a push, while it is running.
  pub data Escaped : ArtifactStatus → Type 0 where
    at_inspection :
        (s : S) (r : TargetReference) (digest : Option Text)
        → inspect registry s r digest ≡ err uncaught
        → Escaped pending
    at_mutation :
        (s : S) (d : ArtifactDescriptor) (r : TargetReference) (allow_existing : Bool)
        → (mutate registry s d r allow_existing).1 ≡ err uncaught
        → Escaped running

  -- The body of the loop gives a final status, or an exception of a tool leaves it.
  abbrev IsEnded : Ended → Type 0
  IsEnded (ok o) = is_final o.status ≡ true
  IsEnded (err status) = Escaped status

  -- Where the loop over `total` artifacts from `index` on has ended, after `reached` of them.
  abbrev pub IsLoopEnd : (ℕ → Bool) → ℕ → ℕ → ℕ → LoopEnd → Type 0
  IsLoopEnd cancels index total reached through = reached ≡ total
  IsLoopEnd cancels index total reached cancelled = cancels (index + reached) ≡ true
  IsLoopEnd cancels index total reached (raised status) = Escaped status

  abbrev IsSettled : (ℕ → Bool) → ℕ → ℕ → Progress S → Type 0
  IsSettled cancels index total p =
      (all (λ o. is_final o.status) p.outcomes ≡ true)
      × IsLoopEnd cancels index total (length p.outcomes) p.end
