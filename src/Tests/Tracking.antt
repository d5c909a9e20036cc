-- ===== src/Tests/Tracking.antt =====
-- The object tracker on concrete inputs.
use driver_optimizer.Prelude.{◌≡◌, refl, List, [], ◌∷◌, some, pos}
use driver_optimizer.Action.{ok, stop, assertion}
use driver_optimizer.ObjectTracker.{generic_free, generic_allocator}
use driver_optimizer.ObjectTracker.Table.{tracked}
use driver_optimizer.ObjectTracker.Allocation.{
  Event, allocated, freed, run, spec_run, HasMemory, Agrees, run-implements-spec_run,
}
use driver_optimizer.ObjectTracker.Reports.{double_free, EndsFor, reason, allocation_reports}
use driver_optimizer.Hashtable.Assoc.{assoc}
use driver_optimizer.Tests.{start, Objects, linux, caller, object_value, lock_address, with_object}

memory : HasMemory Objects
memory t key value = ((key, value) ∷ t, refl)

abbrev history : List Event
history = allocated caller 4096 8 1 ∷ allocated caller 8192 8 1 ∷ freed 4096 1 ∷ freed 4096 1 ∷ []

run-implements-spec_run_example :
    Agrees (run history start) (spec_run history (some (tracked start)))
run-implements-spec_run_example = run-implements-spec_run memory history start

freed_once : generic_free (pos 0) lock_address 1 (with_object (object_value 1 [])) ≡ ok (tt, start)
unfolding generic_free
freed_once = refl

double_free_example : generic_free (pos 0) lock_address 2 start ≡ stop assertion
double_free_example =
    double_free (with_object (object_value 1 [])) start lock_address 1 2 freed_once

-- an object of no size is not reported
allocation_reports_example :
    EndsFor
      (generic_allocator caller (pos 1) 4096 0 1 start)
      (reason caller 4096 0 1 (tracked start))
allocation_reports_example = allocation_reports memory start caller 4096 0 1
