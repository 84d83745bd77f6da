-- ===== src/Examples/Helpers.antt =====
-- Semaphores and reference counts: the theorems at concrete inputs.
use rtmessage.Semaphore
use rtmessage.Semaphore.Runs.{Reachable-doubled, doubled}
use rtmessage.Retainable.{Run}
use rtmessage.Retainable.Runs.{held, releases-overlap}

releases-overlap_example :
    Run (held 2) (record { ref_count = 0; testing = 0; destroyed = 2; freed_reads = 1 })
releases-overlap_example = releases-overlap 1

abbrev posted_once : Semaphore.Semaphore
posted_once = Semaphore.post Semaphore.create

Reachable-doubled_example : Semaphore.Reachable (doubled 2)
Reachable-doubled_example = Reachable-doubled 2
