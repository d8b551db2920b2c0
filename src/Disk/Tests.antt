-- ===== src/Disk/Tests.antt =====
-- Runs of the disk scheduler (src/disk_scheduler.c) at concrete states.
use sky_net_os.Base.{zero, suc, refl, false, pos, arith, Returns, ℕ, ◌∷◌, []}
use sky_net_os.Disk.Defs.{Disk, process_disk_requests}
use sky_net_os.Disk.Sstf.{InReach}
use sky_net_os.Disk.Serve.{SstfResult, requested, process_disk_requests-SstfResult}

abbrev three : Disk
three = record { request_queue = pos 98 ∷ pos 183 ∷ pos 37 ∷ []; disk_lock = false }

three-InReach : (i : ℕ) → InReach (requested three i)
three-InReach zero = omega arith
three-InReach (suc zero) = omega arith
three-InReach (suc (suc zero)) = omega arith
three-InReach (suc (suc (suc i))) = omega arith

process_disk_requests-SstfResult_example :
    Returns (SstfResult (pos 53) three) (process_disk_requests (pos 53) three)
process_disk_requests-SstfResult_example =
    process_disk_requests-SstfResult (pos 53) three refl (omega arith) three-InReach
