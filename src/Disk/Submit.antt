-- ===== src/Disk/Submit.antt =====
-- `submit_disk_request` of src/disk_scheduler.c keeps the queue within its array.
use sky_net_os.Base.{
  refl, inl, inr, true, false, sym, length, length-append, Bool-cases, leb, arith, Returns, ℤ, ◌≡◌,
  ◌⊎◌, ◌∷◌, ◌++◌, [],
}
use sky_net_os.Disk.Defs.{Disk, submit_disk_request, IsDisk, max_disk_requests}
use sky_net_os.Sync.Defs.{spinlock_release, spinlock_acquire-free}

-- Giving back a lock that was free.
pub same_disk :
    (d : Disk)
    → d.disk_lock ≡ false
    → ◌≡◌ {A = Disk} (record d { disk_lock = spinlock_release true }) d
same_disk d unlocked = λ i. record d { disk_lock = sym unlocked i }

-- submit_disk_request, called with the lock free and the queue within its array, returns and keeps
-- it so: the request joins the queue at its end, or the queue is full and stays as it is.
pub submit_disk_request-IsDisk :
    (track : ℤ) (d : Disk)
    → IsDisk d
    → Returns
        (λ r.
          IsDisk r.0
          × (((r.1 ≡ true) × (r.0.request_queue ≡ d.request_queue ++ track ∷ []))
              ⊎ ((r.1 ≡ false) × (length d.request_queue ≡ max_disk_requests) × (r.0 ≡ d))))
        (submit_disk_request track d)
unfolding submit_disk_request
submit_disk_request-IsDisk track d v =
    rw (submit_disk_request, spinlock_acquire-free v.unlocked)
      (elim (Bool-cases (leb max_disk_requests (length d.request_queue))) [
        | inl full ↦ rw full (
          record { unlocked = refl; fits = v.fits },
          inr (refl, ground arith, same_disk d v.unlocked),
        )
        | inr room ↦ rw room (
          record {
            unlocked = refl;
            fits = ground (arith, length-append d.request_queue (track ∷ []));
          },
          inl (refl, refl),
        )
      ])
