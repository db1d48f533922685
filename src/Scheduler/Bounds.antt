-- ===== src/Scheduler/Bounds.antt =====
-- Whether a machine fits on a host, in `u64` arithmetic.
use mikrom.Prelude.{ℕ, ◌+◌, ◌*◌, ◌≤◌, ◌<◌, ◌≡◌, ◌⊎◌, ◌↔◌, true, arith}
use mikrom.Scheduler.Worker.{HostMetrics, can_fit_vm}

-- For requests below 2 ^ 44 MiB, `can_fit_vm` says yes exactly when the host's used memory and the
-- request together are within its memory, and the same holds of its disk or the host reported none.
-- Used amounts are taken not to exceed the totals.
pub can_fit_vm-exact :
    (m : HostMetrics) (memory_mib disk_mib : ℕ)
    → memory_mib < 17592186044416
    → disk_mib < 17592186044416
    → m.ram_used_bytes ≤ m.ram_total_bytes
    → m.disk_used_bytes ≤ m.disk_total_bytes
    → can_fit_vm m memory_mib disk_mib ≡ true
      ↔ (m.ram_used_bytes + memory_mib * 1048576 ≤ m.ram_total_bytes)
        × ((m.disk_total_bytes ≡ 0) ⊎ (m.disk_used_bytes + disk_mib * 1048576 ≤ m.disk_total_bytes))
unfolding can_fit_vm
can_fit_vm-exact m memory_mib disk_mib small_ram small_disk ram disk = ground arith
