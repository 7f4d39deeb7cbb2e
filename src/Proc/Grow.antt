-- ===== src/Proc/Grow.antt =====
-- growproc of xv6/proc.c, and the clock branch of xv6/trap.c.
use a4team_os.Base.{ℕ, zero, suc, ◌+◌, ◌-◌, ◌%◌, ◌^◌, ◌==◌, if◌then◌else◌, ℤ, pos, negsuc}
use a4team_os.Proc.{at_object, Kernel, nproc, set_proc, for_each}
use a4team_os.Proc.Services.{Services}
use a4team_os.Proc.Life.{wakeup1, ticking}

module _ {W : Type 0} where
  -- The body of the loop of `growproc`: every thread of the address space is told the size.
  pub resize_one : (cur sz : ℕ) → ℕ → Kernel W → Kernel W
  resize_one cur sz i k =
      if (k.procs i).pgdir == (k.procs cur).pgdir
      then set_proc k i (record (k.procs i) { sz = sz })
      else k

  -- `growproc` from the answer of allocuvm or deallocuvm on; 0 is their failure.
  pub resized : (cur : ℕ) → ℕ × W → Kernel W → Kernel W × ℤ
  unfolding resize_one for_each
  resized cur (sz, w) k =
      let k1 = record k { world = w } in
      if sz == 0 then (k1, negsuc 0) else (
        for_each nproc 0 (resize_one cur sz) (set_proc k1 cur (record (k.procs cur) { sz = sz })),
        pos 0,
      )

  -- The clock interrupt on processor 0; `ticks_chan` is the address of `ticks`.
  pub clock : (ticks_chan : ℕ) → Kernel W → Kernel W
  clock ticks_chan k =
      ticking (wakeup1 (at_object ticks_chan) (record k { ticks = (k.ticks + 1) % 2 ^ 32 }))

module _ {W : Type 0} (sv : Services W) where
  -- `n` is signed; the new size is computed modulo 2 ^ 32. Without a change the size is set again.
  pub growproc : (cur : ℕ) → (n : ℤ) → Kernel W → Kernel W × ℤ
  unfolding resized resize_one for_each
  growproc cur (negsuc m) k =
      let c = k.procs cur in
      resized cur (sv.deallocuvm c.pgdir c.sz ((c.sz + 2 ^ 32 - (m + 1)) % 2 ^ 32) k.world) k
  growproc cur (pos zero) k =
      let k1 = set_proc k cur (record (k.procs cur) { sz = (k.procs cur).sz }) in
      (for_each nproc 0 (resize_one cur (k.procs cur).sz) k1, pos 0)
  growproc cur (pos (suc m)) k =
      let c = k.procs cur in
      resized cur (sv.allocuvm c.pgdir c.sz ((c.sz + suc m) % 2 ^ 32) k.world) k
