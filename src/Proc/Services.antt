-- ===== src/Proc/Services.antt =====
-- What xv6/proc.c calls in the other parts of the kernel (kalloc.c, vm.c, file.c, fs.c, log.c), as
-- functions on their state. The theorems about proc.c hold for any such functions.
use a4team_os.Base.{ℕ}
use a4team_os.Proc.{TrapFrame}

pub record Services (W : Type 0) : Type 0 where
  pub kalloc : W → ℕ × W
  pub kfree : ℕ → W → W
  -- The trap frame that the new kernel stack page holds by chance.
  pub frame_in : ℕ → W → TrapFrame
  pub copyuvm : (pgdir sz : ℕ) → W → ℕ × W
  pub freevm : ℕ → W → W
  pub allocuvm : (pgdir oldsz newsz : ℕ) → W → ℕ × W
  pub deallocuvm : (pgdir oldsz newsz : ℕ) → W → ℕ × W
  pub filedup : ℕ → W → W
  pub fileclose : ℕ → W → W
  pub idup : ℕ → W → W
  -- `begin_op(); iput(ip); end_op();`
  pub put_cwd : ℕ → W → W
  -- `*(uint*)addr = word` in the memory of the process with this page directory.
  pub store_word : (pgdir addr word : ℕ) → W → W
