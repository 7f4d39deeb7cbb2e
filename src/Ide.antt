-- ===== src/Ide.antt =====
-- Model of xv6/ide.c: the queue of buffers that wait for the disk. A buffer is its address, 0 the
-- null pointer. `idelock` makes each stretch between two sleeps one step, so it is left out.
pub mod Queue
pub mod Progress
use Prim.Native.Nat.{bit_or}
use a4team_os.Base.{
  ℕ, zero, suc, ◌+◌, ◌-◌, ◌*◌, ◌/◌, ◌%◌, ◌^◌, Bool, true, false, not, ◌&&◌, ◌||◌, ◌==◌, leb,
  if◌then◌else◌, update, List, [], ◌∷◌, ◌++◌, Option, none, some,
}

abbrev pub fs_size : ℕ
fs_size = 1000

-- `struct buf` without its links of the cache: B_VALID and B_DIRTY of `flags`, and whether the
-- caller holds its lock.
pub record Request : Type 0 where
  pub is_valid : Bool
  pub is_dirty : Bool
  pub is_held : Bool
  pub disk : ℕ
  pub block : ℕ
  pub words : ℕ → ℕ

-- What is sent to the ports of the disk.
pub data PortOut : Type 0 where
  outb : (port value : ℕ) → PortOut
  outsl : (words : ℕ → ℕ) → PortOut

pub record Ide : Type 0 where
  pub reqs : ℕ → Request
  pub qnext : ℕ → ℕ
  pub idequeue : ℕ
  pub havedisk1 : Bool
  pub ports : List PortOut

-- What `idestart` sends; a block is a sector.
pub start_ports : Request → List PortOut
start_ports q =
    outb 0x3f6 0
    ∷ outb 0x1f2 1
    ∷ outb 0x1f3 (q.block % 256)
    ∷ outb 0x1f4 (q.block / 2 ^ 8 % 256)
    ∷ outb 0x1f5 (q.block / 2 ^ 16 % 256)
    ∷ outb 0x1f6 (bit_or (bit_or 0xe0 (q.disk % 2 * 16)) (q.block / 2 ^ 24 % 16))
    ∷ (if q.is_dirty then outb 0x1f7 0x30 ∷ outsl q.words ∷ [] else outb 0x1f7 0x20 ∷ [])

-- `idestart`, none for a panic.
pub idestart : (b : ℕ) → Ide → Option Ide
idestart b s =
    if b == 0 || leb fs_size (s.reqs b).block
    then none
    else some (record s { ports = s.ports ++ start_ports (s.reqs b) })

-- The buffer as the interrupt leaves it: `failed` is what `idewait(1)` says, `from_disk` what the
-- disk gives.
pub finished : (failed : Bool) (from_disk : ℕ → ℕ) → Request → Request
finished failed from_disk q = record q {
  words = if not q.is_dirty && not failed then from_disk else q.words;
  is_valid = true;
  is_dirty = false;
}

-- `ideintr`: the new state and the buffer whose waiters are woken, 0 for none.
pub ideintr : (failed : Bool) (from_disk : ℕ → ℕ) → Ide → Option (ℕ × Ide)
ideintr failed from_disk s =
    let b = s.idequeue in
    if b == 0
    then some (0, s)
    else (let s' : Ide = record s {
      idequeue = s.qnext b;
      reqs = update s.reqs b (finished failed from_disk (s.reqs b));
    } in
        if s'.idequeue == 0
        then some (b, s')
        else (elim (idestart s'.idequeue s') [ none ↦ none | some s'' ↦ some (b, s'') ]))

-- `for(pp=&idequeue; *pp; pp=&(*pp)->qnext) ;` from the buffer `p` on: the buffer whose `qnext`
-- field `pp` points to.
pub queue_end : ℕ → (qnext : ℕ → ℕ) → (p : ℕ) → ℕ
queue_end zero qnext p = p
queue_end (suc f) qnext p =
    let rest = queue_end f qnext (qnext p) in if qnext p == 0 then p else rest

-- `*pp = b`, on fuel for the buffers of the queue.
pub enqueue : (fuel b : ℕ) → Ide → Ide
enqueue fuel b s =
    let next = update s.qnext b 0 in
    if s.idequeue == 0
    then record s { qnext = next; idequeue = b }
    else record s { qnext = update next (queue_end fuel next s.idequeue) b }

-- `iderw` up to the sleep, none for a panic.
pub iderw : (fuel b : ℕ) → Ide → Option Ide
iderw fuel b s =
    let q = s.reqs b in
    if not q.is_held
    then none
    else if q.is_valid && not q.is_dirty
    then none
    else if not (q.disk == 0) && not s.havedisk1
    then none
    else (let s' = enqueue fuel b s in if s'.idequeue == b then idestart b s' else some s')

-- The test that ends the sleeps of `iderw`.
unfoldable pub is_done : Request → Bool
is_done q = q.is_valid && not q.is_dirty
