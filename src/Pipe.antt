-- ===== src/Pipe.antt =====
-- Model of xv6/pipe.c: a bounded buffer with free-running 32-bit counters.
-- `p->lock` makes each stretch between two sleeps one step, so it is left out of the state; the
-- stretches are `write_burst` and `read_ready`, and what other processes do across a sleep is
-- another state at the next stretch.
pub mod Fifo
pub mod Stream
use a4team_os.Base.{
  ℕ, zero, suc, ◌+◌, ◌-◌, ◌*◌, ◌/◌, ◌%◌, ◌^◌, Bool, true, false, not, ◌&&◌, ◌||◌, ◌==◌, ltb, leb,
  if◌then◌else◌, update, List, [], ◌∷◌, ◌++◌, Option, none, some,
}

abbrev pub pipe_size : ℕ
pipe_size = 512

abbrev pub uint_mod : ℕ
uint_mod = 2 ^ 32

-- `struct pipe`
pub record Pipe : Type 0 where
  pub buf : ℕ → ℕ
  pub nread : ℕ
  pub nwrite : ℕ
  pub readopen : Bool
  pub writeopen : Bool

-- The part of `pipealloc` that fills the new pipe. `junk` is what the page holds.
pub fresh : (junk : ℕ → ℕ) → Pipe
fresh junk = record { buf = junk; nread = 0; nwrite = 0; readopen = true; writeopen = true }

-- The channels that `wakeup` is called on.
pub data Chan : Type 0 where
  on_read on_write : Chan

-- `pipeclose`: the new state, the channel woken, and whether the page is freed.
pub pipeclose : Pipe → (writable : Bool) → Pipe × Chan × Bool
pipeclose p true = (record p { writeopen = false }, on_read, not p.readopen)
pipeclose p false = (record p { readopen = false }, on_write, not p.writeopen)

pub is_full : Pipe → Bool
is_full p = p.nwrite == (p.nread + pipe_size) % uint_mod

pub is_empty : Pipe → Bool
is_empty p = p.nread == p.nwrite

-- `p->data[p->nwrite++ % PIPESIZE] = c;`
pub put : Pipe → ℕ → Pipe
put p c = record p {
  buf = update p.buf (p.nwrite % pipe_size) c;
  nwrite = (p.nwrite + 1) % uint_mod;
}

-- How a stretch of `pipewrite` ends: all bytes written (after waking the readers), failure, or
-- asleep on a full pipe with the bytes that are left (after waking the readers too).
pub data Wrote : Type 0 where
  done : Wrote
  failed : Wrote
  asleep : List ℕ → Wrote

-- The channel that `pipewrite` wakes before it sleeps or returns.
pub write_wakes : Wrote → Option Chan
write_wakes done = some on_read
write_wakes failed = none
write_wakes (asleep cs) = some on_read

-- `pipewrite` from one wake-up to the next sleep or return; `killed` is `myproc()->killed`.
pub write_burst : (killed : Bool) → Pipe → List ℕ → Pipe × Wrote
unfolding is_full put
write_burst killed p [] = (p, done)
write_burst killed p (c ∷ cs) = elim (is_full p) [
  | true ↦ if not p.readopen || killed then (p, failed) else (p, asleep (c ∷ cs))
  | false ↦ write_burst killed (put p c) cs
]

-- `addr[i] = p->data[p->nread++ % PIPESIZE];`
pub get : Pipe → ℕ × Pipe
get p = (p.buf (p.nread % pipe_size), record p { nread = (p.nread + 1) % uint_mod })

-- The copying loop of `piperead`, at most `n` bytes.
pub read_loop : ℕ → Pipe → List ℕ × Pipe
unfolding is_empty get
read_loop zero p = ([], p)
read_loop (suc n) p =
    let (c, p') = get p in
    let (cs, p'') = read_loop n p' in if is_empty p then ([], p) else (c ∷ cs, p'')

pub data ReadResult : Type 0 where
  got : List ℕ → ReadResult
  killed_reader : ReadResult
  waits : ReadResult

-- The channel that `piperead` wakes before it sleeps or returns.
pub read_wakes : ReadResult → Option Chan
read_wakes (got cs) = some on_write
read_wakes killed_reader = none
read_wakes waits = none

-- `piperead` from one wake-up to the next sleep or return.
pub piperead : (killed : Bool) → Pipe → ℕ → Pipe × ReadResult
unfolding is_empty read_loop
piperead killed p n =
    if is_empty p && p.writeopen
    then (if killed then (p, killed_reader) else (p, waits))
    else (let (cs, p') = read_loop n p in (p', got cs))
