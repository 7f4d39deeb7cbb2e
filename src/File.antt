-- ===== src/File.antt =====
-- Model of the file table of xv6/file.c. Inodes and the log are reached by calls only; they are the
-- fields of the record FileServices, as functions on the state of the rest of the kernel.
use a4team_os.Base.{
  ℕ, zero, suc, ◌+◌, ◌-◌, Bool, true, false, not, ◌==◌, ltb, if◌then◌else◌, update, Option, none,
  some, ℤ, pos, negsuc,
}
use a4team_os.Proc.{find_from}

abbrev pub nfile : ℕ
nfile = 100

-- `struct file`. The pipe and the inode are the only pointers, and which one counts is said by the
-- type.
pub data FileType : Type 0 where
  fd_none fd_pipe fd_inode : FileType

pub record File : Type 0 where
  pub type : FileType
  pub ref : ℕ
  pub readable : Bool
  pub writable : Bool
  pub pipe : ℕ
  pub ip : ℕ
  pub off : ℕ

-- The calls of file.c. The numbers returned by reads and writes are ints.
pub record FileServices (W : Type 0) : Type 0 where
  pub pipeclose : (pipe : ℕ) (writable : Bool) → W → W
  -- `begin_op(); iput(ip); end_op();`
  pub put_inode : ℕ → W → W
  pub piperead : (pipe addr : ℕ) → ℤ → W → ℤ × W
  pub pipewrite : (pipe addr : ℕ) → ℤ → W → ℤ × W
  -- `ilock(ip); stati(ip, st); iunlock(ip);`
  pub locked_stati : (ip st : ℕ) → W → W
  -- `ilock(ip); readi(...); iunlock(ip);`
  pub locked_readi : (ip addr off : ℕ) → ℤ → W → ℤ × W
  -- The same with `writei`, in a transaction.
  pub locked_writei : (ip addr off n : ℕ) → W → ℤ × W

-- `ftable.file`, with the rest of the kernel.
pub record Files (W : Type 0) : Type 0 where
  pub file : ℕ → File
  pub world : W

-- How a call ends that may panic.
pub data Result (W A : Type 0) : Type 0 where
  panics : Result W A
  returns : A → Files W → Result W A

module _ {W : Type 0} where
  pub filealloc : Files W → Option ℕ × Files W
  filealloc s = elim (find_from nfile 0 (λ f. (s.file f).ref == 0)) [
    | none ↦ (none, s)
    | some f ↦ (some f, record s { file = update s.file f (record (s.file f) { ref = 1 }) })
  ]

  pub filedup : ℕ → Files W → Result W ℕ
  filedup f s =
      if ltb (s.file f).ref 1
      then panics
      else returns f
          (record s { file = update s.file f (record (s.file f) { ref = (s.file f).ref + 1 }) })

module _ {W : Type 0} (sv : FileServices W) where
  -- The last reference to a file is given up: `ff` is the file as it was.
  abbrev pub give_up : File → W → W
  give_up ff w = elim (ff.type) [
    | fd_pipe ↦ sv.pipeclose ff.pipe ff.writable w
    | fd_inode ↦ sv.put_inode ff.ip w
    | fd_none ↦ w
  ]

  pub fileclose : ℕ → Files W → Result W ℕ
  fileclose f s =
      let ff = s.file f in
      if ltb ff.ref 1
      then panics
      else if ltb 1 ff.ref
      then returns 0 (record s { file = update s.file f (record ff { ref = ff.ref - 1 }) })
      else returns 0 (record {
        file = update s.file f (record ff { ref = 0; type = fd_none });
        world = give_up (record ff { ref = 0 }) s.world;
      })

  pub filestat : (f st : ℕ) → Files W → ℤ × Files W
  filestat f st s = elim ((s.file f).type) [
    | fd_inode ↦ (pos 0, record s { world = sv.locked_stati (s.file f).ip st s.world })
    | _ ↦ (negsuc 0, s)
  ]

  -- `f->off += r` if `r` is positive.
  abbrev pub advance : ℤ → File → File
  advance (pos r) ff = record ff { off = ff.off + r }
  advance (negsuc r) ff = ff

  abbrev pub read_inode : (f : ℕ) → ℤ × W → Files W → Result W ℤ
  read_inode f (r, w) s =
      returns r (record { file = update s.file f (advance r (s.file f)); world = w })

  pub fileread : (f addr : ℕ) → (n : ℤ) → Files W → Result W ℤ
  fileread f addr n s =
      let ff = s.file f in
      if not ff.readable then returns (negsuc 0) s else elim (ff.type) [
        | fd_pipe ↦
            let (r, w) = sv.piperead ff.pipe addr n s.world in returns r (record s { world = w })
        | fd_inode ↦ read_inode f (sv.locked_readi ff.ip addr ff.off n s.world) s
        | fd_none ↦ panics
      ]

  -- The loop of `filewrite` from index `i` on: where it ends, with at most 1536 bytes in a round.
  pub write_chunks : (fuel f addr n i : ℕ) → Files W → Result W ℕ
  write_chunks zero f addr n i s = returns i s
  write_chunks (suc k) f addr n i s = elim (ltb i n) [
    | false ↦ returns i s
    | true ↦
        let n1 = if ltb 1536 (n - i) then 1536 else n - i in
        let ff = s.file f in
        let (r, w) = sv.locked_writei ff.ip (addr + i) ff.off n1 s.world in
        let s' : Files W = record { file = update s.file f (advance r ff); world = w } in
        elim r [
          | negsuc e ↦ returns i s'
          | pos wrote ↦ elim (wrote == n1) [
            | true ↦ write_chunks k f addr n (i + n1) s'
            | false ↦ panics
          ]
        ]
  ]

  -- `i == n ? n : -1`
  pub all_or_fail : (n : ℕ) → Result W ℕ → Result W ℤ
  all_or_fail n panics = panics
  all_or_fail n (returns i s) = returns (if i == n then pos n else negsuc 0) s

  -- `filewrite`. A round writes at least one byte, so `n` rounds are enough; with a negative count
  -- there is none.
  pub filewrite : (f addr : ℕ) → (n : ℤ) → Files W → Result W ℤ
  unfolding write_chunks all_or_fail
  filewrite f addr n s =
      let ff = s.file f in
      if not ff.writable then returns (negsuc 0) s else elim (ff.type) [
        | fd_pipe ↦
            let (r, w) = sv.pipewrite ff.pipe addr n s.world in returns r (record s { world = w })
        | fd_inode ↦ elim n [
          | pos k ↦ all_or_fail k (write_chunks k f addr k 0 s)
          | negsuc k ↦ returns (negsuc 0) s
        ]
        | fd_none ↦ panics
      ]
