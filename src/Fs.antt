-- ===== src/Fs.antt =====
-- Model of xv6/fs.c and xv6/fs.h: the file system of one device.
-- A disk block is used in one of four ways, each a field of the record Volume: as a block of the
-- free map, as inodes, as bytes, or as an array of block numbers (an indirect block). Reads and
-- writes of blocks go through the log, which is modelled in Log; here they take effect at once.
-- A panic is `none`.
pub mod Alloc
pub mod Content
pub mod Cache
pub mod Dir
use a4team_os.Base.{
  ℕ, zero, suc, ◌+◌, ◌-◌, ◌*◌, ◌/◌, ◌%◌, ◌^◌, Bool, true, false, not, ◌&&◌, ◌||◌, ◌==◌, ltb, leb,
  if◌then◌else◌, Option, none, some, ℤ,
}

abbrev pub bsize : ℕ
bsize = 512

-- `BPB`, the number of bits of a block.
abbrev pub bpb : ℕ
bpb = 4096

abbrev pub ndirect : ℕ
ndirect = 12

abbrev pub nindirect : ℕ
nindirect = 128

-- What a file is; `nothing` is the type 0 of a free inode.
pub data InodeType : Type 0 where
  nothing dir file dev : InodeType

-- `struct dinode`
pub record Dinode : Type 0 where
  pub type : InodeType
  pub major : ℤ
  pub minor : ℤ
  pub nlink : ℕ
  pub size : ℕ
  pub addrs : ℕ → ℕ

-- `struct inode`, without its lock; `major` and `minor` are shorts.
pub record Inode : Type 0 where
  pub dev_no : ℕ
  pub inum : ℕ
  pub ref : ℕ
  pub valid : Bool
  pub type : InodeType
  pub major : ℤ
  pub minor : ℤ
  pub nlink : ℕ
  pub size : ℕ
  pub addrs : ℕ → ℕ

-- The disk, with the fields of the superblock that fs.c reads. `free_map i j` is byte `j` of block
-- `i` of the free map.
pub record Volume : Type 0 where
  pub size : ℕ
  pub ninodes : ℕ
  pub free_map : ℕ → ℕ → ℕ
  pub dinode : ℕ → Dinode
  pub bytes : ℕ → ℕ → ℕ
  pub numbers : ℕ → ℕ → ℕ

-- `memmove` of `n` bytes between two arrays.
unfoldable pub blit : (dst n : ℕ) (src : ℕ → ℕ) → (ℕ → ℕ) → ℕ → ℕ
blit dst n src m a = if leb dst a && ltb a (dst + n) then src (a - dst) else m a

-- Copy a modified in-memory inode to disk.
pub iupdate : Inode → Volume → Volume
iupdate ip v = record v {
  dinode = λ i.
      if i == ip.inum
      then record {
        type = ip.type;
        major = ip.major;
        minor = ip.minor;
        nlink = ip.nlink;
        size = ip.size;
        addrs = ip.addrs;
      }
      else v.dinode i;
}

-- `devsw[major].read` and `.write`, none for a null pointer: on the memory that is copied to or
-- from, and the state `W` of the devices. The result is an int.
pub record Devsw (W : Type 0) : Type 0 where
  pub read : ℕ → Option ((n : ℕ) → (ℕ → ℕ) → W → ℤ × (ℕ → ℕ) × W)
  pub write : ℕ → Option ((n : ℕ) → (ℕ → ℕ) → W → ℤ × W)

-- `struct stat`
pub record Stat : Type 0 where
  pub type : InodeType
  pub dev_no : ℕ
  pub ino : ℕ
  pub nlink : ℕ
  pub size : ℕ

pub stati : Inode → Stat
stati ip = record {
  type = ip.type;
  dev_no = ip.dev_no;
  ino = ip.inum;
  nlink = ip.nlink;
  size = ip.size;
}
