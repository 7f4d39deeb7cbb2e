-- ===== src/Fs/Dir.antt =====
-- The directories of xv6/fs.c: namecmp, dirlookup, dirlink, and the walk along a path.
-- A directory entry is 16 bytes: its inode number, low byte first, and the name. A name is a
-- function from positions to characters. As in Fs.Cache, a panic or a wait is `none`.
pub mod Scan
pub mod Lookup
pub mod Walk
use a4team_os.Base.{
  ℕ, zero, suc, ◌+◌, ◌-◌, ◌*◌, ◌/◌, ◌%◌, Bool, true, false, not, ◌&&◌, ◌||◌, ◌==◌, ltb,
  if◌then◌else◌, update, Option, none, some, ℤ, pos, negsuc, List, [], ◌∷◌, length, get_elem?,
}
use a4team_os.Str.{strncmp, strncpy}
use a4team_os.Path.{slash, dir_siz, skipelem}
use a4team_os.Fs.{Inode, InodeType, nothing, dir, file, dev, Volume}
use a4team_os.Fs.Content.{readi_file, writei_file}
use a4team_os.Fs.Cache.{Icache, set_inode, iget, idup, ilock, iunlock, iput, iunlockput}

-- `strncmp(s, t, DIRSIZ)`, with the two names side by side in memory.
pub namecmp : (s t : ℕ → ℕ) → ℤ
namecmp s t = strncmp 0 dir_siz dir_siz (λ a. if ltb a dir_siz then s a else t (a - dir_siz))

abbrev pub is_zero : ℤ → Bool
is_zero (pos n) = n == 0
is_zero (negsuc n) = false

-- `de.inum` and `de.name`
pub entry_inum : (de : ℕ → ℕ) → ℕ
entry_inum de = de 0 + 256 * de 1

pub entry_name : (de : ℕ → ℕ) → ℕ → ℕ
entry_name de i = de (2 + i)

-- `readi(dp, (char*)&de, off, sizeof(de))`, none when it does not answer `sizeof(de)`.
pub read_entry : Inode → (off : ℕ) → Volume → Option ((ℕ → ℕ) × Inode × Volume)
read_entry dp off v = elim (readi_file dp (λ a. 0) off 16 v) [
  | none ↦ none
  | some (negsuc e, de, dp', v') ↦ none
  | some (pos k, de, dp', v') ↦ if k == 16 then some (de, dp', v') else none
]

-- The loop of `dirlookup` and that of `dirlink`, which stop at an entry that passes the test:
-- where, and at what entry.
pub scan_entries :
    ℕ
    → (off : ℕ) → (stops : (ℕ → ℕ) → Bool) → Inode
    → Volume
    → Option (Option (ℕ × (ℕ → ℕ)) × Inode × Volume)
unfolding read_entry
scan_entries zero off stops dp v = some (none, dp, v)
scan_entries (suc f) off stops dp v = elim (ltb off dp.size) [
  | false ↦ some (none, dp, v)
  | true ↦ elim (read_entry dp off v) [
    | none ↦ none
    | some (de, dp', v') ↦ elim (stops de) [
      | true ↦ some (some (off, de), dp', v')
      | false ↦ scan_entries f (off + 16) stops dp' v'
    ]
  ]
]

-- `de.inum != 0 && namecmp(name, de.name) == 0`
pub is_named : (name de : ℕ → ℕ) → Bool
unfolding namecmp entry_inum entry_name
is_named name de = not (entry_inum de == 0) && is_zero (namecmp name (entry_name de))

abbrev pub is_dir : InodeType → Bool
is_dir dir = true
is_dir _ = false

-- The offset and the inode of the entry. A size takes less than `size + 1` rounds.
pub dirlookup : (dp : ℕ) (name : ℕ → ℕ) → Icache → Option (Option (ℕ × ℕ) × Icache)
unfolding scan_entries is_named
dirlookup dp name s =
    let ip = s.inode dp in
    if not (is_dir ip.type)
    then none
    else elim (scan_entries ip.size 0 (is_named name) ip s.volume) [
      | none ↦ none
      | some (none, ip', v') ↦ some (none, record (set_inode dp ip' s) { volume = v' })
      | some (some (off, de), ip', v') ↦
          elim (iget ip.dev_no (entry_inum de) (record (set_inode dp ip' s) { volume = v' })) [
            | none ↦ none
            | some (i, s') ↦ some (some (off, i), s')
          ]
    ]

-- `strncpy(de.name, name, DIRSIZ); de.inum = inum;`
pub fill_entry : (name : ℕ → ℕ) (inum : ℕ) → ℕ → ℕ
fill_entry name inum a =
    if a == 0
    then inum % 256
    else if a == 1
    then inum / 256 % 256
    else strncpy 2 16 (pos dir_siz) (λ b. if ltb b 16 then 0 else name (b - 16)) a

-- The end of `dirlink`, at the offset of a free entry or at the size.
pub write_entry : (dp off : ℕ) (de : ℕ → ℕ) → Icache → Option (ℤ × Icache)
write_entry dp off de s = elim (writei_file (s.inode dp) de off 16 s.volume) [
  | none ↦ none
  | some (negsuc e, ip', v') ↦ none
  | some (pos n, ip', v') ↦
      if n == 16 then some (pos 0, record (set_inode dp ip' s) { volume = v' }) else none
]

-- The offset at which the second loop of `dirlink` ends without a free entry: the first multiple
-- of 16 not below the size.
abbrev pub end_of : (size : ℕ) → ℕ
end_of size = (size + 15) / 16 * 16

pub dirlink : (dp : ℕ) (name : ℕ → ℕ) (inum : ℕ) → Icache → Option (ℤ × Icache)
unfolding dirlookup scan_entries entry_inum fill_entry write_entry
dirlink dp name inum s = elim (dirlookup dp name s) [
  | none ↦ none
  | some (some (off, i), s') ↦ elim (iput i s') [ none ↦ none | some s'' ↦ some (negsuc 0, s'') ]
  | some (none, s') ↦
      elim (scan_entries (s'.inode dp).size 0 (λ de. entry_inum de == 0) (s'.inode dp) s'.volume) [
        | none ↦ none
        | some (none, ip', v') ↦
            write_entry dp (end_of ip'.size) (fill_entry name inum)
              (record (set_inode dp ip' s') { volume = v' })
        | some (some (off, de), ip', v') ↦
            write_entry dp off (fill_entry name inum) (record (set_inode dp ip' s') { volume = v' })
      ]
]

-- The characters of an element, then NULs.
abbrev pub chars : List ℕ → ℕ → ℕ
chars cs i = elim (get_elem? cs i) [ none ↦ 0 | some c ↦ c ]

-- What `namex` answers: the inode and the name that it leaves for the caller.
abbrev pub Found : Type 0
Found = Option ℕ × List ℕ × Icache

-- `iunlockput(ip); return 0;`
pub give_up_inode : (ip : ℕ) (name : List ℕ) → Icache → Option Found
give_up_inode ip name s = elim (iunlockput ip s) [ none ↦ none | some s' ↦ some (none, name, s') ]

-- A round of the loop of `namex` for the element `name`: the next inode, or what is returned.
pub data Round : Type 0 where
  returns : Option Found → Round
  goes_on : (next : ℕ) → Icache → Round

-- The round after `dirlookup`.
pub enter : (ip : ℕ) (name : List ℕ) → Option (Option (ℕ × ℕ) × Icache) → Round
unfolding give_up_inode
enter ip name none = returns none
enter ip name (some (none, s)) = returns (give_up_inode ip name s)
enter ip name (some (some (off, next), s)) = elim (iunlockput ip s) [
  | none ↦ returns none
  | some s' ↦ goes_on next s'
]

abbrev pub is_last_element : List ℕ → Bool
is_last_element [] = true
is_last_element (c ∷ cs) = false

pub walk_round : (parent : Bool) (ip : ℕ) (name path : List ℕ) → Icache → Round
unfolding give_up_inode dirlookup enter
walk_round parent ip name path s = elim (ilock ip s) [
  | none ↦ returns none
  | some s' ↦
      if not (is_dir (s'.inode ip).type)
      then returns (give_up_inode ip name s')
      else if parent && is_last_element path
      then elim (iunlock ip s') [
        | none ↦ returns none
        | some s'' ↦ returns (some (some ip, name, s''))
      ]
      else enter ip name (dirlookup ip (chars name) s')
]

-- The loop of `namex`, and what follows it.
pub walk : ℕ → (parent : Bool) (ip : ℕ) (name path : List ℕ) → Icache → Option Found
unfolding walk_round
walk zero parent ip name path s = none
walk (suc f) parent ip name path s = elim (skipelem path) [
  | none ↦
      if parent
      then elim (iput ip s) [ none ↦ none | some s' ↦ some (none, name, s') ]
      else some (some ip, name, s)
  | some (name', path') ↦ elim (walk_round parent ip name' path' s) [
    | returns r ↦ r
    | goes_on next s' ↦ walk f parent next name' path' s'
  ]
]

abbrev pub starts_at_root : List ℕ → Bool
starts_at_root [] = false
starts_at_root (c ∷ cs) = c == slash

-- `namex`, with the inode of the process's directory; an element takes at least one character of
-- the path, so a round more than its length is enough.
pub namex : (cwd : ℕ) (path : List ℕ) (parent : Bool) → Icache → Option Found
unfolding walk
namex cwd path parent s =
    if starts_at_root path
    then elim (iget 1 1 s) [
      | none ↦ none
      | some (ip, s') ↦ walk (suc (length path)) parent ip [] path s'
    ]
    else (let (ip, s') = idup cwd s in walk (suc (length path)) parent ip [] path s')

pub namei : (cwd : ℕ) (path : List ℕ) → Icache → Option Found
unfolding namex
namei cwd path s = namex cwd path false s

pub nameiparent : (cwd : ℕ) (path : List ℕ) → Icache → Option Found
unfolding namex
nameiparent cwd path s = namex cwd path true s
