-- ===== src/Tests/Requests.antt =====
-- The queue of the disk at concrete inputs.
use a4team_os.Base.{ℕ, ◌≡◌, refl, true, false, ◌==◌, arith, [], ◌∷◌, some}
use a4team_os.Alloc.FreeList.{has}
use a4team_os.Ide.{Request, Ide, is_done, iderw}
use a4team_os.Ide.Queue.{chain_end, chain_cons, IsIde, iderw-IsIde}
use a4team_os.Ide.Progress.{interrupts, AllDone, ideintr-AllDone}

-- The buffer 5 is to be written, all others are to be read.
abbrev request : ℕ → Request
request b = record {
  is_valid = false;
  is_dirty = b == 5;
  is_held = true;
  disk = 1;
  block = 7;
  words = λ i. i;
}

-- The disk works on buffer 4.
abbrev busy_disk : Ide
busy_disk = record { reqs = request; qnext = λ b. 0; idequeue = 4; havedisk1 = true; ports = [] }

busy_disk-IsIde : IsIde busy_disk (4 ∷ [])
busy_disk-IsIde = record { queue = chain_cons (omega arith) refl chain_end; in_range = λ b h. refl }

iderw-IsIde_example :
    (s' : Ide) × (iderw 30 5 busy_disk ≡ some s')
    × IsIde s' (4 ∷ 5 ∷ [])
    × (s'.reqs ≡ request)
    × (s'.ports ≡ [])
    × (s'.havedisk1 ≡ true)
    × ((a : ℕ) → has a (4 ∷ 5 ∷ []) ≡ false → s'.qnext a ≡ 0)
unfolding is_done
iderw-IsIde_example =
    iderw-IsIde 30 5 busy_disk (4 ∷ []) (omega arith) (omega arith) refl busy_disk-IsIde
      (refl, refl, refl, refl)

ideintr-AllDone_example :
    (s' : Ide) × (interrupts ((true, λ i. 0) ∷ []) busy_disk ≡ some s')
    × IsIde s' []
    × AllDone busy_disk (4 ∷ []) s'
ideintr-AllDone_example =
    ideintr-AllDone ((true, λ i. 0) ∷ []) (4 ∷ []) busy_disk refl busy_disk-IsIde
