-- ===== src/Fs/Content/Free.antt =====
-- Giving back the blocks of some slots of an inode of xv6/fs.c.
use a4team_os.Base.{
  ℕ, ◌<◌, ◌≡◌, sym, ◌∙◌, ◌≢◌, Bool, true, false, ◌||◌, ◌==◌, if◌then◌else◌, arith, Option, some,
  Bool-cases, inl, inr,
}
use a4team_os.Fs.{Inode, Volume}
use a4team_os.Fs.Alloc.{bfree}
use a4team_os.Fs.Alloc.Blocks.{in_use, IsMap, SameRest, Bfreed, was_free, freed, bfree-Bfreed}
use a4team_os.Fs.Content.Slots.{slot, IsMapped}

-- Of the disk `v`, the blocks of the slots `gone` of the inode have been given back, and nothing
-- else has changed.
pub record Freed (gone : ℕ → Bool) (ip : Inode) (v v1 : Volume) : Type 0 where
  pub map : IsMap v1
  pub out : (k : ℕ) → k < 141 → gone k ≡ true → slot ip v k ≢ 0 → in_use v1 (slot ip v k) ≡ false
  pub kept :
      (c : ℕ)
      → ((k : ℕ) → k < 141 → gone k ≡ true → slot ip v k ≢ 0 → slot ip v k ≢ c)
      → in_use v1 c ≡ in_use v c
  pub bytes : (c a : ℕ) → v1.bytes c a ≡ v.bytes c a
  pub numbers : (c a : ℕ) → v1.numbers c a ≡ v.numbers c a
  pub rest : SameRest v v1

pub data FreedIn (gone : ℕ → Bool) (ip : Inode) (v : Volume) : Option Volume → Type 0 where
  freed_in : {v1 : Volume} → Freed gone ip v v1 → FreedIn gone ip v (some v1)

-- `gone'` is `gone` with the slot `k`.
abbrev pub And : (k : ℕ) (gone gone' : ℕ → Bool) → Type 0
And k gone gone' = (j : ℕ) → j < 141 → gone' j ≡ ((j == k) || gone j)

skip-Freed :
    (k : ℕ) (gone gone' : ℕ → Bool) (ip : Inode) (v v1 : Volume)
    → And k gone gone'
    → slot ip v k ≡ 0
    → Freed gone ip v v1
    → Freed gone' ip v v1
skip-Freed k gone gone' ip v v1 also z f = record {
  map = f.map;
  out = λ j lj g ne. ground (arith, also j, f.out j);
  kept = λ c apart. f.kept c (λ j lj g ne. ground (arith, also j, apart j));
  bytes = f.bytes;
  numbers = f.numbers;
  rest = f.rest;
}

still_used :
    (k : ℕ) (gone : ℕ → Bool) (ip : Inode) (v v1 : Volume)
    → IsMapped ip v
    → k < 141
    → gone k ≡ false
    → slot ip v k ≢ 0
    → Freed gone ip v v1
    → in_use v1 (slot ip v k) ≡ true
still_used k gone ip v v1 m lk g ne f =
    f.kept (slot ip v k) (λ j lj gj nj e. ground (arith, m.apart j k)) ∙ m.marked k lk ne

pub bfree-FreedIn :
    (k : ℕ) (gone gone' : ℕ → Bool) (ip : Inode) (v v1 : Volume)
    → IsMapped ip v
    → And k gone gone'
    → k < 141
    → gone k ≡ false
    → slot ip v k ≢ 0
    → Freed gone ip v v1
    → {r : Option Volume} → Bfreed (slot ip v k) v1 r
    → FreedIn gone' ip v r
bfree-FreedIn k gone gone' ip v v1 m also lk g ne f (was_free free) =
    absurd (ground (arith, still_used k gone ip v v1 m lk g ne f))
bfree-FreedIn k gone gone' ip v v1 m also lk g ne f
      (freed {v'} used map use_of bytes numbers rest) =
    freed_in (record {
      map = map;
      out = λ j lj gj nj. ground (arith, also j, use_of (slot ip v j), f.out j);
      kept = λ c apart.
          let here = apart k lk (ground (arith, also k)) ne in
          let before = f.kept c (λ j lj gj nj. apart j lj (ground (arith, also j)) nj) in
          ground (arith, use_of c);
      bytes = λ c a. bytes c a ∙ f.bytes c a;
      numbers = λ c a. numbers c a ∙ f.numbers c a;
      rest = record {
        size = rest.size ∙ f.rest.size;
        ninodes = rest.ninodes ∙ f.rest.ninodes;
        dinode = rest.dinode ∙ f.rest.dinode;
      };
    })

-- One step of either loop: the block `b` of the slot `k`, if there is one.
pub free_slot-FreedIn :
    (k b : ℕ) (gone gone' : ℕ → Bool) (ip : Inode) (v v1 : Volume)
    → IsMapped ip v
    → And k gone gone'
    → k < 141
    → gone k ≡ false
    → slot ip v k ≡ b
    → Freed gone ip v v1
    → FreedIn gone' ip v (if b == 0 then some v1 else bfree b v1)
free_slot-FreedIn k b gone gone' ip v v1 m also lk g at f = elim (Bool-cases (b == 0)) [
  | inl z ↦ rw z (freed_in (skip-Freed k gone gone' ip v v1 also (ground arith) f))
  | inr ne ↦
      let same : b ≡ slot ip v k = sym at in
      rw (ne, same)
        (bfree-FreedIn k gone gone' ip v v1 m also lk g (ground arith) f
          (bfree-Bfreed (slot ip v k) v1 f.map))
]

-- The same for predicates that agree.
pub Freed-ext :
    (gone gone' : ℕ → Bool) (ip : Inode) (v v1 : Volume)
    → ((k : ℕ) → k < 141 → slot ip v k ≢ 0 → gone' k ≡ gone k)
    → Freed gone ip v v1
    → Freed gone' ip v v1
Freed-ext gone gone' ip v v1 same f = record {
  map = f.map;
  out = λ k lk g ne. f.out k lk (sym (same k lk ne) ∙ g) ne;
  kept = λ c apart. f.kept c (λ k lk g ne. apart k lk (same k lk ne ∙ g) ne);
  bytes = f.bytes;
  numbers = f.numbers;
  rest = f.rest;
}
