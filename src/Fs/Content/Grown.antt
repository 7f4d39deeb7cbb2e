-- ===== src/Fs/Content/Grown.antt =====
-- Growth of an inode of xv6/fs.c by new blocks.
use a4team_os.Base.{ℕ, ◌<◌, ◌≡◌, refl, ◌∙◌, ◌≢◌, true, false, ◌==◌, arith, Bool-cases, inl, inr}
use a4team_os.Fs.{Inode, Volume}
use a4team_os.Fs.Alloc.Blocks.{in_use, IsMap, Taken, SameRest}
use a4team_os.Fs.Content.Slots.{slot, IsMapped, Filled, fill-IsMapped}

-- The fields of an inode but for its block numbers are the same.
abbrev pub SameMeta : Inode → Inode → Type 0
SameMeta ip ip' =
    (ip'.size ≡ ip.size)
    × (ip'.type ≡ ip.type)
    × (ip'.inum ≡ ip.inum)
    × (ip'.nlink ≡ ip.nlink)
    × (ip'.dev_no ≡ ip.dev_no)
    × (ip'.ref ≡ ip.ref)
    × (ip'.valid ≡ ip.valid)

-- The inode has only gained blocks: no slot in use has changed, no byte of a block in use has, and
-- the blocks gained are zero.
pub record Grown (ip : Inode) (v : Volume) (ip' : Inode) (v' : Volume) : Type 0 where
  pub mapped : IsMapped ip' v'
  pub slots : (k : ℕ) → k < 141 → slot ip v k ≢ 0 → slot ip' v' k ≡ slot ip v k
  pub used : (c : ℕ) → in_use v c ≡ true → in_use v' c ≡ true
  pub bytes : (c a : ℕ) → in_use v c ≡ true → v'.bytes c a ≡ v.bytes c a
  pub fresh :
      (k a : ℕ) → k < 141 → slot ip v k ≡ 0 → slot ip' v' k ≢ 0 → v'.bytes (slot ip' v' k) a ≡ 0
  pub new :
      (k : ℕ) → k < 141 → slot ip v k ≡ 0 → slot ip' v' k ≢ 0 → in_use v (slot ip' v' k) ≡ false
  pub meta : SameMeta ip ip'
  pub rest : SameRest v v'

pub Grown-refl : (ip : Inode) (v : Volume) → IsMapped ip v → Grown ip v ip v
Grown-refl ip v m = record {
  mapped = m;
  slots = λ k lk ne. refl;
  used = λ c u. u;
  bytes = λ c a u. refl;
  fresh = λ k a lk e ne. absurd (ne e);
  new = λ k lk e ne. absurd (ne e);
  meta = (refl, refl, refl, refl, refl, refl, refl);
  rest = record { size = refl; ninodes = refl; dinode = refl };
}

pub Grown-trans :
    {ip : Inode} {v : Volume} {ip1 : Inode} {v1 : Volume} {ip2 : Inode} {v2 : Volume}
    → IsMapped ip v
    → Grown ip v ip1 v1
    → Grown ip1 v1 ip2 v2
    → Grown ip v ip2 v2
Grown-trans {ip} {v} {ip1} {v1} {ip2} {v2} m g h = record {
  mapped = h.mapped;
  slots = λ k lk ne. ground (arith, g.slots k, h.slots k);
  used = λ c u. h.used c (g.used c u);
  bytes = λ c a u. h.bytes c a (g.used c u) ∙ g.bytes c a u;
  fresh = λ k a lk e ne. elim (Bool-cases (slot ip1 v1 k == 0)) [
    | inl still ↦ h.fresh k a lk (ground arith) ne
    | inr filled ↦
        let ne1 : slot ip1 v1 k ≢ 0 = ground arith in
        let same = h.slots k lk ne1 in
        rw same (h.bytes (slot ip1 v1 k) a (g.mapped.marked k lk ne1) ∙ g.fresh k a lk e ne1)
  ];
  new = λ k lk e ne. elim (Bool-cases (slot ip1 v1 k == 0)) [
    | inl still ↦
        let later = h.new k lk (ground arith) ne in ground (arith, later, g.used (slot ip2 v2 k))
    | inr filled ↦
        let ne1 : slot ip1 v1 k ≢ 0 = ground arith in
        let same = h.slots k lk ne1 in rw same (g.new k lk e ne1)
  ];
  meta = ground (arith, g.meta, h.meta);
  rest = record {
    size = h.rest.size ∙ g.rest.size;
    ninodes = h.rest.ninodes ∙ g.rest.ninodes;
    dinode = h.rest.dinode ∙ g.rest.dinode;
  };
}

-- Filling an empty slot with a new block.
pub fill-Grown :
    (k b : ℕ) (ip : Inode) (v v1 : Volume) (ip' : Inode) (v' : Volume)
    → IsMapped ip v
    → slot ip v k ≡ 0
    → in_use v b ≡ false
    → Taken b v v1
    → IsMap v'
    → ((c : ℕ) → in_use v' c ≡ in_use v1 c)
    → ((c a : ℕ) → v'.bytes c a ≡ v1.bytes c a)
    → SameRest v1 v'
    → SameMeta ip ip'
    → Filled k b ip v ip' v'
    → Grown ip v ip' v'
fill-Grown k b ip v v1 ip' v' m empty free t map used bytes rest meta f = record {
  mapped = fill-IsMapped k b ip v ip' v' m free map (λ c. used c ∙ t.used c) f;
  slots = λ x lx ne. ground (arith, f x);
  used = λ c u. ground (arith, used c, t.used c);
  bytes = λ c a u. ground (arith, bytes c a, t.bytes c a);
  fresh = λ x a lx e ne.
      let here : slot ip' v' x ≡ b = ground (arith, f x) in
      rw here (ground (arith, bytes b a, t.bytes b a));
  new = λ x lx e ne. ground (arith, f x);
  meta = meta;
  rest = record {
    size = rest.size ∙ t.rest.size;
    ninodes = rest.ninodes ∙ t.rest.ninodes;
    dinode = rest.dinode ∙ t.rest.dinode;
  };
}

-- Writing back what a slot holds.
pub same-Grown :
    (ip : Inode) (v : Volume) (ip' : Inode) (v' : Volume)
    → IsMapped ip v
    → ((k : ℕ) → slot ip' v' k ≡ slot ip v k)
    → IsMap v'
    → ((c : ℕ) → in_use v' c ≡ in_use v c)
    → ((c a : ℕ) → v'.bytes c a ≡ v.bytes c a)
    → SameMeta ip ip'
    → SameRest v v'
    → Grown ip v ip' v'
same-Grown ip v ip' v' m f map used bytes meta rest = record {
  mapped = record {
    map = map;
    zero_used = used 0 ∙ m.zero_used;
    marked = λ k lk ne. ground (arith, f k, used (slot ip v k), m.marked k);
    apart = λ k k' lk lk' ne e. ground (arith, f k, f k', m.apart k k');
  };
  slots = λ k lk ne. f k;
  used = λ c u. used c ∙ u;
  bytes = λ c a u. bytes c a;
  fresh = λ k a lk e ne. absurd (ne (f k ∙ e));
  new = λ k lk e ne. absurd (ne (f k ∙ e));
  meta = meta;
  rest = rest;
}
