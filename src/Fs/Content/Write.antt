-- ===== src/Fs/Content/Write.antt =====
-- writei of xv6/fs.c writes its bytes at their offsets and leaves all others alone.
use a4team_os.Base.{
  ℕ, ◌+◌, ◌-◌, ◌/◌, ◌%◌, ◌≤◌, ◌<◌, ◌≡◌, refl, ◌∙◌, ◌≢◌, true, false, ◌&&◌, ◌==◌, ltb, leb,
  if◌then◌else◌, arith, Bool-cases, inl, inr,
}
use a4team_os.Fs.{Inode, Volume, blit}
use a4team_os.Fs.Alloc.Blocks.{in_use, in_use_map, IsMap, SameRest}
use a4team_os.Fs.Content.{put_bytes}
use a4team_os.Fs.Content.Slots.{slot, slot_of, IsMapped}
use a4team_os.Fs.Content.Grown.{Grown, SameMeta}

-- The byte of the content at an offset; an offset with no block reads as 0.
unfoldable pub byte_at : Inode → Volume → ℕ → ℕ
byte_at ip v x = let b = slot ip v (slot_of (x / 512)) in if b == 0 then 0 else v.bytes b (x % 512)

-- The content at the offsets from `lo` on and below `hi` is `src`, and elsewhere as before; no
-- block of another owner has changed.
pub record Wrote (lo hi : ℕ) (src : ℕ → ℕ) (ip : Inode) (v : Volume) (ip' : Inode) (v' : Volume)
    : Type 0 where
  pub mapped : IsMapped ip' v'
  pub content :
      (x : ℕ)
      → x < 71680
      → byte_at ip' v' x ≡ (if leb lo x && ltb x hi then src (x - lo) else byte_at ip v x)
  pub owned : (k : ℕ) → k < 141 → slot ip v k ≢ 0 → slot ip' v' k ≡ slot ip v k
  pub others :
      (c a : ℕ)
      → in_use v c ≡ true
      → ((k : ℕ) → k < 141 → slot ip v k ≢ c)
      → v'.bytes c a ≡ v.bytes c a
  pub used : (c : ℕ) → in_use v c ≡ true → in_use v' c ≡ true
  pub new :
      (k : ℕ) → k < 141 → slot ip v k ≡ 0 → slot ip' v' k ≢ 0 → in_use v (slot ip' v' k) ≡ false
  pub meta : SameMeta ip ip'
  pub rest : SameRest v v'

-- Gaining zeroed blocks changes no byte of the content.
pub byte_at-Grown :
    {ip : Inode} {v : Volume} {ip' : Inode} {v' : Volume}
    → IsMapped ip v
    → Grown ip v ip' v'
    → (x : ℕ) → x < 71680
    → byte_at ip' v' x ≡ byte_at ip v x
unfolding byte_at
byte_at-Grown {ip} {v} {ip'} {v'} m g x lt =
    let k = slot_of (x / 512) in
    let lk : k < 141 = ground arith in
    elim (Bool-cases (slot ip v k == 0)) [
      | inl e ↦ ground (arith, g.fresh k (x % 512) lk)
      | inr ne ↦ ground (arith, g.slots k lk, g.bytes (slot ip v k) (x % 512), m.marked k lk)
    ]

put_bytes-slot :
    (ip : Inode) (v : Volume) (b at n : ℕ) (src : ℕ → ℕ) (k : ℕ)
    → slot ip (put_bytes b at n src v) k ≡ slot ip v k
unfolding slot put_bytes
put_bytes-slot ip v b at n src k = refl

-- Writing `n` bytes into the block of an offset.
put_bytes-byte_at :
    (ip : Inode) (v : Volume) (off n : ℕ) (src : ℕ → ℕ) (b : ℕ)
    → IsMapped ip v
    → b ≢ 0
    → off < 71680
    → slot ip v (slot_of (off / 512)) ≡ b
    → n ≤ 512 - off % 512
    → (x : ℕ) → x < 71680
    → byte_at ip (put_bytes b (off % 512) n src v) x
      ≡ (if leb off x && ltb x (off + n) then src (x - off) else byte_at ip v x)
unfolding byte_at put_bytes blit
put_bytes-byte_at ip v off n src b m ne lo at small x lx =
    let same = put_bytes-slot ip v b (off % 512) n src (slot_of (x / 512)) in
    elim (Bool-cases (x / 512 == off / 512)) [
      | inl here ↦
          let e : x / 512 ≡ off / 512 = ground arith in
          let sx : slot ip v (slot_of (x / 512)) ≡ b = rw e at in
          let shift : x % 512 - off % 512 ≡ x - off = omega arith in
          rw (same, sx) (ground (arith, shift))
      | inr there ↦
          let apart =
            m.apart (slot_of (x / 512)) (slot_of (off / 512)) (ground arith) (ground arith) in
          let out : (leb off x && ltb x (off + n)) ≡ false = ground arith in
          rw (same, out) (ground (arith, apart, at))
    ]

put_bytes-in_use :
    (v : Volume) (b at n : ℕ) (src : ℕ → ℕ) (c : ℕ) → in_use (put_bytes b at n src v) c ≡ in_use v c
unfolding put_bytes
put_bytes-in_use v b at n src c = in_use_map v _ c refl

put_bytes-IsMapped :
    {ip : Inode} {v : Volume} (b at n : ℕ) (src : ℕ → ℕ)
    → IsMapped ip v
    → IsMapped ip (put_bytes b at n src v)
put_bytes-IsMapped {ip} {v} b at n src m =
    let same = put_bytes-slot ip v b at n src in
    let used = put_bytes-in_use v b at n src in
    record {
      map = put_bytes-map m.map;
      zero_used = used 0 ∙ m.zero_used;
      marked = λ k lk ne. ground (arith, same k, used (slot ip v k), m.marked k);
      apart = λ k k' lk lk' ne e. ground (arith, same k, same k', m.apart k k');
    }
  where
    put_bytes-map : IsMap v → IsMap (put_bytes b at n src v)
    put_bytes-map h = unfold put_bytes in h

-- One round of the loop of `writei`.
pub round-Wrote :
    (ip : Inode) (v : Volume) (ip' : Inode) (v' : Volume) (off n b : ℕ) (src : ℕ → ℕ)
    → IsMapped ip v
    → b ≢ 0
    → off < 71680
    → slot ip' v' (slot_of (off / 512)) ≡ b
    → n ≤ 512 - off % 512
    → Grown ip v ip' v'
    → Wrote off (off + n) src ip v ip' (put_bytes b (off % 512) n src v')
round-Wrote ip v ip' v' off n b src m ne lo at small g =
    let k = slot_of (off / 512) in
    record {
      mapped = put_bytes-IsMapped b (off % 512) n src g.mapped;
      content = λ x lx. ground (
        arith,
        put_bytes-byte_at ip' v' off n src b g.mapped ne lo at small x lx,
        byte_at-Grown m g x lx,
      );
      owned = λ x lx nx. put_bytes-slot ip' v' b (off % 512) n src x ∙ g.slots x lx nx;
      others = λ c a u own. put_bytes-others c a (b_other c u own) ∙ g.bytes c a u;
      used = λ c u. put_bytes-in_use v' b (off % 512) n src c ∙ g.used c u;
      new = λ x lx e nx. ground (arith, put_bytes-slot ip' v' b (off % 512) n src x, g.new x lx);
      meta = g.meta;
      rest = put_bytes-rest;
    }
  where
    k : ℕ
    k = slot_of (off / 512)

    lk : k < 141
    lk = ground arith

    b_other : (c : ℕ) → in_use v c ≡ true → ((k : ℕ) → k < 141 → slot ip v k ≢ c) → c ≢ b
    b_other c u own e = ground (arith, g.slots k lk, g.new k lk, own k lk)

    put_bytes-others :
        (c a : ℕ) → c ≢ b → (put_bytes b (off % 512) n src v').bytes c a ≡ v'.bytes c a
    put_bytes-others c a o = unfold put_bytes in ground arith

    put_bytes-rest : SameRest v (put_bytes b (off % 512) n src v')
    put_bytes-rest =
        unfold put_bytes in
        record { size = g.rest.size; ninodes = g.rest.ninodes; dinode = g.rest.dinode }

pub Wrote_trans :
    (lo mid hi : ℕ) (src src' : ℕ → ℕ)
    → lo ≤ mid
    → mid ≤ hi
    → ((i : ℕ) → src' i ≡ src (mid - lo + i))
    → {ip : Inode} {v : Volume} {ip1 : Inode} {v1 : Volume} {ip2 : Inode} {v2 : Volume}
    → Wrote lo mid src ip v ip1 v1
    → Wrote mid hi src' ip1 v1 ip2 v2
    → Wrote lo hi src ip v ip2 v2
Wrote_trans lo mid hi src src' a b same {ip} {v} {ip1} {v1} {ip2} {v2} w x = record {
  mapped = x.mapped;
  content = λ i li.
      let shift : mid ≤ i → mid - lo + (i - mid) ≡ i - lo = λ le. omega arith in
      ground (arith, w.content i li, x.content i li, same (i - mid), shift);
  owned = λ k lk ne. ground (arith, w.owned k lk, x.owned k lk);
  others = λ c i u own.
      x.others c i (w.used c u) (λ k lk e. ground (arith, w.owned k lk, w.new k lk, own k lk))
      ∙ w.others c i u own;
  used = λ c u. x.used c (w.used c u);
  new = λ k lk e ne. elim (Bool-cases (slot ip1 v1 k == 0)) [
    | inl still ↦
        let later = x.new k lk (ground arith) ne in ground (arith, later, w.used (slot ip2 v2 k))
    | inr filled ↦ ground (arith, x.owned k lk, w.new k lk)
  ];
  meta = ground (arith, w.meta, x.meta);
  rest = record {
    size = x.rest.size ∙ w.rest.size;
    ninodes = x.rest.ninodes ∙ w.rest.ninodes;
    dinode = x.rest.dinode ∙ w.rest.dinode;
  };
}
