-- ===== src/Vm/Copy/Bytes.antt =====
-- What `copyout` of xv6/vm.c writes.
use a4team_os.Base.{
  ℕ, zero, suc, ◌+◌, ◌-◌, ◌/◌, ◌%◌, ◌^◌, ◌≤◌, ◌<◌, ◌≡◌, refl, true, false, ◌==◌, ltb, if◌then◌else◌,
  update, arith, sym, ◌∙◌, ap, Bool-cases, inl, inr,
}
use a4team_os.Fs.{blit}
use a4team_os.Vm.{pgsize, pdx, ptx, is_present, is_user, pg_down, Vm, table_of}
use a4team_os.Vm.Copy.{fill_page, uva2ka, copyout_loop, copyout}
use a4team_os.Vm.Walk.{pte, walk_present}

-- The page that an address is translated to.
abbrev pub frame : Vm → (pgdir va : ℕ) → ℕ
frame s pgdir va = table_of (pte s pgdir va)

-- Every address of the `len` from `va` on is in a page that user programs may use.
abbrev pub IsUserRange : (pgdir va len : ℕ) → Vm → Type 0
IsUserRange pgdir va len s =
    (x : ℕ)
    → va ≤ x
    → x < va + len
    → (is_present (pte s pgdir x) ≡ true) × (is_user (pte s pgdir x) ≡ true) × (0 < frame s pgdir x)

-- Two pages of the range are not translated to one.
abbrev pub IsInjective : (pgdir va len : ℕ) → Vm → Type 0
IsInjective pgdir va len s =
    (x y : ℕ)
    → va ≤ x
    → x < va + len
    → va ≤ y
    → y < va + len
    → frame s pgdir x ≡ frame s pgdir y
    → x / pgsize ≡ y / pgsize

pte_page : (s : Vm) (pgdir x y : ℕ) → x / pgsize ≡ y / pgsize → pte s pgdir x ≡ pte s pgdir y
pte_page s pgdir x y e =
    let d : pdx x ≡ pdx y = omega arith in let i : ptx x ≡ ptx y = omega arith in rw (d, i) refl

uva2ka_lem :
    (null_word pgdir va : ℕ) (s : Vm)
    → is_present (pte s pgdir va) ≡ true
    → is_user (pte s pgdir va) ≡ true
    → uva2ka null_word pgdir va s ≡ frame s pgdir va
unfolding uva2ka
uva2ka_lem null_word pgdir va s on user = elim (Bool-cases (is_present (s.entry pgdir (pdx va)))) [
  | inl table ↦
      let e : pte s pgdir va ≡ s.entry (table_of (s.entry pgdir (pdx va))) (ptx va) =
        rw table refl in
      let on' : is_present (s.entry (table_of (s.entry pgdir (pdx va))) (ptx va)) ≡ true =
        rw (sym e) on in
      let user' : is_user (s.entry (table_of (s.entry pgdir (pdx va))) (ptx va)) ≡ true =
        rw (sym e) user in
      rw (walk_present pgdir va false s table) rw (on', user', table) refl
  | inr no_table ↦
      let e : pte s pgdir va ≡ 0 = rw no_table refl in
      let on' : is_present 0 ≡ true = sym (ap is_present e) ∙ on in absurd (ground arith)
]

-- What copying `len` bytes of `src` from `at` on to `va` has done.
abbrev pub IsCopied : (pgdir va : ℕ) (src : ℕ → ℕ) (at len : ℕ) → Vm → Vm → Type 0
IsCopied pgdir va src at len s s' =
    (s'.entry ≡ s.entry)
    × (s'.kmem ≡ s.kmem)
    × ((x : ℕ)
        → va ≤ x
        → x < va + len
        → s'.bytes (frame s pgdir x) (x % pgsize) ≡ src (at + (x - va)))
    × ((p a : ℕ)
        → ((x : ℕ) → va ≤ x → x < va + len → ¬ ((frame s pgdir x ≡ p) × (x % pgsize ≡ a)))
        → s'.bytes p a ≡ s.bytes p a)

cell_in :
    (m : ℕ → ℕ → ℕ) (p o n a : ℕ) (src : ℕ → ℕ)
    → o ≤ a
    → a < o + n
    → update m p (blit o n src (m p)) p a ≡ src (a - o)
unfolding blit
cell_in m p o n a src lo hi = ground arith

cell_out :
    (m : ℕ → ℕ → ℕ) (p o n q a : ℕ) (src : ℕ → ℕ)
    → ¬ ((q ≡ p) × (o ≤ a) × (a < o + n))
    → update m p (blit o n src (m p)) q a ≡ m q a
unfolding blit
cell_out m p o n q a src out = ground arith

-- A round of `copyout` that copies `n` bytes, at most what is left of the page.
abbrev filled : (pgdir va n : ℕ) (src : ℕ → ℕ) (at : ℕ) → Vm → Vm
filled pgdir va n src at s =
    fill_page (frame s pgdir (pg_down va)) (va - pg_down va) n (λ a. src (at + a)) s

module _ (pgdir va n : ℕ) (src : ℕ → ℕ) (at : ℕ) (s : Vm) where
  filled_in :
      (x : ℕ)
      → va ≤ x
      → x < va + n
      → n + va % pgsize ≤ pgsize
      → (filled pgdir va n src at s).bytes (frame s pgdir x) (x % pgsize) ≡ src (at + (x - va))
  unfolding fill_page
  filled_in x lo hi room =
      let e : frame s pgdir (pg_down va) ≡ frame s pgdir x =
        ap table_of (pte_page s pgdir (pg_down va) x (omega arith)) in
      let i : at + (x % pgsize - (va - pg_down va)) ≡ at + (x - va) = omega arith in
      rw e (
        cell_in s.bytes (frame s pgdir x) (va - pg_down va) n (x % pgsize) (λ a. src (at + a))
          (omega arith) (omega arith))
      ∙ ap src i

  filled_out :
      (p a : ℕ)
      → n + va % pgsize ≤ pgsize
      → ((x : ℕ) → va ≤ x → x < va + n → ¬ ((frame s pgdir x ≡ p) × (x % pgsize ≡ a)))
      → (filled pgdir va n src at s).bytes p a ≡ s.bytes p a
  unfolding fill_page
  filled_out p a room out =
      cell_out s.bytes (frame s pgdir (pg_down va)) (va - pg_down va) n p a (λ a. src (at + a))
        (λ (e, lo, hi). out (pg_down va + a) (omega arith) (omega arith) (
          ap table_of (pte_page s pgdir (pg_down va + a) (pg_down va) (omega arith)) ∙ sym e,
          omega arith,
        ))

-- A round, then what is left.
IsCopied-next :
    (pgdir va va' n len : ℕ) (src : ℕ → ℕ) (at : ℕ) (s s' : Vm)
    → n ≤ len
    → n + va % pgsize ≤ pgsize
    → (n < len → va' ≡ va + n)
    → IsInjective pgdir va len s
    → IsCopied pgdir va' src (at + n) (len - n) (filled pgdir va n src at s) s'
    → IsCopied pgdir va src at len s s'
unfolding fill_page
IsCopied-next pgdir va va' n len src at s s' le room next inj (ee, ek, into, outside) = (
  ee,
  ek,
  (λ x lo hi. elim (Bool-cases (ltb x (va + n))) [
    | inl now ↦
        let h : x < va + n = ground arith in
        outside (frame s pgdir x) (x % pgsize) (λ y ly hy (q, m).
          let o : va' ≡ va + n = next (omega arith) in
          let same = inj x y lo hi (omega arith) (omega arith) (sym q) in absurd (omega arith))
        ∙ filled_in pgdir va n src at s x lo h room
    | inr later ↦
        let h : va + n ≤ x = ground arith in
        let o : va' ≡ va + n = next (omega arith) in
        let i : at + n + (x - va') ≡ at + (x - va) = omega arith in
        into x (omega arith) (omega arith) ∙ ap src i
  ]),
  λ p a out.
      outside p a
        (λ x lo hi. let o : va' ≡ va + n = next (omega arith) in out x (omega arith) (omega arith))
      ∙ filled_out pgdir va n src at s p a room (λ x lo hi. out x lo (omega arith)),
)

-- The bytes that a round copies of the `len` that are left.
abbrev piece : (va len : ℕ) → ℕ
piece va len = let room = pgsize - (va - pg_down va) in if ltb len room then len else room

copy_round :
    (f null_word pgdir va : ℕ) (src : ℕ → ℕ) (at len : ℕ) (s : Vm)
    → 0 < len
    → IsUserRange pgdir va len s
    → copyout_loop (suc f) null_word pgdir va src at len s
      ≡ copyout_loop f null_word pgdir
          ((pg_down va + pgsize) % 2 ^ 32)
          src
          (at + piece va len)
          (len - piece va len)
          (filled pgdir va (piece va len) src at s)
unfolding copyout_loop
copy_round f null_word pgdir va src at len s some_left user =
    let (on, us, fr) = user va (omega arith) (omega arith) in
    let e = pte_page s pgdir va (pg_down va) (omega arith) in
    let u =
      uva2ka_lem null_word pgdir (pg_down va) s (sym (ap is_present e) ∙ on)
        (sym (ap is_user e) ∙ us) in
    let q : (len == 0) ≡ false = ground arith in
    let fe : frame s pgdir va ≡ frame s pgdir (pg_down va) = ap table_of e in
    let not_null : (frame s pgdir (pg_down va) == 0) ≡ false =
      let lt : 0 < frame s pgdir (pg_down va) = omega arith in ground arith in
    let found : (uva2ka null_word pgdir (pg_down va) s == 0) ≡ false = rw u not_null in
    let n = piece va len in
    rw (q, found, copyout_loop)
      (ap
        (λ p.
          copyout_loop f null_word pgdir ((pg_down va + pgsize) % 2 ^ 32) src (at + n) (len - n)
            (fill_page p (va - pg_down va) n (λ a. src (at + a)) s))
        u)

copyout_loop_lem :
    (f null_word pgdir va : ℕ) (src : ℕ → ℕ) (at len : ℕ) (s : Vm)
    → len ≤ f
    → va + len ≤ 2 ^ 32
    → IsUserRange pgdir va len s
    → IsInjective pgdir va len s
    → (s' : Vm) × (copyout_loop f null_word pgdir va src at len s ≡ (true, s'))
      × IsCopied pgdir va src at len s s'
unfolding copyout_loop fill_page
copyout_loop_lem zero null_word pgdir va src at len s lf fits user inj =
    (s, refl, (refl, refl, (λ x lo hi. absurd (omega arith)), λ p a out. refl))
copyout_loop_lem (suc f) null_word pgdir va src at len s lf fits user inj =
    elim (Bool-cases (len == 0)) [
      | inl none_left ↦ (
        s,
        rw (none_left, copyout_loop) refl,
        (refl, refl, (λ x lo hi. absurd (ground arith)), λ p a out. refl),
      )
      | inr some_left ↦
          let n = piece va len in
          let va' = (pg_down va + pgsize) % 2 ^ 32 in
          let lt : 0 < len = ground arith in
          let le : n ≤ len = ground arith in
          let room : n + va % pgsize ≤ pgsize = ground arith in
          let next : n < len → va' ≡ va + n = λ more. ground arith in
          let some_now : 0 < n = ground arith in
          let fit : va' + (len - n) ≤ 2 ^ 32 = elim (Bool-cases (ltb n len)) [
            | inl more ↦ let o = next (ground arith) in omega arith
            | inr all ↦ let h : len ≤ n = ground arith in omega arith
          ] in
          let (s', e, copied) =
            copyout_loop_lem f null_word pgdir va' src (at + n) (len - n)
              (filled pgdir va n src at s) (omega arith) fit
              (λ x lo hi. let o = next (omega arith) in user x (omega arith) (omega arith))
              (λ x y lx hx ly hy.
                let o = next (omega arith) in
                inj x y (omega arith) (omega arith) (omega arith) (omega arith)) in
          (
            s',
            copy_round f null_word pgdir va src at len s lt user ∙ e,
            IsCopied-next pgdir va va' n len src at s s' le room next inj copied,
          )
    ]

-- `copyout` of `len` bytes to addresses that do not wrap, in pages that user programs may use and
-- no two of which are one physical page, returns 0: every byte of the range, at the place that its
-- address is translated to, is the byte of the source, every other byte of memory is what it was,
-- and the page tables and the free list are too.
pub copyout_lem :
    (null_word pgdir va : ℕ) (src : ℕ → ℕ) (len : ℕ) (s : Vm)
    → va + len ≤ 2 ^ 32
    → IsUserRange pgdir va len s
    → IsInjective pgdir va len s
    → (s' : Vm) × (copyout null_word pgdir va src len s ≡ (true, s'))
      × IsCopied pgdir va src 0 len s s'
unfolding copyout
copyout_lem null_word pgdir va src len s fits user inj =
    copyout_loop_lem len null_word pgdir va src 0 len s (omega arith) fits user inj
