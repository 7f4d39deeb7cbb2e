-- ===== src/Log/Crash.antt =====
-- A transaction of xv6/log.c is on the disk as a whole or not at all, whenever the machine stops.
use a4team_os.Base.{
  ℕ, ◌+◌, ◌-◌, ◌≤◌, ◌<◌, ◌≡◌, refl, ◌∙◌, ◌≢◌, ◌⊎◌, Bool, true, false, ◌&&◌, ◌||◌, ◌==◌, ltb,
  if◌then◌else◌, arith, List, [], ◌∷◌, none, length, Bool-cases, inl, inr,
}
use a4team_os.Log.{
  Log, Disk, bread, bwrite, write_log, install_trans, write_head, commit, recover_from_log, restart,
}

abbrev pub has : ℕ → List ℕ → Bool
has a [] = false
has a (b ∷ bs) = (a == b) || has a bs

-- No block of the list lies from `lo` on and below `hi`.
abbrev pub Outside : (lo hi : ℕ) → List ℕ → Type 0
Outside lo hi bs = (a : ℕ) → lo ≤ a → a < hi → has a bs ≡ false

module _ {B : Type 0} where
  -- The log holds, on the disk and in clean buffers, what `f` says of each block.
  Logged : (f : ℕ → B) (start tail : ℕ) → List ℕ → Disk B → Type 0
  Logged f start tail [] m = refl {a = start} ≡ refl
  Logged f start tail (b ∷ bs) m =
      (m.dirty (start + tail + 1) ≡ none)
      × (m.block (start + tail + 1) ≡ f b)
      × Logged f start (tail + 1) bs m

  write_log_lem :
      (start tail : ℕ) (bs : List ℕ) (m : Disk B)
      → let m' = write_log start tail bs m in
        (m'.head ≡ m.head)
        × (m'.power ≡ m.power - length bs)
        × ((a : ℕ)
            → (a ≤ start + tail) ⊎ (start + tail + length bs < a)
            → (m'.block a ≡ m.block a) × (m'.dirty a ≡ m.dirty a))
  unfolding write_log bwrite
  write_log_lem start tail [] m = (refl, omega arith, λ a o. (refl, refl))
  write_log_lem start tail (b ∷ bs) m =
      let m1 : Disk B = bwrite m (start + tail + 1) (bread m b) in
      let (h, p, same) = write_log_lem start (tail + 1) bs m1 in
      (h, omega (arith, p), λ a o. ground (arith, same a))

  install_lem :
      (start tail : ℕ) (bs : List ℕ) (m : Disk B)
      → let m' = install_trans start tail bs m in
        (m'.head ≡ m.head)
        × (m'.power ≡ m.power - length bs)
        × ((a : ℕ) → has a bs ≡ false → (m'.block a ≡ m.block a) × (m'.dirty a ≡ m.dirty a))
  unfolding install_trans bwrite
  install_lem start tail [] m = (refl, omega arith, λ a o. (refl, refl))
  install_lem start tail (b ∷ bs) m =
      let m1 : Disk B = bwrite m b (bread m (start + tail + 1)) in
      let (h, p, same) = install_lem start (tail + 1) bs m1 in
      (h, omega (arith, p), λ a o. ground (arith, same a))

  install_off :
      (start tail : ℕ) (bs : List ℕ) (m : Disk B)
      → m.power ≡ 0
      → (install_trans start tail bs m).block ≡ m.block
  unfolding install_trans bwrite
  install_off start tail [] m off = refl
  install_off start tail (b ∷ bs) m off =
      let m1 : Disk B = bwrite m b (bread m (start + tail + 1)) in
      let same : m1.block ≡ m.block = ground arith in
      install_off start (tail + 1) bs m1 (omega arith) ∙ same

  Logged-same :
      (f : ℕ → B) (start tail : ℕ) (bs : List ℕ) (m m' : Disk B)
      → ((a : ℕ)
          → start + tail < a
          → a ≤ start + tail + length bs
          → (m'.block a ≡ m.block a) × (m'.dirty a ≡ m.dirty a))
      → Logged f start tail bs m
      → Logged f start tail bs m'
  unfolding Logged
  Logged-same f start tail [] m m' same h = refl
  Logged-same f start tail (b ∷ bs) m m' same (d, v, rest) =
      let (e, c) = same (start + tail + 1) (omega arith) (omega arith) in
      (
        c ∙ d,
        e ∙ v,
        Logged-same f start (tail + 1) bs m m' (λ a lo hi. same a (omega arith) (omega arith)) rest,
      )

  -- With power for all of its writes, `write_log` logs every block.
  write_log-Logged :
      (f : ℕ → B) (start tail : ℕ) (bs : List ℕ) (m : Disk B)
      → length bs ≤ m.power
      → Outside (start + tail + 1) (start + tail + 1 + length bs) bs
      → ((b : ℕ) → has b bs ≡ true → bread m b ≡ f b)
      → Logged f start tail bs (write_log start tail bs m)
  unfolding Logged write_log bwrite bread
  write_log-Logged f start tail [] m on out src = refl
  write_log-Logged f start tail (b ∷ bs) m on out src =
      let slot = start + tail + 1 in
      let m1 : Disk B = bwrite m slot (bread m b) in
      let (h, p, same) = write_log_lem start (tail + 1) bs m1 in
      let (e, c) = same slot (inl (omega arith)) in
      let here : bread m b ≡ f b = src b (ground arith) in
      let put : m1.block slot ≡ bread m b = ground arith in
      let clean : m1.dirty slot ≡ none = ground arith in
      (
        c ∙ clean,
        e ∙ put ∙ here,
        write_log-Logged f start (tail + 1) bs m1 (omega arith) (λ a lo hi. ground (arith, out a))
            (λ b' i. ground (arith, src b', out slot)),
      )

  -- With power for all of its writes, `install_trans` writes every block home.
  install-Logged :
      (f : ℕ → B) (start tail : ℕ) (bs : List ℕ) (m : Disk B)
      → length bs ≤ m.power
      → Outside (start + tail + 1) (start + tail + 1 + length bs) bs
      → Logged f start tail bs m
      → (a : ℕ) → has a bs ≡ true
      → (install_trans start tail bs m).block a ≡ f a
  unfolding Logged install_trans bwrite bread
  install-Logged f start tail [] m on out h a i = cc
  install-Logged f start tail (b ∷ bs) m on out (d, v, rest) a i =
      let slot = start + tail + 1 in
      let m1 : Disk B = bwrite m b (bread m slot) in
      let kept : Logged f start (tail + 1) bs m1 =
        Logged-same f start (tail + 1) bs m m1 (λ x lo hi. ground (arith, out x)) rest in
      elim (Bool-cases (has a bs)) [
        | inl later ↦
            install-Logged f start (tail + 1) bs m1 (omega arith) (λ x lo hi. ground (arith, out x))
              kept a later
        | inr done ↦
            let (h, p, same) = install_lem start (tail + 1) bs m1 in
            let e : a ≡ b = ground arith in
            let put : m1.block a ≡ f a = ground arith in (same a done).0 ∙ put
      ]

  restart_power : (n : ℕ) (m : Disk B) → (restart n m).power ≡ n
  unfolding restart
  restart_power n m = refl

  installed :
      (f : ℕ → B) (bs : List ℕ) (start : ℕ) (bs' : List ℕ) (start' : ℕ)
      → bs' ≡ bs
      → start' ≡ start
      → (n : ℕ) (m : Disk B) → length bs ≤ n
      → Outside (start + 0 + 1) (start + 0 + 1 + length bs) bs
      → Logged f start 0 bs (restart n m)
      → (a : ℕ) → has a bs ≡ true
      → (install_trans start' 0 bs' (restart n m)).block a ≡ f a
  installed f bs start bs' start' e e' n m on out log a i =
      rw (e, e') (install-Logged f start 0 bs (restart n m) (rw (restart_power n m) on) out log a i)

  -- What a restart with power for `n` writes makes of a disk: the logged blocks are installed.
  restarted :
      (l : Log) (n : ℕ) (m : Disk B)
      → let r = (recover_from_log l (restart n m)).1 in
        (length m.head < n → r.head ≡ [])
        × ((a : ℕ) → has a m.head ≡ false → r.block a ≡ m.block a)
        × ((f : ℕ → B) (bs : List ℕ) (start : ℕ)
            → m.head ≡ bs
            → l.start ≡ start
            → length bs ≤ n
            → Outside (start + 0 + 1) (start + 0 + 1 + length bs) bs
            → Logged f start 0 bs (restart n m)
            → (a : ℕ) → has a bs ≡ true
            → r.block a ≡ f a)
  unfolding recover_from_log restart write_head
  restarted l n m =
      let (h, p, same) = install_lem l.start 0 m.head (restart n m) in
      (
        λ on. ground (arith, p),
        λ a out. (same a out).0,
        λ f bs start e e' on out log a i.
            installed f bs start m.head l.start e e' n m on out log a i,
      )

  Logged-restart :
      (f : ℕ → B) (start tail n : ℕ) (bs : List ℕ) (m m' : Disk B)
      → ((a : ℕ) → m'.block a ≡ m.block a)
      → Logged f start tail bs m
      → Logged f start tail bs (restart n m')
  unfolding Logged restart
  Logged-restart f start tail n [] m m' same h = refl
  Logged-restart f start tail n (b ∷ bs) m m' same (d, v, rest) =
      (refl, same (start + tail + 1) ∙ v, Logged-restart f start (tail + 1) n bs m m' same rest)

  -- The disk as `commit` leaves it for the blocks `bs`.
  done : (start : ℕ) → List ℕ → Disk B → Disk B
  unfolding write_head
  done start bs m =
      write_head [] (install_trans start 0 bs (write_head bs (write_log start 0 bs m)))

  -- Without power for the write of the header, nothing outside the log has changed.
  stop_before :
      (start : ℕ) (bs : List ℕ) (m : Disk B)
      → m.power ≤ length bs
      → ((done start bs m).head ≡ m.head)
        × ((a : ℕ) → (a < start) ⊎ (start + length bs < a) → (done start bs m).block a ≡ m.block a)
  unfolding done write_head
  stop_before start bs m off =
      let m1 : Disk B = write_log start 0 bs m in
      let (h, p, same) = write_log_lem start 0 bs m in
      let m2 : Disk B = write_head bs m1 in
      let (h2, p2, same2) = install_lem start 0 bs m2 in
      let off2 : m2.power ≡ 0 = omega (arith, p) in
      let still = install_off start 0 bs m2 off2 in
      (
        ground (arith, h, h2, p, p2),
        λ a o.
            rw still (same a (elim o [ inl x ↦ inl (omega arith) | inr x ↦ inr (omega arith) ])).0,
      )

  -- With it, the blocks are written home and the header is cleared, or the log still holds them.
  stop_after :
      (start n : ℕ) (bs : List ℕ) (m : Disk B)
      → length bs < m.power
      → Outside start (start + length bs + 1) bs
      → let d = done start bs m in
        (((d.head ≡ []) × ((a : ℕ) → has a bs ≡ true → d.block a ≡ bread m a))
          ⊎ ((d.head ≡ bs) × Logged (bread m) start 0 bs (restart n d)))
        × ((a : ℕ)
            → (a < start) ⊎ (start + length bs < a)
            → has a bs ≡ false
            → d.block a ≡ m.block a)
  unfolding done write_head
  stop_after start n bs m on out =
      let m1 : Disk B = write_log start 0 bs m in
      let (h, p, same) = write_log_lem start 0 bs m in
      let m2 : Disk B = write_head bs m1 in
      let m3 : Disk B = install_trans start 0 bs m2 in
      let (h2, p2, same2) = install_lem start 0 bs m2 in
      let out' : Outside (start + 0 + 1) (start + 0 + 1 + length bs) bs =
        λ a lo hi. out a (omega arith) (omega arith) in
      let log1 : Logged (bread m) start 0 bs m1 =
        write_log-Logged (bread m) start 0 bs m (omega arith) out' (λ b i. refl) in
      let log2 : Logged (bread m) start 0 bs m2 =
        Logged-same (bread m) start 0 bs m1 m2 (λ a lo hi. (refl, refl)) log1 in
      (
        elim (Bool-cases (m3.power == 0)) [
          | inl off ↦ inr (
            ground (arith, h2, p),
            let log3 : Logged (bread m) start 0 bs m3 =
                  Logged-same (bread m) start 0 bs m2 m3
                    (λ a lo hi. same2 a (out a (omega arith) (omega arith))) log2 in
                Logged-restart (bread m) start 0 n bs m3 (write_head [] m3) (λ a. refl) log3,
          )
          | inr power ↦ inl (
            ground arith,
            install-Logged (bread m) start 0 bs m2 (ground (arith, p, p2)) out' log2,
          )
        ],
        λ a o i.
            (same2 a i).0
            ∙ (same a (elim o [ inl x ↦ inl (omega arith) | inr x ↦ inr (omega arith) ])).0,
      )

  commit-done : (l : Log) (m : Disk B) → l.lh ≢ [] → (commit l m).1 ≡ done l.start l.lh m
  unfolding commit done
  commit-done l m ne = elim (list_cases l.lh) [ inl e ↦ absurd (ne e) | inr (b, bs, e) ↦ rw e refl ]
    where
      list_cases : (xs : List ℕ) → (xs ≡ []) ⊎ ((b : ℕ) × (bs : List ℕ) × (xs ≡ b ∷ bs))
      list_cases [] = inl refl
      list_cases (b ∷ bs) = inr (b, bs, refl)

  -- Let the machine stop at any write of `commit`, or after it, and start again. If the header of
  -- the log on the disk was clear, there is a block to commit, no block to commit lies in the log,
  -- and the recovery has power for its writes, then the log is clear again, and either every block
  -- to commit holds what its buffer held, or no block has changed: the first exactly if the power
  -- lasted for the blocks of the log and the header. Blocks outside the log and the transaction
  -- never change.
  pub commit-recover :
      (l l' : Log) (m : Disk B) (n a : ℕ)
      → m.head ≡ []
      → l.lh ≢ []
      → l'.start ≡ l.start
      → Outside l.start (l.start + length l.lh + 1) l.lh
      → length l.lh < n
      → (a < l.start) ⊎ (l.start + length l.lh < a)
      → let r = (recover_from_log l' (restart n (commit l m).1)).1 in
        (r.head ≡ [])
        × (r.block a ≡ (if has a l.lh && ltb (length l.lh) m.power then bread m a else m.block a))
  commit-recover l l' m n a clear ne place out on o =
      let d : Disk B = done l.start l.lh m in
      let (cleared, kept, home_again) = restarted l' n d in
      rw (commit-done l m ne) (elim (Bool-cases (ltb (length l.lh) m.power)) [
        | inr off ↦
            let (h, same) = stop_before l.start l.lh m (ground arith) in
            let h' : d.head ≡ [] = h ∙ clear in
            let value = kept a (rw h' refl) ∙ same a o in
            (cleared (rw h' (omega arith)), ground arith)
        | inl power ↦
            let (state, same) = stop_after l.start n l.lh m (ground arith) out in
            elim state [
              | inl (h', home) ↦
                  let value = kept a (rw h' refl) in
                  (cleared (rw h' (omega arith)), ground (arith, home a, same a o))
              | inr (h', log) ↦
                  let value =
                    home_again (bread m) l.lh l.start h' place (omega arith)
                      (λ x lo hi. out x (omega arith) (omega arith)) log a in
                  (
                    cleared (rw h' on),
                    elim (Bool-cases (has a l.lh)) [
                      | inl i ↦ let e = value i in ground arith
                      | inr i ↦ let e = kept a (rw h' i) ∙ same a o i in ground arith
                    ],
                  )
            ]
      ])
