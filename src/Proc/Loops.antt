-- ===== src/Proc/Loops.antt =====
-- The loops over the process table.
use a4team_os.Base.{
  ℕ, zero, suc, ◌+◌, ◌≤◌, ◌<◌, ◌≡◌, Bool, true, false, arith, none, some, Bool-cases, inl, inr,
}
use a4team_os.Proc.{find_from, for_each}

-- `r` is the first of the `n` indices from `i` on that passes the test.
pub record FirstFrom (n i : ℕ) (test : ℕ → Bool) (r : ℕ) : Type 0 where
  pub from : i ≤ r
  pub to : r < i + n
  pub hit : test r ≡ true
  pub earlier : (j : ℕ) → i ≤ j → j < r → test j ≡ false

pub find_from-some :
    (n i : ℕ) (test : ℕ → Bool) {r : ℕ} → find_from n i test ≡ some r → FirstFrom n i test r
unfolding find_from
find_from-some zero i test h = cc
find_from-some (suc n) i test {r} h = elim (Bool-cases (test i)) [
  | inl hit ↦
      let e : r ≡ i = ground arith in
      record {
        from = omega arith;
        to = omega arith;
        hit = rw e hit;
        earlier = λ j a b. absurd (omega arith);
      }
  | inr miss ↦
      let later : FirstFrom n (i + 1) test r = find_from-some n (i + 1) test (ground arith) in
      record {
        from = omega (arith, later.from);
        to = omega (arith, later.to);
        hit = later.hit;
        earlier = λ j a b. ground (arith, later.earlier j);
      }
]

pub find_from-none :
    (n i : ℕ) (test : ℕ → Bool)
    → find_from n i test ≡ none
    → (j : ℕ) → i ≤ j
    → j < i + n
    → test j ≡ false
unfolding find_from
find_from-none zero i test h j a b = absurd (omega arith)
find_from-none (suc n) i test h j a b =
    let rest : find_from n (i + 1) test ≡ none = ground arith in
    let here : test i ≡ false = ground arith in ground (arith, find_from-none n (i + 1) test rest j)

-- The invariant rule of the loop that runs to its end.
pub for_each_inv {ℓ κ} :
    {S : Type ℓ} (P : S → Type κ) (body : ℕ → S → S) (bound : ℕ)
    → ((i : ℕ) (s : S) → i < bound → P s → P (body i s))
    → (n i : ℕ) (s : S) → i + n ≤ bound
    → P s
    → P (for_each n i body s)
unfolding for_each
for_each_inv P body bound keep zero i s e h = h
for_each_inv P body bound keep (suc n) i s e h =
    for_each_inv P body bound keep n (i + 1) (body i s) (omega arith) (keep i s (omega arith) h)

-- The same with an invariant that speaks of the index.
pub for_each_at {ℓ κ} :
    {S : Type ℓ} (P : ℕ → S → Type κ) (body : ℕ → S → S) (bound : ℕ)
    → ((i : ℕ) (s : S) → i < bound → P i s → P (i + 1) (body i s))
    → (n i : ℕ) (s : S) → i + n ≡ bound
    → P i s
    → P bound (for_each n i body s)
unfolding for_each
for_each_at P body bound keep zero i s e h = let same : i ≡ bound = omega arith in rw same at h
for_each_at P body bound keep (suc n) i s e h =
    for_each_at P body bound keep n (i + 1) (body i s) (omega arith) (keep i s (omega arith) h)
