-- ===== src/Console/Line/Window.antt =====
-- Stretches of the ring buffer of xv6/console.c.
use a4team_os.Base.{
  ℕ, zero, suc, ◌+◌, ◌%◌, ◌<◌, ◌≡◌, refl, sym, ap, ◌∙◌, update, arith, [], ◌∷◌, ◌++◌, length,
}
use mathlib.Core.List.{reverse, reverse-cons, append_assoc, append-nil}
use a4team_os.Console.{input_buf}
use a4team_os.Console.Line.{window, behind}

pub window_mod :
    (buf : ℕ → ℕ) (i j n : ℕ) → i % input_buf ≡ j % input_buf → window buf i n ≡ window buf j n
window_mod buf i j zero e = refl
window_mod buf i j (suc n) e = rw (e, window_mod buf (i + 1) (j + 1) n (omega arith)) refl

pub behind_mod :
    (buf : ℕ → ℕ) (i j n : ℕ) → i % input_buf ≡ j % input_buf → behind buf i n ≡ behind buf j n
behind_mod buf i j zero e = refl
behind_mod buf i j (suc n) e =
    let h : (i + n) % input_buf ≡ (j + n) % input_buf = omega arith in
    rw (h, behind_mod buf i j n e) refl

-- The place of a count that is not among the `n` from `i` on.
abbrev IsOutside : (p i n : ℕ) → Type 0
IsOutside p i n = (j : ℕ) → j < n → ¬ ((i + j) % input_buf ≡ p)

pub window-update :
    (buf : ℕ → ℕ) (i n p c : ℕ) → IsOutside p i n → window (update buf p c) i n ≡ window buf i n
window-update buf i zero p c out = refl
window-update buf i (suc n) p c out =
    let h : update buf p c (i % input_buf) ≡ buf (i % input_buf) =
      let o = out 0 (omega arith) in ground arith in
    let e = window-update buf (i + 1) n p c (λ j lt q. out (j + 1) (omega arith) (omega arith)) in
    rw (h, e) refl

pub behind-update :
    (buf : ℕ → ℕ) (i n p c : ℕ) → IsOutside p i n → behind (update buf p c) i n ≡ behind buf i n
behind-update buf i zero p c out = refl
behind-update buf i (suc n) p c out =
    let h : update buf p c ((i + n) % input_buf) ≡ buf ((i + n) % input_buf) =
      let o = out n (omega arith) in ground arith in
    let e = behind-update buf i n p c (λ j lt q. out j (omega arith) q) in rw (h, e) refl

window_snoc :
    (buf : ℕ → ℕ) (i n : ℕ)
    → window buf i (suc n) ≡ window buf i n ++ (buf ((i + n) % input_buf) ∷ [])
window_snoc buf i zero = let h : i + 0 ≡ i = omega arith in rw h refl
window_snoc buf i (suc n) =
    let h : i + 1 + n ≡ i + suc n = omega arith in
    ap (λ ys. buf (i % input_buf) ∷ ys) (window_snoc buf (i + 1) n ∙ rw h refl)

-- The bytes from `i` on up to those that stand behind the end.
pub window-behind :
    (buf : ℕ → ℕ) (i k n : ℕ)
    → window buf i (k + n) ≡ window buf i k ++ reverse (behind buf (i + k) n)
window-behind buf i k zero =
    let h : k + 0 ≡ k = omega arith in rw h (sym (append-nil (window buf i k)))
window-behind buf i k (suc n) =
    let h : k + suc n ≡ suc (k + n) = omega arith in
    let h' : i + (k + n) ≡ i + k + n = omega arith in
    let x = buf ((i + k + n) % input_buf) in
    ap (window buf i) h
    ∙ window_snoc buf i (k + n)
    ∙ (let e = window-behind buf i k n in rw (h', e) refl)
    ∙ append_assoc (window buf i k) (reverse (behind buf (i + k) n)) (x ∷ [])
    ∙ ap (λ ys. window buf i k ++ ys) (sym (reverse-cons x (behind buf (i + k) n)))

pub length-window : (buf : ℕ → ℕ) (i n : ℕ) → length (window buf i n) ≡ n
length-window buf i zero = refl
length-window buf i (suc n) = omega (arith, length-window buf (i + 1) n)
