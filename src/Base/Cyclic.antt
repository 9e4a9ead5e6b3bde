-- ===== src/Base/Cyclic.antt =====
-- Positions that are counted round a list.
use xibo_linux.Base.{ℕ, suc, ◌+◌, ◌%◌, ◌≤◌, ◌<◌, ◌≡◌, ap, ◌∙◌, arith}
use native.Mathlib.Nat.{mod-add-mod, mod-eq_of_lt, mod-eq-sub-mod}

pub step_mod : (i k n : ℕ) → ((i + 1) % n + k) % n ≡ (i + suc k) % n
step_mod i k n = mod-add-mod (i + 1) n k ∙ ap (λ (m : ℕ). m % n) (omega arith)

pub wrap_mod : (n i : ℕ) → i < n → n ≤ i + 1 → (i + 1) % n ≡ 0
wrap_mod n i h e = grind (arith, mod-eq-sub-mod {n = i + 1} {m = n})

pub lt_mod : (n i : ℕ) → i < n → i % n ≡ i
lt_mod n i h = mod-eq_of_lt h
