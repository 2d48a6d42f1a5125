-- ===== src/Base/Every.antt =====
-- Boolean tests that all items of a list pass, in whatever order they stand.
use mathlib.Core.Logic.Or
use mathlib.Core.Path.{◌≡◌, refl}
use mathlib.Core.Bool.{Bool, true, ◌&&◌, Bool-set}
use mathlib.Core.List.Perm
use mathlib.Core.List.{
  List, [], ◌∷◌, ◌++◌, Mem, not-mem-nil, mem-cons, mem-cons_self, mem-cons_of_mem, Perm,
}
use native.Mathlib.Omega.{arith}

module _ {ℓ} {A : Type ℓ} (p : A → Bool) where
  abbrev pub every : List A → Bool
  every [] = true
  every (x ∷ xs) = p x && every xs

  pub every-mem : (xs : List A) → every xs ≡ true → (x : A) → Mem x xs → p x ≡ true
  every-mem [] h x k = absurd (not-mem-nil k)
  every-mem (y ∷ ys) h x k =
      Or.elim (Bool-set _ _) (mem-cons.0 k) (λ same. rw same (ground arith))
        (λ later. every-mem ys (ground arith) x later)

  pub mem-every : (xs : List A) → ((x : A) → Mem x xs → p x ≡ true) → every xs ≡ true
  mem-every [] h = refl
  mem-every (x ∷ xs) h = rw (h x mem-cons_self) (mem-every xs (λ y k. h y (mem-cons_of_mem x k)))

  pub every-Perm : (xs ys : List A) → Perm ys xs → every xs ≡ true → every ys ≡ true
  every-Perm xs ys same h = mem-every ys (λ x k. every-mem xs h x ((Perm.mem_iff same).0 k))

  pub every-append : (xs ys : List A) → every xs ≡ true → every ys ≡ true → every (xs ++ ys) ≡ true
  every-append [] ys h k = k
  every-append (x ∷ xs) ys h k = ground (arith, every-append xs ys)
