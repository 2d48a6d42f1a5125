-- ===== src/DeepCopy/Separate.antt =====
-- What a deep copy is good for: neither value changes with a write to the memory of the other.
use kink.Base.{
  ℕ, zero, suc, ◌<◌, ◌≤◌, ◌≡◌, ◌≢◌, refl, ap, some, List, [], ◌∷◌, ◌++◌, length, get_elem?, All,
  arith, Option, Action, ok,
}
use kink.DeepCopy.Structs.{Address}
use kink.DeepCopy.Memory.{Codec, store}
use kink.DeepCopy.Shapes.{Shape, Agree, reference}
use kink.DeepCopy.Copies.{IsDeepCopy, value-append, copy_target, copy_target-IsDeepCopy}

module _ {K A : Type 0} (S : Shape K A) (copy : A → Action (List K) A) where
  -- The copy returns, copy and original have the original's value, and each of them keeps it whatever
  -- is written to an address that the other one owns.
  abbrev pub IsSeparate : List K → A → S.Value → Type 0
  IsSeparate h a v =
      (a' : A) × (h' : List K) × (copy a h ≡ (ok a', h'))
      × (S.value h' a' ≡ some v)
      × (S.value h' a ≡ some v)
      × All (λ p. (c : K) → S.value (store h' p c) a ≡ some v) (S.footprint h' a')
      × All (λ p. (c : K) → S.value (store h' p c) a' ≡ some v) (S.footprint h' a)

get_elem?-store :
    {K : Type 0} (h : List K) (p q : ℕ) (c : K) → p ≢ q → get_elem? (store h p c) q ≡ get_elem? h q
get_elem?-store [] p q c ne = refl
get_elem?-store (x ∷ h) zero zero c ne = absurd (ne refl)
get_elem?-store (x ∷ h) zero (suc q) c ne = refl
get_elem?-store (x ∷ h) (suc p) zero c ne = refl
get_elem?-store (x ∷ h) (suc p) (suc q) c ne = get_elem?-store h p q c (λ e. ne (ap suc e))

Agree-store :
    {K : Type 0} (h : List K) (p : Address) (c : K) (qs : List Address)
    → All (λ q. p ≢ q) qs
    → Agree h (store h p c) qs
Agree-store h p c [] ne = tt
Agree-store h p c (q ∷ qs) (ne, nes) = (get_elem?-store h p q c ne, Agree-store h p c qs nes)

All-map :
    (P R : Address → Type 0) (ps : List Address) → ((p : Address) → P p → R p) → All P ps → All R ps
All-map P R [] f h = tt
All-map P R (p ∷ ps) f (x, h) = (f p x, All-map P R ps f h)

All-ne_of_lt : (n p : ℕ) (qs : List Address) → n ≤ p → All (λ q. q < n) qs → All (λ q. p ≢ q) qs
All-ne_of_lt n p [] le h = tt
All-ne_of_lt n p (q ∷ qs) le (lt, h) = ((λ e. omega arith), All-ne_of_lt n p qs le h)

All-ne_of_le : (n p : ℕ) (qs : List Address) → p < n → All (λ q. n ≤ q) qs → All (λ q. p ≢ q) qs
All-ne_of_le n p [] lt h = tt
All-ne_of_le n p (q ∷ qs) lt (le, h) = ((λ e. omega arith), All-ne_of_le n p qs lt h)

module _ {K A : Type 0} (S : Shape K A) where
  value-store :
      (h : List K) (a : A) (v : S.Value) (p : Address) (c : K)
      → S.value h a ≡ some v
      → All (λ q. p ≢ q) (S.footprint h a)
      → S.value (store h p c) a ≡ some v
  value-store h a v p c e ne =
      (S.framed h (store h p c) a v (Agree-store h p c (S.footprint h a) ne) e).0

  pub IsSeparate-of_deep :
      (copy : A → Action (List K) A)
      → IsDeepCopy S copy
      → (h : List K) (a : A) (v : S.Value) → S.value h a ≡ some v
      → IsSeparate S copy h a v
  IsSeparate-of_deep copy deep h a v e =
      let (a', new, ran, copied, fresh) = deep h a v e in
      let h' = h ++ new in
      let (kept, same) = value-append S h new a v e in
      let old : All (λ q. q < length h) (S.footprint h' a) = rw same (S.bounded h a v e) in
      (
        a',
        h',
        ran,
        copied,
        kept,
        All-map (λ p. length h ≤ p) (λ p. (c : K) → S.value (store h' p c) a ≡ some v)
            (S.footprint h' a')
            (λ p le c.
              value-store h' a v p c kept (All-ne_of_lt (length h) p (S.footprint h' a) le old))
            fresh,
        All-map (λ p. p < length h) (λ p. (c : K) → S.value (store h' p c) a' ≡ some v)
            (S.footprint h' a)
            (λ p lt c.
              value-store h' a' v p c copied
                (All-ne_of_le (length h) p (S.footprint h' a') lt fresh))
            old,
      )

module _ {K A : Type 0} (S : Shape K A) (copy : A → Action (List K) A) (deep : IsDeepCopy S copy)
    (codec : Codec K A) where
  -- A pointer, if the copy of what it leads to is deep.
  pub copy_target-IsSeparate :
      (h : List K) (p : Option Address) (v : Option S.Value)
      → (reference codec S).value h p ≡ some v
      → IsSeparate (reference codec S) (copy_target codec copy) h p v
  copy_target-IsSeparate =
      IsSeparate-of_deep (reference codec S) (copy_target codec copy)
        (copy_target-IsDeepCopy S copy deep codec)
