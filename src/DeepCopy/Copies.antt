-- ===== src/DeepCopy/Copies.antt =====
-- The idioms of the generated code, which copy what a pointer or a slice leads to, and that they make
-- deep copies if the functions for their targets do.
use kink.Base.{
  ℕ, zero, suc, ◌<◌, ◌≤◌, ◌≡◌, refl, ◌∙◌, Option, none, some, List, [], ◌∷◌, ◌++◌, length,
  length-append, get_elem?, append-nil, append_assoc, All, All-append, arith, Action, pure, ◌>>=◌,
  ok, >>=-ok,
}
use mathlib.Core.Path.{subst}
use kink.DeepCopy.Structs.{Address}
use kink.DeepCopy.Memory.{Codec, find, load, alloc}
use kink.DeepCopy.Shapes.{
  Shape, Agree, both-eq-some, plain, of_parts, pair, list, footprints, values-cons, reference,
  pointed-some,
}

module _ {K A : Type 0} (copy : A → Action (List K) A) where
  -- `for i := range in { in[i].DeepCopyInto(&out[i]) }`
  unfoldable pub copy_items : List A → Action (List K) (List A)
  copy_items [] = pure []
  copy_items (x ∷ xs) = do x' ← copy x; xs' ← copy_items xs; pure (x' ∷ xs')

module _ {K A : Type 0} (codec : Codec K A) (copy : A → Action (List K) A) where
  -- `if in != nil { out = new(T); in.DeepCopyInto(out) }`, and the same for a slice with `make`.
  unfoldable pub copy_target : Option Address → Action (List K) (Option Address)
  copy_target none = pure none
  copy_target (some p) = do a ← load codec p; a' ← copy a; q ← alloc codec a'; pure (some q)

module _ {K A : Type 0} (S : Shape K A) where
  -- The function returns, only adds to the memory, and its result has the value of its argument and
  -- owns no address that was in use before.
  abbrev pub IsDeepCopy : (A → Action (List K) A) → Type 0
  IsDeepCopy copy =
      (h : List K) (a : A) (v : S.Value)
      → S.value h a ≡ some v
      → (a' : A) × (new : List K) × (copy a h ≡ (ok a', h ++ new))
        × (S.value (h ++ new) a' ≡ some v)
        × All (λ p. length h ≤ p) (S.footprint (h ++ new) a')

get_elem?-append :
    {K : Type 0} (h new : List K) (p : ℕ) → p < length h → get_elem? (h ++ new) p ≡ get_elem? h p
get_elem?-append [] new p lt = elim lt [ ]
get_elem?-append (c ∷ h) new zero lt = refl
get_elem?-append (c ∷ h) new (suc p) lt = get_elem?-append h new p (omega arith)

get_elem?-append_new :
    {K : Type 0} (h new : List K) (c : K) → get_elem? (h ++ (c ∷ new)) (length h) ≡ some c
get_elem?-append_new [] new c = refl
get_elem?-append_new (x ∷ h) new c = get_elem?-append_new h new c

Agree-append :
    {K : Type 0} (h new : List K) (ps : List Address)
    → All (λ p. p < length h) ps
    → Agree h (h ++ new) ps
Agree-append h new [] b = tt
Agree-append h new (p ∷ ps) (lt, b) = (get_elem?-append h new p lt, Agree-append h new ps b)

All-le : (n m : ℕ) (ps : List Address) → n ≤ m → All (λ p. m ≤ p) ps → All (λ p. n ≤ p) ps
All-le n m [] le h = tt
All-le n m (p ∷ ps) le (x, h) = (omega arith, All-le n m ps le h)

module _ {K A : Type 0} (S : Shape K A) where
  -- An allocation changes no value that stood in memory.
  pub value-append :
      (h new : List K) (a : A) (v : S.Value)
      → S.value h a ≡ some v
      → (S.value (h ++ new) a ≡ some v) × (S.footprint (h ++ new) a ≡ S.footprint h a)
  value-append h new a v e =
      S.framed h (h ++ new) a v (Agree-append h new (S.footprint h a) (S.bounded h a v e)) e

pub plain-IsDeepCopy : {K : Type 0} (A : Type 0) → IsDeepCopy (plain {K = K} A) pure
plain-IsDeepCopy A h a v e = (a, [], ground (arith, append-nil h), e, tt)

module _ {K A : Type 0} (S : Shape K A) (copy : A → Action (List K) A) where
  abbrev IsCopied : List K → A → S.Value → Type 0
  IsCopied h a v =
      (a' : A) × (new : List K) × (copy a h ≡ (ok a', h ++ new))
      × (S.value (h ++ new) a' ≡ some v)
      × All (λ p. length h ≤ p) (S.footprint (h ++ new) a')

  -- The same where the memory has grown twice.
  IsCopied-append :
      (h n m : List K) (a a' : A) (v : S.Value)
      → copy a h ≡ (ok a', (h ++ n) ++ m)
      → S.value ((h ++ n) ++ m) a' ≡ some v
      → All (λ p. length h ≤ p) (S.footprint ((h ++ n) ++ m) a')
      → IsCopied h a v
  IsCopied-append h n m a a' v ran same new =
      let (r, s, t) =
        subst
          (λ k.
            (copy a h ≡ (ok a', k))
            × (S.value k a' ≡ some v)
            × All (λ p. length h ≤ p) (S.footprint k a'))
          (append_assoc h n m) (ran, same, new) in
      (a', n ++ m, r, s, t)

le-append : {K : Type 0} (h n : List K) → length h ≤ length (h ++ n)
le-append h n = omega (arith, length-append h n)

module _ {K A B : Type 0} (S : Shape K A) (T : Shape K B) (copy : A → Action (List K) A)
    (copy' : B → Action (List K) B) where
  -- One after the other.
  abbrev pub copy_pair : A × B → Action (List K) (A × B)
  copy_pair p = copy p.0 >>= λ a. copy' p.1 >>= λ b. pure (a, b)

  pub pair-IsDeepCopy : IsDeepCopy S copy → IsDeepCopy T copy' → IsDeepCopy (pair S T) copy_pair
  pair-IsDeepCopy c d h p v e =
      let (x, y) = both-eq-some (S.value h p.0) (T.value h p.1) e in
      let (a, n, ran, a_value, a_new) = c h p.0 v.0 x in
      let (y1, _) = value-append T h n p.1 v.1 y in
      let (b, m, ran', b_value, b_new) = d (h ++ n) p.1 v.1 y1 in
      let (a_value', a_same) = value-append S (h ++ n) m a v.0 a_value in
      let run : copy_pair p h ≡ (ok (a, b), (h ++ n) ++ m) =
        >>=-ok (copy p.0) (λ a. copy' p.1 >>= λ b. pure (a, b)) h ran
        ∙ >>=-ok (copy' p.1) (λ b. pure (a, b)) (h ++ n) ran' in
      let old : All (λ q. length h ≤ q) (S.footprint ((h ++ n) ++ m) a) = rw a_same a_new in
      let later : All (λ q. length h ≤ q) (T.footprint ((h ++ n) ++ m) b) =
        All-le (length h) (length (h ++ n)) (T.footprint ((h ++ n) ++ m) b) (le-append h n) b_new in
      IsCopied-append (pair S T) copy_pair h n m p (a, b) v run (ground (arith, a_value', b_value))
        (All-append (λ q. length h ≤ q) (S.footprint ((h ++ n) ++ m) a)
          (T.footprint ((h ++ n) ++ m) b) old later)

module _ {K A : Type 0} (S : Shape K A) (copy : A → Action (List K) A) (c : IsDeepCopy S copy) where
  pub copy_items-IsDeepCopy : IsDeepCopy (list S) (copy_items copy)
  unfolding copy_items
  copy_items-IsDeepCopy h [] v e = ([], [], ground (arith, append-nil h), e, tt)
  copy_items-IsDeepCopy h (x ∷ xs) v e =
      let (u, us, f, g, same) = values-cons S h x xs v e in
      let (a, n, ran, a_value, a_new) = c h x u f in
      let (g1, _) = value-append (list S) h n xs us g in
      let (as', m, ran', as_value, as_new) = copy_items-IsDeepCopy (h ++ n) xs us g1 in
      let (a_value', a_same) = value-append S (h ++ n) m a u a_value in
      let run : copy_items copy (x ∷ xs) h ≡ (ok (a ∷ as'), (h ++ n) ++ m) =
        >>=-ok (copy x) (λ x'. copy_items copy xs >>= λ xs'. pure (x' ∷ xs')) h ran
        ∙ >>=-ok (copy_items copy xs) (λ xs'. pure (a ∷ xs')) (h ++ n) ran' in
      let old : All (λ q. length h ≤ q) (S.footprint ((h ++ n) ++ m) a) = rw a_same a_new in
      let later : All (λ q. length h ≤ q) (footprints S ((h ++ n) ++ m) as') =
        All-le (length h) (length (h ++ n)) (footprints S ((h ++ n) ++ m) as') (le-append h n)
          as_new in
      IsCopied-append (list S) (copy_items copy) h n m (x ∷ xs) (a ∷ as') v run
        (ground (arith, a_value', as_value, same))
        (All-append (λ q. length h ≤ q) (S.footprint ((h ++ n) ++ m) a)
          (footprints S ((h ++ n) ++ m) as') old later)

  module _ (codec : Codec K A) where
    find-append : (h : List K) (a : A) → find codec (h ++ (codec.encode a ∷ [])) (length h) ≡ some a
    find-append h a =
        let cell = get_elem?-append_new h [] (codec.encode a) in
        let decoded = codec.decode-encode a in ground (arith, cell, decoded)

    pub copy_target-IsDeepCopy : IsDeepCopy (reference codec S) (copy_target codec copy)
    unfolding copy_target
    copy_target-IsDeepCopy h none v e = (none, [], ground (arith, append-nil h), e, tt)
    copy_target-IsDeepCopy h (some p) v e =
        let (b, u, f, g, same) = pointed-some codec S h p v e in
        let (a, n, ran, a_value, a_new) = c h b u g in
        let cell = codec.encode a ∷ [] in
        let q = length (h ++ n) in
        let (a_value', a_same) = value-append S (h ++ n) cell a u a_value in
        let found : find codec ((h ++ n) ++ cell) q ≡ some a = find-append (h ++ n) a in
        let run : copy_target codec copy (some p) h ≡ (ok (some q), (h ++ n) ++ cell) =
          ground (arith, f, ran) in
        let old : All (λ r. length h ≤ r) (S.footprint ((h ++ n) ++ cell) a) = rw a_same a_new in
        IsCopied-append (reference codec S) (copy_target codec copy) h n cell (some p) (some q) v
          run (ground (arith, found, a_value', same)) (le-append h n, rw found old)

-- A struct: its copy consists of the copies of its parts.
module _ {K A B : Type 0} (parts : A → B) (build : A → B → A)
    (parts-build : (a : A) (b : B) → parts (build a b) ≡ b) (S : Shape K B)
    (copy' : B → Action (List K) B) (copy : A → Action (List K) A)
    (same_copy : (a : A) (h : List K)
      → copy a h ≡ (copy' (parts a) >>= λ b. pure (build a b)) h) where
  pub of_parts-IsDeepCopy : IsDeepCopy S copy' → IsDeepCopy (of_parts parts S) copy
  of_parts-IsDeepCopy c h a v e =
      let (b, n, ran, b_value, b_new) = c h (parts a) v e in
      let back = parts-build a b in
      (
        build a b,
        n,
        same_copy a h ∙ >>=-ok (copy' (parts a)) (λ b. pure (build a b)) h ran,
        rw back b_value,
        rw back b_new,
      )
