-- ===== src/Client/Grows.antt =====
-- Actions that only add write calls of one kind, however they end.
use kink.Base.{
  ◌≡◌, refl, Option, none, some, List, [], ◌∷◌, ◌++◌, append-nil, append_assoc, All, All-append,
  arith, Result, ok, err, panic, out_of_rounds, Try, success, failed, Action, ◌>>=◌, attempt,
  wrapping, or_panic, or_raise, String,
}
use kink.Client.{Client, Call, World, read, write, generate, range}

module _ {C : Client} (Q : Call → Type 0) where
  -- The world has the calls of the list, and more of the kind.
  abbrev pub Adds : List Call → World C → Type 0
  Adds before w = (new : List Call) × (w.calls ≡ before ++ new) × All Q new

  abbrev pub Grows : {A : Type 0} → Action (World C) A → Type 0
  Grows m = (w : World C) → Adds w.calls (m w).1

  pub Adds-none : (w : World C) → Adds w.calls w
  Adds-none w = ([], ground (arith, append-nil w.calls), tt)

  pub Adds-trans :
      (before : List Call) (v w : World C) → Adds before v → Adds v.calls w → Adds before w
  Adds-trans before v w (a, e, p) (b, f, q) =
      (a ++ b, ground (arith, append_assoc before a b), All-append Q a b p q)

  pub >>=-Grows :
      {A B : Type 0} (m : Action (World C) A) (f : A → Action (World C) B)
      → Grows m
      → ((a : A) → Grows (f a))
      → Grows (m >>= f)
  >>=-Grows {A} m f h k w = go (m w) refl
    where
      go : (r : Result A × World C) → m w ≡ r → Adds w.calls ((m >>= f) w).1
      go (ok a, v) e =
          let (x, first, p) = h w in
          let (y, second, q) = k a v in
          (x ++ y, ground (arith, append_assoc w.calls x y), All-append Q x y p q)
      go (err x, v) e = let (x, first, p) = h w in (x, ground arith, p)
      go (panic, v) e = let (x, first, p) = h w in (x, ground arith, p)
      go (out_of_rounds, v) e = let (x, first, p) = h w in (x, ground arith, p)

  pub attempt-Grows : {A : Type 0} (m : Action (World C) A) → Grows m → Grows (attempt m)
  attempt-Grows m h w = let (x, first, p) = h w in (x, ground arith, p)

  pub wrapping-Grows :
      {A : Type 0} (text : String) (m : Action (World C) A) → Grows m → Grows (wrapping text m)
  wrapping-Grows text m h w = let (x, first, p) = h w in (x, ground arith, p)

  pub read-Grows : {A : Type 0} (f : C.State → Try A × C.State) → Grows (read f)
  read-Grows f w = ([], ground (arith, append-nil w.calls), tt)

  pub write-Grows : (c : Call) → Q c → Grows (write c)
  write-Grows c q w = (c ∷ [], refl, (q, tt))

  pub or_panic-Grows : {A : Type 0} (o : Option A) → Grows (or_panic o)
  or_panic-Grows none w = Adds-none w
  or_panic-Grows (some a) w = Adds-none w

  pub or_raise-Grows : {A : Type 0} (t : Try A) → Grows (or_raise t)
  or_raise-Grows (success a) w = Adds-none w
  or_raise-Grows (failed e) w = Adds-none w

  pub generate-Grows : (base : String) → Grows (generate base)
  generate-Grows base w = Adds-none (record w { server = (C.generate_name base w.server).1 })

  -- Behind these steps, the value is known to be the step's.
  pub or_panic->>=-Grows :
      {A B : Type 0} (o : Option A) (k : A → Action (World C) B)
      → ((a : A) → o ≡ some a → Grows (k a))
      → Grows (or_panic o >>= k)
  or_panic->>=-Grows none k h w = Adds-none w
  or_panic->>=-Grows (some a) k h w = h a refl w

  pub or_raise->>=-Grows :
      {A B : Type 0} (t : Try A) (k : A → Action (World C) B)
      → ((a : A) → t ≡ success a → Grows (k a))
      → Grows (or_raise t >>= k)
  or_raise->>=-Grows (failed e) k h w = Adds-none w
  or_raise->>=-Grows (success a) k h w = h a refl w

  pub range->>=-Grows :
      {A B : Type 0} (l : List A) (k : List A → Action (World C) B)
      → ((s : C.State) → Grows (k (C.range_order A s l)))
      → Grows (range l >>= k)
  range->>=-Grows l k h w = h w.server w

  -- Behind a read, the value is known to be the server's.
  pub read->>=-Grows :
      {A B : Type 0} (f : C.State → Try A × C.State) (k : A → Action (World C) B)
      → ((a : A) (s : C.State) → (f s).0 ≡ success a → Grows (k a))
      → Grows (read f >>= k)
  read->>=-Grows {A} f k h w = go (f w.server) refl
    where
      go : (r : Try A × C.State) → f w.server ≡ r → Adds w.calls ((read f >>= k) w).1
      go (success a, s) e =
          let (x, first, p) = h a w.server (ground arith) (record w { server = s }) in
          (x, ground arith, p)
      go (failed x, s) e = ([], ground (arith, append-nil w.calls), tt)

module _ (Q R : Call → Type 0) (weaken : (c : Call) → Q c → R c) where
  All-weaken : (cs : List Call) → All Q cs → All R cs
  All-weaken [] h = tt
  All-weaken (c ∷ cs) (q, h) = (weaken c q, All-weaken cs h)

  pub Grows-weaken : {C : Client} {A : Type 0} (m : Action (World C) A) → Grows Q m → Grows R m
  Grows-weaken m h w = let (x, e, p) = h w in (x, e, All-weaken x p)
