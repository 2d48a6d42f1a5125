-- ===== src/DeepCopy/Memory.antt =====
-- Memory as a list of cells, to which an allocation adds one. A program that reads and allocates is an
-- action on it; an address that leads to nothing of the wanted type is a panic.
use kink.Base.{
  zero, suc, Option, none, some, List, [], ◌∷◌, ◌++◌, length, get_elem?, ◌≡◌, Action, ok, or_panic,
}
use kink.DeepCopy.Structs.{Address}

-- How the values of a type stand in cells.
pub record Codec (K : Type 0) (A : Type 0) : Type 0 where
  pub encode : A → K
  pub decode : K → Option A
  pub decode-encode : (a : A) → decode (encode a) ≡ some a

module _ {K A : Type 0} (codec : Codec K A) where
  abbrev pub find : List K → Address → Option A
  find h p = elim (get_elem? h p) [ none ↦ none | some c ↦ codec.decode c ]

  abbrev pub load : Address → Action (List K) A
  load p h = or_panic (find h p) h

  -- `new` or `make`, with the values that are written behind it.
  abbrev pub alloc : A → Action (List K) Address
  alloc a h = (ok (length h), h ++ (codec.encode a ∷ []))

-- A write to an address, which changes nothing where it is out of range.
abbrev pub store : {K : Type 0} → List K → Address → K → List K
store [] p c = []
store (x ∷ xs) zero c = c ∷ xs
store (x ∷ xs) (suc p) c = x ∷ store xs p c
