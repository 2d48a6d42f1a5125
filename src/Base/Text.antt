-- ===== src/Base/Text.antt =====
-- What the program uses of Go's `strings`, `fmt` and `map[string]T`.
use Prim.Native.Nat.{ℕ, zero, suc, ◌%◌, ◌/◌}
use Prim.Native.String.{String, ◌++◌ as ◌<>◌}
use mathlib.Core.List.{List, [], ◌∷◌}
use mathlib.Core.Option.{Option, none, some}
use text.Mathlib.Text.{◌==◌}
use kink.Base.Tests.{ltb, if◌then◌else◌}

-- `strings.Join`.
unfoldable pub join : List String → String → String
join [] sep = ""
join (s ∷ []) sep = s
join (s ∷ t ∷ ts) sep = s <> (sep <> join (t ∷ ts) sep)

digit : ℕ → String
digit zero = "0"
digit (suc zero) = "1"
digit (suc (suc zero)) = "2"
digit (suc (suc (suc zero))) = "3"
digit (suc (suc (suc (suc zero)))) = "4"
digit (suc (suc (suc (suc (suc zero))))) = "5"
digit (suc (suc (suc (suc (suc (suc zero)))))) = "6"
digit (suc (suc (suc (suc (suc (suc (suc zero))))))) = "7"
digit (suc (suc (suc (suc (suc (suc (suc (suc zero)))))))) = "8"
digit _ = "9"

digits_from : ℕ → ℕ → String
digits_from zero n = digit n
digits_from (suc f) n =
    let high = digits_from f (n / 10) in if ltb n 10 then digit n else high <> digit (n % 10)

-- `%d` of a number below 10 ^ 20.
unfoldable pub decimal : ℕ → String
unfolding digits_from digit
decimal n = digits_from 19 n

-- A `map[K]V` as an association list.
abbrev pub Dict {ℓ} : Type ℓ → Type ℓ
Dict V = List (String × V)

module _ {ℓ} {V : Type ℓ} where
  abbrev pub lookup : String → Dict V → Option V
  lookup k [] = none
  lookup k ((j, v) ∷ d) = if k == j then some v else lookup k d

-- `m[k]` of a map of strings reads "" where there is no entry, and also of a nil map.
abbrev pub get_label : String → Option (Dict String) → String
get_label k none = ""
get_label k (some d) = elim (lookup k d) [ none ↦ "" | some v ↦ v ]

-- `m[k] = v`
module _ {ℓ} {V : Type ℓ} where
  abbrev pub insert : String → V → Dict V → Dict V
  insert k v [] = (k, v) ∷ []
  insert k v ((j, w) ∷ d) = if k == j then (k, v) ∷ d else (j, w) ∷ insert k v d
