-- ===== src/Base/Bytes.antt =====
-- Reads of a list of bytes. A read outside of the list is `none`.
use Prim.Native.Nat.{ℕ, zero, suc, ◌+◌, ◌*◌, ◌^◌, ◌≤◌, ◌<◌}
use mathlib.Core.Path.{◌≡◌, refl}
use mathlib.Core.Bool.{Bool, true, false}
use mathlib.Core.Option.{Option, none, some}
use mathlib.Core.List.{List, [], ◌∷◌}
use native.Mathlib.Omega.{arith}
use falx_v.Base.Lists.{length, take, drop}
use falx_v.Base.Tests.{leb, if◌then◌else◌}

unfoldable pub get_elem? : List ℕ → ℕ → Option ℕ
get_elem? [] i = none
get_elem? (x ∷ xs) zero = some x
get_elem? (x ∷ xs) (suc i) = get_elem? xs i

-- The number of bytes at an offset, the most significant first.
unfoldable pub big_endian : List ℕ → ℕ → ℕ → ℕ → Option ℕ
big_endian raw i zero acc = some acc
big_endian raw i (suc n) acc = elim (get_elem? raw i) [
  | none ↦ none
  | some b ↦ big_endian raw (i + 1) n (acc * 2 ^ 8 + b)
]

-- The bytes from an offset on, as many as are asked for.
unfoldable pub slice : List ℕ → ℕ → ℕ → Option (List ℕ)
slice bytes i n = if leb (i + n) (length bytes) then some (take n (drop i bytes)) else none

-- The result of a read that succeeded.
abbrev pub IsSome {ℓ} : {A : Type ℓ} → Option A → Type ℓ
IsSome {A = A} o = (a : A) × (o ≡ some a)

pub get_elem?-lt : (xs : List ℕ) (i : ℕ) → i < length xs → IsSome (get_elem? xs i)
unfolding get_elem?
get_elem?-lt [] i h = absurd (omega arith)
get_elem?-lt (x ∷ xs) zero h = (x, refl)
get_elem?-lt (x ∷ xs) (suc i) h = get_elem?-lt xs i (omega arith)

pub big_endian-le :
    (raw : List ℕ) (i n acc : ℕ) → i + n ≤ length raw → IsSome (big_endian raw i n acc)
unfolding big_endian
big_endian-le raw i zero acc h = (acc, refl)
big_endian-le raw i (suc n) acc h =
    let (b, e) = get_elem?-lt raw i (omega arith) in
    rw (e, big_endian) (big_endian-le raw (i + 1) n (acc * 2 ^ 8 + b) (omega arith))

pub either-IsSome {ℓ} :
    {A : Type ℓ} (b : Bool) (next : A) (o : Option A)
    → IsSome o
    → IsSome (if b then some next else o)
either-IsSome true next o h = (next, refl)
either-IsSome false next o h = h

pub slice-le :
    (bytes : List ℕ) (i n : ℕ)
    → i + n ≤ length bytes
    → slice bytes i n ≡ some (take n (drop i bytes))
unfolding slice
slice-le bytes i n h = ground arith
