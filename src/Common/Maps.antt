-- ===== src/Common/Maps.antt =====
-- Maps and sets of the standard library and of `indexmap` as lists in insertion order.
use Prim.Native.Nat.{ℕ}
use mathlib.Core.Path.{◌≡◌, refl}
use mathlib.Core.Logic.{◌↔◌}
use mathlib.Core.Bool.{Bool, true, false, ◌&&◌}
use mathlib.Core.Option.{Option, none, some}
use mathlib.Core.List.{List, [], ◌∷◌}
use native.Mathlib.Omega.{arith}
use mqtt_protocol_core.Common.Tests.{◌==◌, if◌then◌else◌, ==_iff}

-- `Eq` of a key type.
pub record KeyEq {ℓ} (K : Type ℓ) : Type ℓ where
  pub beq : K → K → Bool
  pub beq_iff : (a b : K) → (beq a b ≡ true) ↔ (a ≡ b)

abbrev pub nat_beq : ℕ → ℕ → Bool
nat_beq a b = a == b

instance abbrev pub nat_key : KeyEq ℕ
nat_key = record { beq = nat_beq; beq_iff = ==_iff }

-- Topics are byte strings.
pub bytes_beq : List ℕ → List ℕ → Bool
bytes_beq [] [] = true
bytes_beq [] (y ∷ ys) = false
bytes_beq (x ∷ xs) [] = false
bytes_beq (x ∷ xs) (y ∷ ys) = (x == y) && bytes_beq xs ys

bytes_beq→eq : (xs ys : List ℕ) → bytes_beq xs ys ≡ true → xs ≡ ys
unfolding bytes_beq
bytes_beq→eq [] [] h = refl
bytes_beq→eq [] (y ∷ ys) h = cc
bytes_beq→eq (x ∷ xs) [] h = cc
bytes_beq→eq (x ∷ xs) (y ∷ ys) h = ground (arith, bytes_beq→eq xs ys)

bytes_beq_self : (xs : List ℕ) → bytes_beq xs xs ≡ true
unfolding bytes_beq
bytes_beq_self [] = refl
bytes_beq_self (x ∷ xs) = ground (arith, bytes_beq_self xs)

pub bytes_beq_iff : (xs ys : List ℕ) → (bytes_beq xs ys ≡ true) ↔ (xs ≡ ys)
bytes_beq_iff xs ys = (bytes_beq→eq xs ys, λ e. rw e (bytes_beq_self ys))

instance abbrev pub bytes_key : KeyEq (List ℕ)
bytes_key = record { beq = bytes_beq; beq_iff = bytes_beq_iff }

module _ {ℓ κ} {K : Type ℓ} {V : Type κ} ⦃e : KeyEq K⦄ where
  unfoldable pub lookup : K → List (K × V) → Option V
  lookup k [] = none
  lookup k ((j, v) ∷ m) = if e.beq j k then some v else lookup k m

  -- A key that is there keeps its place.
  unfoldable pub insert : K → V → List (K × V) → List (K × V)
  insert k v [] = (k, v) ∷ []
  insert k v ((j, w) ∷ m) = if e.beq j k then (k, v) ∷ m else (j, w) ∷ insert k v m

  -- `shift_remove`: the others keep their order.
  unfoldable pub remove : K → List (K × V) → List (K × V)
  remove k [] = []
  remove k ((j, w) ∷ m) = if e.beq j k then m else (j, w) ∷ remove k m

  pub lookup-insert :
      (k j : K) (v : V) (m : List (K × V))
      → lookup j (insert k v m) ≡ (if e.beq k j then some v else lookup j m)
  unfolding lookup insert
  lookup-insert k j v [] = refl
  lookup-insert k j v ((i, w) ∷ m) =
      ground (arith, e.beq_iff k j, e.beq_iff i k, e.beq_iff i j, lookup-insert k j v m)

-- Sets of packet identifiers.
unfoldable pub set_contains : ℕ → List ℕ → Bool
set_contains x [] = false
set_contains x (y ∷ ys) = if y == x then true else set_contains x ys

unfoldable pub set_insert : ℕ → List ℕ → List ℕ
set_insert x [] = x ∷ []
set_insert x (y ∷ ys) = if y == x then y ∷ ys else y ∷ set_insert x ys

unfoldable pub set_remove : ℕ → List ℕ → List ℕ
set_remove x [] = []
set_remove x (y ∷ ys) = if y == x then ys else y ∷ set_remove x ys

pub set_contains-insert :
    (x y : ℕ) (s : List ℕ)
    → set_contains y (set_insert x s) ≡ (if x == y then true else set_contains y s)
unfolding set_contains set_insert
set_contains-insert x y [] = ground arith
set_contains-insert x y (z ∷ s) = ground (arith, set_contains-insert x y s)

-- Removing a key leaves the others.
module _ {ℓ κ} {K : Type ℓ} {V : Type κ} ⦃e : KeyEq K⦄ where
  pub lookup-remove :
      (k j : K) (m : List (K × V)) → e.beq k j ≡ false → lookup j (remove k m) ≡ lookup j m
  unfolding lookup remove
  lookup-remove k j [] h = refl
  lookup-remove k j ((i, w) ∷ m) h =
      ground (arith, e.beq_iff k j, e.beq_iff i k, e.beq_iff i j, lookup-remove k j m)
