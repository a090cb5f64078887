-- ===== src/Allocator/Pool.antt =====
-- The pool of common/value_allocator.rs as a sorted list of intervals with gaps: what the calls of
-- BTreeSet in `allocate`, `deallocate` and `use_value` amount to on it.
use mqtt_protocol_core.Common.{
  ℕ, ◌+◌, ◌-◌, ◌≤◌, ◌<◌, ◌≡◌, refl, true, false, List, [], ◌∷◌, ltb, ◌==◌, if◌then◌else◌, arith,
}
use mqtt_protocol_core.Allocator.{ValueInterval, new_single, new_range, contains, any_contains}

-- The intervals are not empty, lie between the bounds, rise, and no two touch.
abbrev pub Separated : ℕ → ℕ → List ValueInterval → Type 0
Separated lo hi [] = Unit {0}
Separated lo hi (x ∷ xs) =
    (lo ≤ x.low) × (x.low ≤ x.high) × (x.high ≤ hi) × Separated (x.high + 2) hi xs

pub Separated-mono :
    (m n hi : ℕ) (xs : List ValueInterval) → m ≤ n → Separated n hi xs → Separated m hi xs
Separated-mono m n hi [] h s = tt
Separated-mono m n hi (x ∷ xs) h s = (omega arith, s.1, s.2, s.3)

-- The pool with one value more at the end of its first interval.
unfoldable pub extend : ValueInterval → ℕ → List ValueInterval → List ValueInterval
extend x v [] = new_range x.low v ∷ []
extend x v (y ∷ ys) =
    if v + 1 == y.low then new_range x.low y.high ∷ ys else new_range x.low v ∷ y ∷ ys

-- The pool with one value more, and with one value less.
unfoldable pub add : ℕ → List ValueInterval → List ValueInterval
add v [] = new_single v ∷ []
add v (x ∷ xs) =
    let rest = add v xs in
    if ltb (v + 1) x.low
    then new_single v ∷ x ∷ xs
    else if v + 1 == x.low
    then new_range v x.high ∷ xs
    else if v == x.high + 1
    then extend x v xs
    else x ∷ rest

unfoldable pub sub : ℕ → List ValueInterval → List ValueInterval
sub v [] = []
sub v (x ∷ xs) =
    let rest = sub v xs in
    let above = if ltb v x.high then new_range (v + 1) x.high ∷ xs else xs in
    if contains x v
    then if ltb x.low v then new_range x.low (v - 1) ∷ above else above
    else x ∷ rest

-- Nothing below the first interval is in the pool.
pub any_contains_below :
    (lo hi w : ℕ) (xs : List ValueInterval)
    → Separated lo hi xs
    → w < lo
    → any_contains w xs ≡ false
unfolding any_contains
any_contains_below lo hi w [] s h = refl
any_contains_below lo hi w (x ∷ xs) s h =
    ground (arith, any_contains_below (x.high + 2) hi w xs s.3)

pub any_contains_above :
    (lo hi w : ℕ) (xs : List ValueInterval)
    → Separated lo hi xs
    → hi < w
    → any_contains w xs ≡ false
unfolding any_contains
any_contains_above lo hi w [] s h = refl
any_contains_above lo hi w (x ∷ xs) s h =
    ground (arith, any_contains_above (x.high + 2) hi w xs s.3)

extend-Separated :
    (lo hi v : ℕ) (x : ValueInterval) (xs : List ValueInterval)
    → Separated lo hi (x ∷ xs)
    → v ≡ x.high + 1
    → v ≤ hi
    → any_contains v xs ≡ false
    → Separated lo hi (extend x v xs)
unfolding extend any_contains
extend-Separated lo hi v x [] s e b n = omega arith
extend-Separated lo hi v x (y ∷ ys) s e b n = ground arith

pub add-Separated :
    (lo hi v : ℕ) (xs : List ValueInterval)
    → Separated lo hi xs
    → lo ≤ v
    → v ≤ hi
    → any_contains v xs ≡ false
    → Separated lo hi (add v xs)
unfolding add any_contains
add-Separated lo hi v [] s a b e = omega arith
add-Separated lo hi v (x ∷ xs) s a b e =
    ground (arith, add-Separated (x.high + 2) hi v xs s.3, extend-Separated lo hi v x xs s)

any_contains-extend :
    (lo hi v w : ℕ) (x : ValueInterval) (xs : List ValueInterval)
    → Separated lo hi (x ∷ xs)
    → v ≡ x.high + 1
    → any_contains w (extend x v xs) ≡ (if w == v then true else any_contains w (x ∷ xs))
unfolding extend any_contains
any_contains-extend lo hi v w x [] s e = ground arith
any_contains-extend lo hi v w x (y ∷ ys) s e = ground arith

pub any_contains-add :
    (lo hi v w : ℕ) (xs : List ValueInterval)
    → Separated lo hi xs
    → any_contains v xs ≡ false
    → any_contains w (add v xs) ≡ (if w == v then true else any_contains w xs)
unfolding add any_contains
any_contains-add lo hi v w [] s e = ground arith
any_contains-add lo hi v w (x ∷ xs) s e =
    ground
      (arith, any_contains-add (x.high + 2) hi v w xs s.3, any_contains-extend lo hi v w x xs s)

pub sub-Separated :
    (lo hi v : ℕ) (xs : List ValueInterval) → Separated lo hi xs → Separated lo hi (sub v xs)
unfolding sub
sub-Separated lo hi v [] s = tt
sub-Separated lo hi v (x ∷ xs) s = ground (
  arith,
  sub-Separated (x.high + 2) hi v xs s.3,
  Separated-mono lo (x.high + 2) hi xs,
  Separated-mono (v - 1 + 2) (x.high + 2) hi xs,
)

pub any_contains-sub :
    (lo hi v w : ℕ) (xs : List ValueInterval)
    → Separated lo hi xs
    → any_contains w (sub v xs) ≡ (if w == v then false else any_contains w xs)
unfolding sub any_contains
any_contains-sub lo hi v w [] s = ground arith
any_contains-sub lo hi v w (x ∷ xs) s = ground (
  arith,
  any_contains-sub (x.high + 2) hi v w xs s.3,
  any_contains_below (x.high + 2) hi w xs s.3,
)
