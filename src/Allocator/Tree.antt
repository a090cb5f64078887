-- ===== src/Allocator/Tree.antt =====
-- The BTreeSet calls of common/value_allocator.rs on a separated pool: `deallocate` adds the value
-- to the pool, `use_value` and `allocate` take it out.
use mqtt_protocol_core.Common.{
  ℕ, ◌+◌, ◌-◌, ◌≤◌, ◌<◌, ◌≡◌, refl, true, false, List, [], ◌∷◌, none, some, arith, ◌⊎◌, inl,
}
use mqtt_protocol_core.Allocator.{
  ValueInterval, new_range, contains, insert, remove, find, any_contains, allocate_from, take_out,
}
use mqtt_protocol_core.Allocator.Pool.{Separated, sub}

-- Below the first interval `insert` puts in front, above it it goes on.
pub insert_front :
    (lo hi : ℕ) (iv : ValueInterval) (xs : List ValueInterval)
    → Separated lo hi xs
    → iv.high < lo
    → insert iv xs ≡ iv ∷ xs
unfolding insert
insert_front lo hi iv [] s h = refl
insert_front lo hi iv (x ∷ xs) s h = ground arith

pub insert_later :
    (iv x : ValueInterval) (xs : List ValueInterval)
    → x.low ≤ x.high
    → iv.low ≤ iv.high
    → x.high < iv.low
    → insert iv (x ∷ xs) ≡ x ∷ insert iv xs
unfolding insert
insert_later iv x xs k l h = ground arith

pub remove_here :
    (x : ValueInterval) (xs : List ValueInterval) → x.low ≤ x.high → remove x (x ∷ xs) ≡ xs
unfolding remove
remove_here x xs h = ground arith

pub remove_later :
    (iv x : ValueInterval) (xs : List ValueInterval)
    → x.low ≤ x.high
    → iv.low ≤ iv.high
    → x.high < iv.low
    → remove iv (x ∷ xs) ≡ x ∷ remove iv xs
unfolding remove
remove_later iv x xs k l h = ground arith

-- What `find` returns holds the value and lies in the pool's range.
pub find_bounds :
    (lo hi v : ℕ) (xs : List ValueInterval) (iv : ValueInterval)
    → Separated lo hi xs
    → find v xs ≡ some iv
    → (lo ≤ iv.low) × (iv.low ≤ v) × (v ≤ iv.high) × (iv.high ≤ hi)
unfolding find
find_bounds lo hi v [] iv s e = ground arith
find_bounds lo hi v (x ∷ xs) iv s e = ground (arith, find_bounds (x.high + 2) hi v xs iv s.3)

pub find-any_contains :
    (v : ℕ) (xs : List ValueInterval) → (find v xs ≡ none) ⊎ ((any_contains v xs) ≡ true)
unfolding find any_contains
find-any_contains v [] = inl refl
find-any_contains v (x ∷ xs) = ground (arith, find-any_contains v xs)

pub find-none : (v : ℕ) (xs : List ValueInterval) → find v xs ≡ none → any_contains v xs ≡ false
unfolding find any_contains
find-none v [] e = refl
find-none v (x ∷ xs) e = ground (arith, find-none v xs)

pub find-some :
    (v : ℕ) (xs : List ValueInterval) (iv : ValueInterval)
    → find v xs ≡ some iv
    → any_contains v xs ≡ true
unfolding find any_contains
find-some v [] iv e = ground arith
find-some v (x ∷ xs) iv e = ground (arith, find-some v xs iv)

-- `take_out` at the first interval and past it.
take_out_here :
    (lo hi v : ℕ) (x : ValueInterval) (xs : List ValueInterval)
    → Separated lo hi (x ∷ xs)
    → contains x v ≡ true
    → take_out x v (x ∷ xs) ≡ sub v (x ∷ xs)
unfolding take_out sub
take_out_here lo hi v x xs s h = ground (
  arith,
  remove_here x xs,
  insert_front (x.high + 2) hi (new_range x.low (v - 1)) xs s.3,
  insert_front (x.high + 2) hi (new_range (v + 1) x.high) xs s.3,
  insert_later (new_range (v + 1) x.high) (new_range x.low (v - 1)) xs,
)

take_out_later :
    (v : ℕ) (iv x : ValueInterval) (xs : List ValueInterval)
    → x.low ≤ x.high
    → x.high < iv.low
    → iv.low ≤ v
    → v ≤ iv.high
    → take_out iv v (x ∷ xs) ≡ x ∷ take_out iv v xs
unfolding take_out
take_out_later v iv x xs k h l m = ground (
  arith,
  remove_later iv x xs,
  insert_later (new_range iv.low (v - 1)) x (remove iv xs),
  insert_later (new_range (v + 1) iv.high) x (remove iv xs),
  insert_later (new_range (v + 1) iv.high) x (insert (new_range iv.low (v - 1)) (remove iv xs)),
)

pub take_out-sub :
    (lo hi v : ℕ) (xs : List ValueInterval) (iv : ValueInterval)
    → Separated lo hi xs
    → find v xs ≡ some iv
    → take_out iv v xs ≡ sub v xs
unfolding find sub
take_out-sub lo hi v [] iv s e = ground arith
take_out-sub lo hi v (x ∷ xs) iv s e = ground (
  arith,
  take_out_here lo hi v x xs s,
  take_out_later v iv x xs,
  find_bounds (x.high + 2) hi v xs iv s.3,
  take_out-sub (x.high + 2) hi v xs iv s.3,
)

-- `allocate` takes out the lowest value.
pub allocate_from-sub :
    (lo hi : ℕ) (x : ValueInterval) (xs : List ValueInterval)
    → Separated lo hi (x ∷ xs)
    → allocate_from x (x ∷ xs) ≡ sub x.low (x ∷ xs)
unfolding allocate_from sub
allocate_from-sub lo hi x xs s =
    ground
      (arith, remove_here x xs, insert_front (x.high + 2) hi (new_range (x.low + 1) x.high) xs s.3)
