-- ===== src/Allocator/GiveBack.antt =====
-- `deallocate` of common/value_allocator.rs on a separated pool: whatever arm of its `match` is taken,
-- it adds the value to the pool.
use mqtt_protocol_core.Common.{
  ℕ, ◌+◌, ◌≤◌, ◌<◌, ◌≡◌, refl, false, List, [], ◌∷◌, Option, none, some, arith,
}
use mqtt_protocol_core.Allocator.{
  ValueInterval, new_single, new_range, insert, remove, first_from, last_before, any_contains,
  give_back,
}
use mqtt_protocol_core.Allocator.Pool.{Separated, extend, add}
use mqtt_protocol_core.Allocator.Tree.{insert_front, insert_later, remove_here, remove_later}

last_before_bounds :
    (lo hi v : ℕ) (xs : List ValueInterval) (l : ValueInterval)
    → Separated lo hi xs
    → last_before (new_single v) xs ≡ some l
    → (lo ≤ l.low) × (l.low ≤ l.high) × (l.high < v)
unfolding last_before
last_before_bounds lo hi v [] l s e = ground arith
last_before_bounds lo hi v (x ∷ xs) l s e =
    ground (arith, last_before_bounds (x.high + 2) hi v xs l s.3)

last_before-none :
    (lo hi v : ℕ) (xs : List ValueInterval)
    → Separated lo hi xs
    → v ≤ lo
    → last_before (new_single v) xs ≡ none
unfolding last_before
last_before-none lo hi v [] s h = refl
last_before-none lo hi v (x ∷ xs) s h = ground arith

first_from_bounds :
    (lo hi v : ℕ) (xs : List ValueInterval) (r : ValueInterval)
    → Separated lo hi xs
    → any_contains v xs ≡ false
    → first_from (new_single v) xs ≡ some r
    → (lo ≤ r.low) × (r.low ≤ r.high) × (v < r.low)
unfolding first_from any_contains
first_from_bounds lo hi v [] r s n e = ground arith
first_from_bounds lo hi v (x ∷ xs) r s n e =
    ground (arith, first_from_bounds (x.high + 2) hi v xs r s.3)

-- An interval that ends before the value, and does not touch it, stays in front.
give_back_later :
    (v : ℕ) (x : ValueInterval) (l r : Option ValueInterval) (xs : List ValueInterval)
    → x.low ≤ x.high
    → x.high + 1 < v
    → ((l' : ValueInterval) → l ≡ some l' → (x.high < l'.low) × (l'.low ≤ l'.high) × (l'.high < v))
    → ((r' : ValueInterval) → r ≡ some r' → (v < r'.low) × (r'.low ≤ r'.high))
    → give_back l r v (x ∷ xs) ≡ x ∷ give_back l r v xs
unfolding give_back
give_back_later v x (some l) (some r) xs k h hl hr = ground (
  arith,
  hl l refl,
  hr r refl,
  remove_later l x xs,
  remove_later r x (remove l xs),
  remove_later r x xs,
  insert_later (new_range l.low r.high) x (remove r (remove l xs)),
  insert_later (new_range l.low v) x (remove l xs),
  insert_later (new_range v r.high) x (remove r xs),
  insert_later (new_single v) x xs,
)
give_back_later v x (some l) none xs k h hl hr = ground (
  arith,
  hl l refl,
  remove_later l x xs,
  insert_later (new_range l.low v) x (remove l xs),
  insert_later (new_single v) x xs,
)
give_back_later v x none (some r) xs k h hl hr = ground (
  arith,
  hr r refl,
  remove_later r x xs,
  insert_later (new_range v r.high) x (remove r xs),
  insert_later (new_single v) x xs,
)
give_back_later v x none none xs k h hl hr =
    insert_later (new_single v) x xs k (omega arith) (omega arith)

-- The interval before the value is as good as none when it does not touch the value.
give_back_far :
    (v : ℕ) (x : ValueInterval) (r : Option ValueInterval) (xs : List ValueInterval)
    → x.high + 1 < v
    → give_back (some x) r v xs ≡ give_back none r v xs
unfolding give_back
give_back_far v x (some r) xs h = ground arith
give_back_far v x none xs h = ground arith

-- The first interval ends right before the value.
give_back_touching :
    (lo hi v : ℕ) (x : ValueInterval) (xs : List ValueInterval)
    → Separated lo hi (x ∷ xs)
    → v ≡ x.high + 1
    → any_contains v xs ≡ false
    → give_back (some x) (first_from (new_single v) xs) v (x ∷ xs) ≡ extend x v xs
unfolding give_back first_from extend any_contains
give_back_touching lo hi v x [] s e n =
    ground (arith, remove_here x [], insert_front (v + 1) hi (new_range x.low v) [])
give_back_touching lo hi v x (y ∷ ys) s e n = ground (
  arith,
  remove_here x (y ∷ ys),
  remove_here y ys,
  insert_front (y.high + 2) hi (new_range x.low y.high) ys s.3.3,
  insert_front (v + 1) hi (new_range x.low v) (y ∷ ys),
)

-- The value lies before the first interval.
give_back_front :
    (lo hi v : ℕ) (x : ValueInterval) (xs : List ValueInterval)
    → Separated lo hi (x ∷ xs)
    → v < x.low
    → give_back none (some x) v (x ∷ xs) ≡ add v (x ∷ xs)
unfolding give_back add
give_back_front lo hi v x xs s h = ground (
  arith,
  remove_here x xs,
  insert_front (x.high + 2) hi (new_range v x.high) xs s.3,
  insert_front (v + 1) hi (new_single v) (x ∷ xs),
)

-- The value lies past the first interval and does not touch it.
give_back_past :
    (lo hi v : ℕ) (x : ValueInterval) (xs : List ValueInterval)
    → Separated lo hi (x ∷ xs)
    → x.high + 1 < v
    → any_contains v xs ≡ false
    → give_back (last_before (new_single v) (x ∷ xs)) (first_from (new_single v) xs) v (x ∷ xs)
      ≡ x ∷ give_back (last_before (new_single v) xs) (first_from (new_single v) xs) v xs
unfolding last_before
give_back_past lo hi v x xs s h n =
    let r = first_from (new_single v) xs in
    let l = last_before (new_single v) xs in
    let later =
      give_back_later v x l r xs s.1 h
        (λ l' e. omega (arith, last_before_bounds (x.high + 2) hi v xs l' s.3 e))
        (λ r' e. omega (arith, first_from_bounds (x.high + 2) hi v xs r' s.3 n e)) in
    ground (arith, later, give_back_far v x r (x ∷ xs) h)

pub give_back-add :
    (lo hi v : ℕ) (xs : List ValueInterval)
    → Separated lo hi xs
    → any_contains v xs ≡ false
    → give_back (last_before (new_single v) xs) (first_from (new_single v) xs) v xs ≡ add v xs
unfolding last_before first_from any_contains add
give_back-add lo hi v [] s n = unfold give_back insert in refl
give_back-add lo hi v (x ∷ xs) s n = ground (
  arith,
  give_back_front lo hi v x xs s,
  give_back_touching lo hi v x xs s,
  last_before-none (x.high + 2) hi v xs s.3,
  give_back_past lo hi v x xs s,
  give_back-add (x.high + 2) hi v xs s.3,
)
