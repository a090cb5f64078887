-- ===== src/Allocator/Laws.antt =====
-- What `ValueAllocator` promises: the operations of common/value_allocator.rs against the set of used
-- values that `is_used` shows.
use mqtt_protocol_core.Common.{
  ℕ, ◌≤◌, ◌≡◌, refl, true, false, not, ◌&&◌, List, [], ◌∷◌, none, some, leb, ◌==◌, if◌then◌else◌,
  arith, inl, inr, Option-cases,
}
use mqtt_protocol_core.Allocator.{
  ValueInterval, ValueAllocator, new_range, new, find, any_contains, allocate, deallocate,
  use_value, is_used, clear,
}
use mqtt_protocol_core.Allocator.Pool.{
  Separated, any_contains_below, any_contains_above, add, sub, add-Separated, any_contains-add,
  sub-Separated, any_contains-sub,
}
use mqtt_protocol_core.Allocator.Tree.{find-none, find-some, take_out-sub, allocate_from-sub}
use mqtt_protocol_core.Allocator.GiveBack.{give_back-add}

pub record IsValid (a : ValueAllocator) : Type 0 where
  pub ordered : a.lowest ≤ a.highest
  pub separated : Separated a.lowest a.highest a.pool

-- A new allocator is valid, and exactly the values of its range are free.
pub new-is_used :
    (lowest highest w : ℕ)
    → lowest ≤ highest
    → (a : ValueAllocator) × (new lowest highest ≡ some a)
      × IsValid a
      × (is_used a w ≡ not (leb lowest w && leb w highest))
unfolding new is_used
new-is_used lowest highest w h = (
  record { pool = new_range lowest highest ∷ []; lowest = lowest; highest = highest },
  ground arith,
  record { ordered = h; separated = omega arith },
  ground arith,
)

pub clear-is_used :
    (a : ValueAllocator) (w : ℕ)
    → IsValid a
    → IsValid (clear a) × (is_used (clear a) w ≡ not (leb a.lowest w && leb w a.highest))
unfolding clear is_used
clear-is_used a w v = (record { ordered = v.ordered; separated = omega arith }, ground arith)

abbrev pub over : ℕ → ℕ → List ValueInterval → ValueAllocator
over lo hi pool = record { pool = pool; lowest = lo; highest = hi }

-- What `allocate` does on each pool.
allocate_step :
    (lo hi : ℕ) (x : ValueInterval) (xs : List ValueInterval)
    → Separated lo hi (x ∷ xs)
    → allocate (over lo hi (x ∷ xs)) ≡ some (x.low, over lo hi (sub x.low (x ∷ xs)))
unfolding allocate
allocate_step lo hi x xs s = rw (allocate_from-sub lo hi x xs s)

pub allocate_cases :
    (lo hi v w : ℕ) (pool : List ValueInterval) (a' : ValueAllocator)
    → IsValid (over lo hi pool)
    → allocate (over lo hi pool) ≡ some (v, a')
    → (is_used (over lo hi pool) v ≡ false)
      × (is_used a' w ≡ (if w == v then true else is_used (over lo hi pool) w))
      × IsValid a'
      × (a' ≡ over lo hi (sub v pool))
unfolding is_used any_contains
allocate_cases lo hi v w [] a' iv e = unfold allocate in cc
allocate_cases lo hi v w (x ∷ xs) a' iv e =
    let step = allocate_step lo hi x xs iv.separated in
    let eqs : (v ≡ x.low) × (a' ≡ over lo hi (sub x.low (x ∷ xs))) = ground (arith, step, e) in
    rw (eqs.0, eqs.1)
      (
        ground arith,
        ground (arith, any_contains-sub lo hi x.low w (x ∷ xs) iv.separated),
        record {
          ordered = iv.ordered;
          separated = sub-Separated lo hi x.low (x ∷ xs) iv.separated;
        },
        refl,
      )

-- From a valid allocator `allocate` takes a free value, which is used from then on; nothing else
-- changes, and the allocator stays valid.
pub allocate-is_used :
    (a a' : ValueAllocator) (v w : ℕ)
    → IsValid a
    → allocate a ≡ some (v, a')
    → (is_used a v ≡ false) × (is_used a' w ≡ (if w == v then true else is_used a w)) × IsValid a'
allocate-is_used a a' v w iv e =
    let r = allocate_cases a.lowest a.highest v w a.pool a' iv e in (r.0, r.1, r.2)

allocate_total_over :
    (lo hi w : ℕ) (pool : List ValueInterval)
    → IsValid (over lo hi pool)
    → is_used (over lo hi pool) w ≡ false
    → (v : ℕ) × (a' : ValueAllocator) × (allocate (over lo hi pool) ≡ some (v, a')) × (v ≤ w)
unfolding is_used any_contains
allocate_total_over lo hi w [] iv free = cc
allocate_total_over lo hi w (x ∷ xs) iv free = (
  x.low,
  over lo hi (sub x.low (x ∷ xs)),
  allocate_step lo hi x xs iv.separated,
  ground (arith, any_contains_below x.low hi w (x ∷ xs)),
)

-- While some value is free, `allocate` succeeds, with a value no larger than any free one.
pub allocate-total :
    (a : ValueAllocator) (w : ℕ)
    → IsValid a
    → is_used a w ≡ false
    → (v : ℕ) × (a' : ValueAllocator) × (allocate a ≡ some (v, a')) × (v ≤ w)
allocate-total a w iv free = allocate_total_over a.lowest a.highest w a.pool iv free

use_value-none : (a : ValueAllocator) (v : ℕ) → find v a.pool ≡ none → use_value a v ≡ (false, a)
unfolding use_value
use_value-none a v e = rw (e, use_value)

use_value-some :
    (a : ValueAllocator) (v : ℕ) (x : ValueInterval)
    → IsValid a
    → find v a.pool ≡ some x
    → use_value a v ≡ (true, record a { pool = sub v a.pool })
unfolding use_value
use_value-some a v x iv e =
    rw (e, use_value) (rw (take_out-sub a.lowest a.highest v a.pool x iv.separated e))

-- `use_value` succeeds exactly on a free value, which is used from then on; nothing else changes,
-- and the allocator stays valid.
pub use_value-is_used :
    (a : ValueAllocator) (v w : ℕ)
    → IsValid a
    → ((use_value a v).0 ≡ not (is_used a v))
      × (is_used (use_value a v).1 w ≡ (if w == v then true else is_used a w))
      × IsValid (use_value a v).1
unfolding is_used
use_value-is_used a v w iv = elim (Option-cases (find v a.pool)) [
  | inl e ↦
      rw (use_value-none a v e)
        (ground (arith, find-none v a.pool e), ground (arith, find-none v a.pool e), iv)
  | inr (x, e) ↦ rw (use_value-some a v x iv e) (
    ground (arith, find-some v a.pool x e),
    ground (arith, any_contains-sub a.lowest a.highest v w a.pool iv.separated),
    record {
      ordered = iv.ordered;
      separated = sub-Separated a.lowest a.highest v a.pool iv.separated;
    },
  )
]

pub deallocate-add :
    (a : ValueAllocator) (v : ℕ)
    → IsValid a
    → a.lowest ≤ v
    → v ≤ a.highest
    → is_used a v ≡ true
    → deallocate a v ≡ some (record a { pool = add v a.pool })
unfolding deallocate is_used
deallocate-add a v iv lo hi used =
    ground (arith, give_back-add a.lowest a.highest v a.pool iv.separated (ground arith))

pub add-is_used :
    (a : ValueAllocator) (v w : ℕ)
    → IsValid a
    → a.lowest ≤ v
    → v ≤ a.highest
    → is_used a v ≡ true
    → (is_used (record a { pool = add v a.pool }) w ≡ (if w == v then false else is_used a w))
      × IsValid (record a { pool = add v a.pool })
unfolding is_used
add-is_used a v w iv lo hi used =
    let n : any_contains v a.pool ≡ false = ground arith in
    (
      ground (arith, any_contains-add a.lowest a.highest v w a.pool iv.separated n),
      record {
        ordered = iv.ordered;
        separated = add-Separated a.lowest a.highest v a.pool iv.separated lo hi n;
      },
    )

-- A used value of the range is given back, without a panic: it is free from then on, nothing else
-- changes, and the allocator stays valid.
pub deallocate-is_used :
    (a : ValueAllocator) (v w : ℕ)
    → IsValid a
    → a.lowest ≤ v
    → v ≤ a.highest
    → is_used a v ≡ true
    → (a' : ValueAllocator) × (deallocate a v ≡ some a')
      × (is_used a' w ≡ (if w == v then false else is_used a w))
      × IsValid a'
deallocate-is_used a v w iv lo hi used =
    let (same, valid) = add-is_used a v w iv lo hi used in
    (record a { pool = add v a.pool }, deallocate-add a v iv lo hi used, same, valid)

-- Every free value lies in the range.
pub free-InRange :
    (a : ValueAllocator) (v : ℕ)
    → IsValid a
    → is_used a v ≡ false
    → (a.lowest ≤ v) × (v ≤ a.highest)
unfolding is_used
free-InRange a v iv free = ground (
  arith,
  any_contains_below a.lowest a.highest v a.pool iv.separated,
  any_contains_above a.lowest a.highest v a.pool iv.separated,
)

-- Outside its range `deallocate` panics, although `is_used` holds of every such value.
pub deallocate-outside :
    (a : ValueAllocator) (v : ℕ)
    → IsValid a
    → leb a.lowest v && leb v a.highest ≡ false
    → (is_used a v ≡ true) × (deallocate a v ≡ none)
unfolding deallocate is_used
deallocate-outside a v iv out = (
  ground (
    arith,
    any_contains_below a.lowest a.highest v a.pool iv.separated,
    any_contains_above a.lowest a.highest v a.pool iv.separated,
  ),
  rw out,
)
