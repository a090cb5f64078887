-- ===== src/Allocator.antt =====
-- common/value_allocator.rs: the allocator of packet identifiers and topic aliases.
-- The pool, a BTreeSet of intervals ordered by `cmp`, is the list of its elements in that order.
-- A failed `assert!` is `none`. A value is a natural number. `allocate` and `use_value` add one only
-- below a value of the pool, and `deallocate` adds one to its argument only if the pool holds a value from
-- there on: for a value in use no sum passes the type's maximum. The maximum of the type, given back
-- although it is free, overflows in the code and does not here.
pub mod Pool
mod Tree
mod GiveBack
pub mod Laws
pub mod Canonical
mod Tests
use mqtt_protocol_core.Common.{
  ℕ, ◌+◌, ◌-◌, Bool, true, false, not, ◌&&◌, List, [], ◌∷◌, Option, none, some, ltb, leb, ◌==◌,
  if◌then◌else◌, length,
}
use Prim.Native.Nat.{Ordering}

pub record ValueInterval : Type 0 where
  pub low : ℕ
  pub high : ℕ

-- `ValueInterval::new_single` and `new_range`.
abbrev pub new_single : ℕ → ValueInterval
new_single value = record { low = value; high = value }

abbrev pub new_range : ℕ → ℕ → ValueInterval
new_range low high = record { low = low; high = high }

abbrev pub contains : ValueInterval → ℕ → Bool
contains iv value = leb iv.low value && leb value iv.high

-- Intervals that overlap compare as equal.
abbrev pub cmp : ValueInterval → ValueInterval → Ordering
cmp a b =
    if ltb a.high b.low then Ordering.lt else if ltb b.high a.low then Ordering.gt else Ordering.eq

-- BTreeSet::insert: an element that compares equal is kept, and the new one is dropped.
pub insert : ValueInterval → List ValueInterval → List ValueInterval
insert iv [] = iv ∷ []
insert iv (x ∷ xs) =
    let rest = insert iv xs in
    elim (cmp iv x) [ Ordering.lt ↦ iv ∷ x ∷ xs | Ordering.eq ↦ x ∷ xs | Ordering.gt ↦ x ∷ rest ]

-- BTreeSet::remove takes out the element that compares equal.
pub remove : ValueInterval → List ValueInterval → List ValueInterval
remove iv [] = []
remove iv (x ∷ xs) =
    let rest = remove iv xs in
    elim (cmp iv x) [ Ordering.lt ↦ x ∷ xs | Ordering.eq ↦ xs | Ordering.gt ↦ x ∷ rest ]

-- `range(iv..).next()`: the first element that is not less.
pub first_from : ValueInterval → List ValueInterval → Option ValueInterval
first_from iv [] = none
first_from iv (x ∷ xs) = if ltb x.high iv.low then first_from iv xs else some x

-- `range(..iv).next_back()`: the last element that is less.
pub last_before : ValueInterval → List ValueInterval → Option ValueInterval
last_before iv [] = none
last_before iv (x ∷ xs) =
    let later = last_before iv xs in
    if ltb x.high iv.low then elim later [ none ↦ some x | some y ↦ some y ] else none

-- `iter().find(|iv| iv.contains(value))`.
pub find : ℕ → List ValueInterval → Option ValueInterval
find value [] = none
find value (x ∷ xs) = if contains x value then some x else find value xs

pub record ValueAllocator : Type 0 where
  pub pool : List ValueInterval
  pub lowest : ℕ
  pub highest : ℕ

unfoldable pub new : ℕ → ℕ → Option ValueAllocator
unfolding insert
new lowest highest =
    if leb lowest highest
    then some
        (record { pool = insert (new_range lowest highest) []; lowest = lowest; highest = highest })
    else none

-- What `allocate` leaves of the pool, and the value that it takes.
pub allocate_from : ValueInterval → List ValueInterval → List ValueInterval
allocate_from iv pool =
    let rest = remove iv pool in
    if ltb iv.low iv.high then insert (new_range (iv.low + 1) iv.high) rest else rest

pub allocate : ValueAllocator → Option (ℕ × ValueAllocator)
unfolding allocate_from
allocate a = elim a.pool [
  | [] ↦ none
  | iv ∷ _ ↦ some (iv.low, record a { pool = allocate_from iv a.pool })
]

pub first_vacant : ValueAllocator → Option ℕ
first_vacant a = elim a.pool [ [] ↦ none | iv ∷ _ ↦ some iv.low ]

-- The arms of the `match (left, right)` of `deallocate`.
extends_left : Option ValueInterval → ℕ → Bool
extends_left none value = false
extends_left (some l) value = l.high + 1 == value

extends_right : Option ValueInterval → ℕ → Bool
extends_right none value = false
extends_right (some r) value = value + 1 == r.low

pub give_back :
    Option ValueInterval → Option ValueInterval → ℕ → List ValueInterval → List ValueInterval
unfolding extends_left extends_right
give_back (some l) (some r) value pool =
    if (l.high + 1 == value) && (value + 1 == r.low)
    then insert (new_range l.low r.high) (remove r (remove l pool))
    else if l.high + 1 == value
    then insert (new_range l.low value) (remove l pool)
    else if value + 1 == r.low
    then insert (new_range value r.high) (remove r pool)
    else insert (new_single value) pool
give_back (some l) none value pool =
    if l.high + 1 == value
    then insert (new_range l.low value) (remove l pool)
    else insert (new_single value) pool
give_back none (some r) value pool =
    if value + 1 == r.low
    then insert (new_range value r.high) (remove r pool)
    else insert (new_single value) pool
give_back none none value pool = insert (new_single value) pool

pub deallocate : ValueAllocator → ℕ → Option ValueAllocator
unfolding give_back
deallocate a value =
    if leb a.lowest value && leb value a.highest
    then some (record a {
      pool =
          give_back (last_before (new_single value) a.pool) (first_from (new_single value) a.pool)
            value a.pool;
    })
    else none

-- What `use_value` leaves of the pool that holds the interval.
pub take_out : ValueInterval → ℕ → List ValueInterval → List ValueInterval
take_out iv value pool =
    let rest = remove iv pool in
    let below = if ltb iv.low value then insert (new_range iv.low (value - 1)) rest else rest in
    if ltb value iv.high then insert (new_range (value + 1) iv.high) below else below

pub use_value : ValueAllocator → ℕ → Bool × ValueAllocator
unfolding take_out
use_value a value = elim (find value a.pool) [
  | none ↦ (false, a)
  | some iv ↦ (true, record a { pool = take_out iv value a.pool })
]

unfoldable pub any_contains : ℕ → List ValueInterval → Bool
any_contains value [] = false
any_contains value (x ∷ xs) = if contains x value then true else any_contains value xs

unfoldable pub is_used : ValueAllocator → ℕ → Bool
unfolding any_contains
is_used a value = not (any_contains value a.pool)

pub clear : ValueAllocator → ValueAllocator
unfolding insert
clear a = record a { pool = insert (new_range a.lowest a.highest) [] }

pub interval_count : ValueAllocator → ℕ
interval_count a = length a.pool
