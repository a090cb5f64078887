-- ===== src/Allocator/Canonical.antt =====
-- A valid allocator of common/value_allocator.rs is determined by the values in use.
use mqtt_protocol_core.Common.{
  ℕ, ◌+◌, ◌≤◌, ◌≡◌, ◌≢◌, refl, sym, ap, subst, ◌∙◌, true, false, if◌then◌else◌, ◌==◌, List, [], ◌∷◌,
  some, arith,
}
use mqtt_protocol_core.Allocator.{
  ValueInterval, ValueAllocator, any_contains, allocate, deallocate, is_used,
}
use mqtt_protocol_core.Allocator.Pool.{Separated, any_contains_below, add}
use mqtt_protocol_core.Allocator.Laws.{
  IsValid, allocate_cases, allocate-is_used, deallocate-add, add-is_used, free-InRange,
}

abbrev SameValues : List ValueInterval → List ValueInterval → Type 0
SameValues xs ys = (w : ℕ) → any_contains w xs ≡ any_contains w ys

-- Two separated pools that hold the same values begin with the same interval.
first_same :
    (lo hi : ℕ) (x y : ValueInterval) (xs ys : List ValueInterval)
    → Separated lo hi (x ∷ xs)
    → Separated lo hi (y ∷ ys)
    → SameValues (x ∷ xs) (y ∷ ys)
    → (x.low ≡ y.low) × (x.high ≡ y.high)
unfolding any_contains
first_same lo hi x y xs ys s t same =
    let lows : x.low ≡ y.low = ground (
      arith,
      same x.low,
      same y.low,
      any_contains_below (y.high + 2) hi x.low ys t.3,
      any_contains_below (x.high + 2) hi y.low xs s.3,
    ) in
    (
      lows,
      ground (
        arith,
        lows,
        same (x.high + 1),
        same (y.high + 1),
        any_contains_below (x.high + 2) hi (x.high + 1) xs s.3,
        any_contains_below (y.high + 2) hi (y.high + 1) ys t.3,
      ),
    )

-- A separated pool is determined by the values that it holds.
pool_ext :
    (lo hi : ℕ) (xs ys : List ValueInterval)
    → Separated lo hi xs
    → Separated lo hi ys
    → SameValues xs ys
    → xs ≡ ys
unfolding any_contains
pool_ext lo hi [] [] s t same = refl
pool_ext lo hi [] (y ∷ ys) s t same = ground (arith, same y.low)
pool_ext lo hi (x ∷ xs) [] s t same = ground (arith, same x.low)
pool_ext lo hi (x ∷ xs) (y ∷ ys) s t same =
    let (l, h) = first_same lo hi x y xs ys s t same in
    let rest : xs ≡ ys = pool_ext (x.high + 2) hi xs ys s.3 (rw h t.3) λ w. ground (
      arith,
      l,
      h,
      same w,
      any_contains_below (x.high + 2) hi w xs s.3,
      any_contains_below (y.high + 2) hi w ys t.3,
    ) in
    ground (arith, l, h, rest)

-- Two valid allocators of one range in which the same values are used are equal.
is_used_ext :
    (a b : ValueAllocator)
    → IsValid a
    → IsValid b
    → a.lowest ≡ b.lowest
    → a.highest ≡ b.highest
    → ((w : ℕ) → is_used a w ≡ is_used b w)
    → a ≡ b
unfolding is_used
is_used_ext a b v u l h same =
    let pools : a.pool ≡ b.pool =
      pool_ext a.lowest a.highest a.pool b.pool v.separated
        (subst (λ n. Separated n a.highest b.pool) (sym l)
          (subst (λ n. Separated b.lowest n b.pool) (sym h) u.separated))
        λ w. ground (arith, same w) in
    ground arith

-- Giving back what `allocate` took restores the allocator.
pub deallocate-allocate :
    (a a' : ValueAllocator) (v : ℕ)
    → IsValid a
    → allocate a ≡ some (v, a')
    → deallocate a' v ≡ some a
deallocate-allocate a a' v iv e =
    let (free, after, iv', shape) = allocate_cases a.lowest a.highest v v a.pool a' iv e in
    let range : (a.lowest ≤ v) × (v ≤ a.highest) = free-InRange a v iv free in
    let used : is_used a' v ≡ true = ground (arith, after) in
    let lo : a'.lowest ≡ a.lowest = ground (arith, shape) in
    let hi : a'.highest ≡ a.highest = ground (arith, shape) in
    let back =
      add-is_used a' v v iv' (ground (arith, range, lo)) (ground (arith, range, hi)) used in
    let same : record a' { pool = add v a'.pool } ≡ a =
      is_used_ext (record a' { pool = add v a'.pool }) a back.1 iv lo hi
        λ w. ground (
          arith,
          add-is_used a' v w iv' (ground (arith, range, lo)) (ground (arith, range, hi)) used,
          allocate-is_used a a' v w iv e,
        ) in
    deallocate-add a' v iv' (ground (arith, range, lo)) (ground (arith, range, hi)) used
    ∙ ap some same

-- The allocator after a value of its range is given back.
abbrev freed : ValueAllocator → ℕ → ValueAllocator
freed a v = record a { pool = add v a.pool }

module _ (a : ValueAllocator) (v w : ℕ) (iv : IsValid a) (lo_v : a.lowest ≤ v)
    (v_hi : v ≤ a.highest) (lo_w : a.lowest ≤ w) (w_hi : w ≤ a.highest)
    (used_v : is_used a v ≡ true) (used_w : is_used a w ≡ true) where
  -- The second of two values is still used when the first is given back.
  still_used : v ≢ w → is_used (freed a v) w ≡ true
  still_used apart = ground (arith, (add-is_used a v w iv lo_v v_hi used_v).0)

  freed-IsValid : IsValid (freed a v)
  freed-IsValid = (add-is_used a v v iv lo_v v_hi used_v).1

  freed_twice : v ≢ w → deallocate (freed a v) w ≡ some (freed (freed a v) w)
  freed_twice apart = deallocate-add (freed a v) w freed-IsValid lo_w w_hi (still_used apart)

  freed_twice-is_used :
      (x : ℕ)
      → v ≢ w
      → (is_used (freed (freed a v) w) x
          ≡ (if x == w then false else if x == v then false else is_used a x))
        × IsValid (freed (freed a v) w)
  freed_twice-is_used x apart =
      let (h, valid) = add-is_used (freed a v) w x freed-IsValid lo_w w_hi (still_used apart) in
      (ground (arith, h, (add-is_used a v x iv lo_v v_hi used_v).0), valid)

-- Giving two used values of the range back cannot panic, and leaves the same allocator in either order,
-- however the pool was split into intervals.
pub deallocate_comm :
    (a : ValueAllocator) (v w : ℕ)
    → IsValid a
    → a.lowest ≤ v
    → v ≤ a.highest
    → a.lowest ≤ w
    → w ≤ a.highest
    → is_used a v ≡ true
    → is_used a w ≡ true
    → v ≢ w
    → (b : ValueAllocator) × (c : ValueAllocator) × (d : ValueAllocator) × (deallocate a v ≡ some b)
      × (deallocate b w ≡ some d)
      × (deallocate a w ≡ some c)
      × (deallocate c v ≡ some d)
deallocate_comm a v w iv lo_v v_hi lo_w w_hi used_v used_w apart =
    let other : w ≢ v = λ e. apart (sym e) in
    let same : freed (freed a w) v ≡ freed (freed a v) w =
      is_used_ext (freed (freed a w) v) (freed (freed a v) w)
        (freed_twice-is_used a w v iv lo_w w_hi lo_v v_hi used_w used_v v other).1
        (freed_twice-is_used a v w iv lo_v v_hi lo_w w_hi used_v used_w v apart).1 refl refl
        λ x. ground (
          arith,
          (freed_twice-is_used a w v iv lo_w w_hi lo_v v_hi used_w used_v x other).0,
          (freed_twice-is_used a v w iv lo_v v_hi lo_w w_hi used_v used_w x apart).0,
        ) in
    (
      freed a v,
      freed a w,
      freed (freed a v) w,
      deallocate-add a v iv lo_v v_hi used_v,
      freed_twice a v w iv lo_v v_hi lo_w w_hi used_v used_w apart,
      deallocate-add a w iv lo_w w_hi used_w,
      freed_twice a w v iv lo_w w_hi lo_v v_hi used_w used_v other ∙ ap some same,
    )
