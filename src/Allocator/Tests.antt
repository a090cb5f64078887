-- ===== src/Allocator/Tests.antt =====
-- Runs of common/value_allocator.rs at small ranges, and its theorems at concrete inputs.
use mqtt_protocol_core.Common.{
  ℕ, ◌≤◌, ◌≡◌, refl, true, false, [], ◌∷◌, none, some, if◌then◌else◌, ◌==◌, not, leb, ◌&&◌, arith,
}
use mqtt_protocol_core.Allocator.{
  ValueAllocator, new_range, new, insert, remove, first_from, last_before, allocate, deallocate,
  use_value, is_used,
}
use mqtt_protocol_core.Allocator.Laws.{
  IsValid, new-is_used, allocate-is_used, allocate-total, use_value-is_used, deallocate-is_used,
  deallocate-outside,
}
use mqtt_protocol_core.Allocator.Canonical.{deallocate-allocate, deallocate_comm}

-- 1 and 4 are used.
abbrev sample : ValueAllocator
sample = record { pool = new_range 2 3 ∷ new_range 5 9 ∷ []; lowest = 1; highest = 9 }

abbrev sample_after : ValueAllocator
sample_after = record { pool = new_range 3 3 ∷ new_range 5 9 ∷ []; lowest = 1; highest = 9 }

sample-IsValid : IsValid sample
sample-IsValid = record { ordered = omega arith; separated = omega arith }

allocate-sample : allocate sample ≡ some (2, sample_after)
unfolding allocate insert remove
allocate-sample = refl

-- Giving back 4 joins the intervals on both sides.
deallocate-sample :
    deallocate sample 4 ≡ some (record { pool = new_range 2 9 ∷ []; lowest = 1; highest = 9 })
unfolding deallocate insert remove first_from last_before
deallocate-sample = refl

used_sample : (is_used sample 4 ≡ true) × (is_used sample 0 ≡ true) × (is_used sample 5 ≡ false)
unfolding is_used
used_sample = (refl, refl, refl)

new-is_used_example :
    (a : ValueAllocator) × (new 1 9 ≡ some a)
    × IsValid a
    × (is_used a 10 ≡ not (leb 1 10 && leb 10 9))
new-is_used_example = new-is_used 1 9 10 (omega arith)

allocate-is_used_example :
    (is_used sample 2 ≡ false)
    × (is_used sample_after 3 ≡ (if 3 == 2 then true else is_used sample 3))
    × IsValid sample_after
allocate-is_used_example = allocate-is_used sample sample_after 2 3 sample-IsValid allocate-sample

allocate-total_example :
    (v : ℕ) × (a' : ValueAllocator) × (allocate sample ≡ some (v, a')) × (v ≤ 5)
allocate-total_example = allocate-total sample 5 sample-IsValid used_sample.2

use_value-is_used_example :
    ((use_value sample 7).0 ≡ not (is_used sample 7))
    × (is_used (use_value sample 7).1 8 ≡ (if 8 == 7 then true else is_used sample 8))
    × IsValid (use_value sample 7).1
use_value-is_used_example = use_value-is_used sample 7 8 sample-IsValid

deallocate-is_used_example :
    (a' : ValueAllocator) × (deallocate sample 4 ≡ some a')
    × (is_used a' 1 ≡ (if 1 == 4 then false else is_used sample 1))
    × IsValid a'
deallocate-is_used_example =
    deallocate-is_used sample 4 1 sample-IsValid (omega arith) (omega arith) used_sample.0

deallocate-outside_example : (is_used sample 0 ≡ true) × (deallocate sample 0 ≡ none)
deallocate-outside_example = deallocate-outside sample 0 sample-IsValid refl

deallocate-allocate_example : deallocate sample_after 2 ≡ some sample
deallocate-allocate_example =
    deallocate-allocate sample sample_after 2 sample-IsValid allocate-sample

used_one : is_used sample 1 ≡ true
unfolding is_used
used_one = refl

deallocate_comm_example :
    (b : ValueAllocator) × (c : ValueAllocator) × (d : ValueAllocator) × (deallocate sample 4
      ≡ some b)
    × (deallocate b 1 ≡ some d)
    × (deallocate sample 1 ≡ some c)
    × (deallocate c 4 ≡ some d)
deallocate_comm_example =
    deallocate_comm sample 4 1 sample-IsValid (omega arith) (omega arith) (omega arith)
      (omega arith) used_sample.0 used_one (omega arith)
