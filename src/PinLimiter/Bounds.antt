-- ===== src/PinLimiter/Bounds.antt =====
-- The pin limiter's map stays a map, stays within its ceiling on keys, and no counter passes the
-- limit.
use antelope_firewall.Prelude.{
  ℕ, ◌+◌, ◌-◌, ◌≤◌, ◌<◌, ◌≡◌, ◌⊎◌, inl, inr, true, false, some, arith, Text, ltb, leb, eqb, length,
  Bool-cases, Option-cases,
}
use antelope_firewall.Prelude.Maps.{
  Map, get, contains_key, IsMap, still, insert, get-insert, insert-IsMap, length-insert,
  contains_key-get, get-retain, retain-IsMap, length-retain-le,
}
use antelope_firewall.PinLimiter.{
  PinLimiter, Slot, new, max_pin_keys, make_room, open_window, count_pin, admits,
}

pub record IsValid (l : PinLimiter) : Type 0 where
  pub distinct : IsMap l.state
  pub bounded : length l.state ≤ max_pin_keys
  pub counted : (k : Text) (s : Slot) → get k l.state ≡ some s → (1 ≤ s.1) × (s.1 ≤ l.limit)

-- One more counter, under a key of any kind.
insert-IsValid :
    (l : PinLimiter) (m : Map Slot) (k : Text) (s : Slot)
    → IsMap m
    → (contains_key k m ≡ false → length m < max_pin_keys)
    → length m ≤ max_pin_keys
    → ((j : Text) (t : Slot) → get j m ≡ some t → (1 ≤ t.1) × (t.1 ≤ l.limit))
    → (1 ≤ s.1) × (s.1 ≤ l.limit)
    → IsValid (record l { state = insert k s m })
insert-IsValid l m k s dm room le old new = record {
  distinct = insert-IsMap k s m dm;
  bounded = ground (arith, length-insert k s m, room);
  counted = λ j t e. ground (arith, get-insert k j s m, old j t);
}

make_room-IsMap : (m : Map Slot) (now window : ℕ) → IsMap m → IsMap (make_room m now window).0
unfolding make_room
make_room-IsMap m now window d = ground (arith, retain-IsMap (λ s. ltb (now - s.0) window) m)

-- What the sweep leaves of a counter.
pub get-make_room :
    (k : Text) (m : Map Slot) (now window : ℕ)
    → IsMap m
    → (get k (make_room m now window).0 ≡ get k m)
      ⊎ (get k (make_room m now window).0 ≡ still (λ s. ltb (now - s.0) window) (get k m))
unfolding make_room
get-make_room k m now window d = ground (arith, get-retain k (λ s. ltb (now - s.0) window) m d)

length-make_room :
    (m : Map Slot) (now window : ℕ)
    → length m ≤ max_pin_keys
    → (length (make_room m now window).0 ≤ max_pin_keys)
      × ((make_room m now window).1 ≡ true → length (make_room m now window).0 < max_pin_keys)
unfolding make_room
length-make_room m now window h = ground (arith, length-retain-le (λ s. ltb (now - s.0) window) m)

open_window-IsValid :
    (l : PinLimiter) (k : Text) (now : ℕ)
    → 1 ≤ l.limit
    → IsValid l
    → IsValid (open_window l k now).0
unfolding open_window
open_window-IsValid l k now pos v = elim (Bool-cases (contains_key k l.state)) [
  | inl here ↦
      rw (here, open_window)
        (insert-IsValid l l.state k (now, 1) v.distinct (λ e. cc (here, e)) v.bounded v.counted
          (omega arith))
  | inr new ↦ elim (Bool-cases (make_room l.state now l.window).1) [
    | inl room ↦
        rw (new, open_window, room)
          (insert-IsValid l (make_room l.state now l.window).0 k (now, 1)
            (make_room-IsMap l.state now l.window v.distinct)
            (λ e. (length-make_room l.state now l.window v.bounded).1 room)
            (length-make_room l.state now l.window v.bounded).0 (counted_after l v now)
            (omega arith))
    | inr full ↦
        rw (new, open_window, full)
          (record {
            distinct = make_room-IsMap l.state now l.window v.distinct;
            bounded = (length-make_room l.state now l.window v.bounded).0;
            counted = counted_after l v now;
          })
  ]
]
  where
    counted_after :
        (l : PinLimiter) (v : IsValid l) (now : ℕ) (j : Text) (t : Slot)
        → get j (make_room l.state now l.window).0 ≡ some t
        → (1 ≤ t.1) × (t.1 ≤ l.limit)
    counted_after l v now j t e =
        ground (arith, get-make_room j l.state now l.window v.distinct, v.counted j t)

count_pin-IsValid :
    (l : PinLimiter) (k : Text) (s : Slot)
    → get k l.state ≡ some s
    → IsValid l
    → IsValid (count_pin l k s).0
unfolding count_pin
count_pin-IsValid l k s e v = elim (Bool-cases (leb l.limit s.1)) [
  | inl over ↦ rw (over, count_pin) v
  | inr below ↦
      rw (below, count_pin)
        (insert-IsValid l l.state k (s.0, s.1 + 1) v.distinct
          (λ n. cc (n, e, contains_key-get k l.state)) v.bounded v.counted (ground arith))
]

-- Whatever the key and the time, a call keeps one slot per key, at most `max_pin_keys` slots, and
-- every counter between 1 and the limit.
pub admits-IsValid : (l : PinLimiter) (k : Text) (now : ℕ) → IsValid l → IsValid (admits l k now).0
unfolding admits
admits-IsValid l k now v = elim (Bool-cases (eqb l.limit 0)) [
  | inl zero_limit ↦ rw zero_limit v
  | inr pos ↦ elim (Option-cases (get k l.state)) [
    | inl absent ↦ rw (pos, absent, admits) (open_window-IsValid l k now (ground arith) v)
    | inr (s, here) ↦ elim (Bool-cases (leb l.window (now - s.0))) [
      | inl over ↦ rw (pos, here, admits, over) (open_window-IsValid l k now (ground arith) v)
      | inr live ↦ rw (pos, here, admits, live) (count_pin-IsValid l k s here v)
    ]
  ]
]

pub new-IsValid : (limit window_seconds : ℕ) → IsValid (new limit window_seconds)
unfolding new get
new-IsValid limit window_seconds = record {
  distinct = tt;
  bounded = omega arith;
  counted = λ k s e. cc;
}
