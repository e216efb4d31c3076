-- ===== src/Util/Bitset/Laws.antt =====
-- What the bitset operations do to membership.
use nexus_embedded.Base.{
  ℕ, zero, suc, ◌+◌, ◌-◌, ◌*◌, ◌^◌, ◌≤◌, ◌<◌, ◌≡◌, ◌≢◌, refl, false, ◌&&◌, ◌||◌, not, List, [], ◌∷◌,
  ◌++◌, arith, bit_and, bit_or, length, get_or, drop, replicate, IsBytes, leb, ltb, ◌==◌,
  Bool-cases, ◌⊎◌, inl, inr, get_or-set_self, get_or-set_ne, length-set, get_or-IsBytes,
  set-IsBytes, take, get_or-take, length-append, length-drop, length-replicate, append-IsBytes,
  replicate-IsBytes, drop-IsBytes,
}
use nexus_embedded.Base.Bits.{test_bit-bit_or, test_bit-bit_and, bit_ops_lt, test_bit-zero}
use nexus_embedded.Util.Bitset.{
  Bitset, byte_index, bit_index, bitset_add, bitset_remove, bitset_contains, bitset_clear,
  copy_flags,
}

-- Bytes at most 256 of them, so that an index fits `uint8_t`.
pub record IsBitset (s : Bitset) : Type 0 where
  pub are_bytes : IsBytes s.bytes
  pub short : length s.bytes ≤ 256

same_or_other : (i j : ℕ) → (i ≡ j) ⊎ (i ≢ j)
same_or_other i j = elim (Bool-cases (i == j)) [
  | inl e ↦ inl (ground arith)
  | inr e ↦ inr (λ p. ground arith)
]

-- Adding an element that fits the bytes of a bitset adds it and nothing else.
pub contains-add :
    (s : Bitset) (e c : ℕ)
    → IsBitset s
    → e < length s.bytes * 8
    → c < 2048
    → bitset_contains (bitset_add s e) c ≡ ((e == c) || bitset_contains s c)
unfolding bitset_add bitset_contains
contains-add s e c v he hc = elim (same_or_other (byte_index e) (byte_index c)) [
  | inl same ↦ ground (
    arith,
    get_or-set_self s.bytes (byte_index e)
        (bit_or (get_or s.bytes (byte_index e) 0) (2 ^ bit_index e)) 0,
    test_bit-bit_or (get_or s.bytes (byte_index e) 0) (bit_index e) (bit_index c)
        (get_or-IsBytes s.bytes (byte_index e) v.are_bytes),
  )
  | inr other ↦ ground (
    arith,
    get_or-set_ne s.bytes (byte_index e) (byte_index c)
        (bit_or (get_or s.bytes (byte_index e) 0) (2 ^ bit_index e)) 0 other,
  )
]

-- Removing an element that fits the bytes of a bitset removes it and nothing else.
pub contains-remove :
    (s : Bitset) (e c : ℕ)
    → IsBitset s
    → e < length s.bytes * 8
    → c < 2048
    → bitset_contains (bitset_remove s e) c ≡ (not (e == c) && bitset_contains s c)
unfolding bitset_remove bitset_contains
contains-remove s e c v he hc = elim (same_or_other (byte_index e) (byte_index c)) [
  | inl same ↦ ground (
    arith,
    get_or-set_self s.bytes (byte_index e)
        (bit_and (get_or s.bytes (byte_index e) 0) (255 - 2 ^ bit_index e)) 0,
    test_bit-bit_and (get_or s.bytes (byte_index e) 0) (bit_index e) (bit_index c)
        (get_or-IsBytes s.bytes (byte_index e) v.are_bytes),
  )
  | inr other ↦ ground (
    arith,
    get_or-set_ne s.bytes (byte_index e) (byte_index c)
        (bit_and (get_or s.bytes (byte_index e) 0) (255 - 2 ^ bit_index e)) 0 other,
  )
]

pub length-add : (s : Bitset) (e : ℕ) → length (bitset_add s e).bytes ≡ length s.bytes
unfolding bitset_add
length-add s e = length-set s.bytes (byte_index e) _

pub add-IsBitset : (s : Bitset) (e : ℕ) → e < 2048 → IsBitset s → IsBitset (bitset_add s e)
unfolding bitset_add
add-IsBitset s e h v =
    let b = get_or-IsBytes s.bytes (byte_index e) v.are_bytes in
    let f = (bit_ops_lt (get_or s.bytes (byte_index e) 0) (bit_index e) b (omega arith)).0 in
    record {
      are_bytes = set-IsBytes s.bytes (byte_index e) _ f v.are_bytes;
      short = omega (arith, length-add s e, v.short);
    }

get_or-zeroed : (n i : ℕ) (xs : List ℕ) → i < n → get_or (replicate n 0 ++ xs) i 0 ≡ 0
get_or-zeroed zero i xs h = elim h [ ]
get_or-zeroed (suc n) zero xs h = refl
get_or-zeroed (suc n) (suc i) xs h = get_or-zeroed n i xs (omega arith)

-- A cleared bitset holds nothing among its counted bytes.
pub contains-clear :
    (s : Bitset) (c : ℕ)
    → c < s.bytes_count * 8
    → c < 2048
    → bitset_contains (bitset_clear s) c ≡ false
unfolding bitset_clear bitset_contains
contains-clear s c h hc = ground (
  arith,
  get_or-zeroed s.bytes_count (byte_index c) (drop s.bytes_count s.bytes),
  test_bit-zero (bit_index c),
)

-- After the loop that moves flags down, a flag of the new set is set exactly if it was before or if
-- the flag that many places above it is set in the old set and lies in the range copied.
pub contains-copy_flags :
    (old : Bitset) (by rounds i : ℕ) (new : Bitset) (c : ℕ)
    → IsBitset new
    → by ≤ i
    → i + rounds - by ≤ length new.bytes * 8
    → i + rounds ≤ 2048
    → c < 2048
    → bitset_contains (copy_flags old by rounds i new) c ≡ (
        bitset_contains new c
        || ((leb i (c + by) && ltb (c + by) (i + rounds)) && bitset_contains old (c + by)))
unfolding copy_flags
contains-copy_flags old by zero i new c v h fits small hc = ground arith
contains-copy_flags old by (suc rounds) i new c v h fits small hc =
    let moved = bitset_add new (i - by) in
    elim (Bool-cases (bitset_contains old i)) [
      | inl e ↦ rw e (
          ground (
            arith,
            contains-add new (i - by) c v,
            length-add new (i - by),
            contains-copy_flags old by rounds (i + 1) moved c
                (add-IsBitset new (i - by) (omega arith) v),
            same_or_other i (c + by),
            e,
          ))
      | inr e ↦ rw e (
          ground
            (arith, contains-copy_flags old by rounds (i + 1) new c v, same_or_other i (c + by), e))
    ]

pub copy_flags_shape :
    (old : Bitset) (by rounds i : ℕ) (new : Bitset)
    → IsBitset new
    → i + rounds ≤ 2048
    → IsBitset (copy_flags old by rounds i new)
      × (length (copy_flags old by rounds i new).bytes ≡ length new.bytes)
unfolding copy_flags
copy_flags_shape old by zero i new v h = (v, refl)
copy_flags_shape old by (suc rounds) i new v h = elim (Bool-cases (bitset_contains old i)) [
  | inl e ↦ rw e (
      ground (
        arith,
        length-add new (i - by),
        copy_flags_shape old by rounds (i + 1) (bitset_add new (i - by))
            (add-IsBitset new (i - by) (omega arith) v),
      ))
  | inr e ↦ ground (arith, e, copy_flags_shape old by rounds (i + 1) new v)
]

get_or-front : (xs ys : List ℕ) (i : ℕ) → i < length xs → get_or (xs ++ ys) i 0 ≡ get_or xs i 0
get_or-front [] ys i h = elim h [ ]
get_or-front (x ∷ xs) ys zero h = refl
get_or-front (x ∷ xs) ys (suc i) h = get_or-front xs ys i (omega arith)

-- Bytes behind the ones that hold an element do not matter, nor does the count.
pub contains-front :
    (xs ys : List ℕ) (n m c : ℕ)
    → c < length xs * 8
    → c < 2048
    → bitset_contains (record { bytes = xs ++ ys; bytes_count = n }) c
      ≡ bitset_contains (record { bytes = xs; bytes_count = m }) c
unfolding bitset_contains
contains-front xs ys n m c h hc = rw (get_or-front xs ys (byte_index c) (omega arith))

pub contains-zeros :
    (n m c : ℕ)
    → c < 2048
    → bitset_contains (record { bytes = replicate n 0; bytes_count = m }) c ≡ false
unfolding bitset_contains
contains-zeros n m c hc =
    rw (get_or-zeros n (byte_index c)) (test_bit-zero (bit_index c) (omega arith))
  where
    get_or-zeros : (n i : ℕ) → get_or (replicate {A = ℕ} n 0) i 0 ≡ 0
    get_or-zeros zero i = refl
    get_or-zeros (suc n) zero = refl
    get_or-zeros (suc n) (suc i) = get_or-zeros n i

pub contains-count :
    (xs : List ℕ) (n m c : ℕ)
    → bitset_contains (record { bytes = xs; bytes_count = n }) c
      ≡ bitset_contains (record { bytes = xs; bytes_count = m }) c
unfolding bitset_contains
contains-count xs n m c = refl

-- Nor do bytes that are cut off behind the ones that hold an element.
pub contains-take :
    (xs : List ℕ) (k n m c : ℕ)
    → c < k * 8
    → c < 2048
    → bitset_contains (record { bytes = take k xs; bytes_count = n }) c
      ≡ bitset_contains (record { bytes = xs; bytes_count = m }) c
unfolding bitset_contains
contains-take xs k n m c h hc = rw (get_or-take k xs (byte_index c) 0 (omega arith))

pub length-clear :
    (s : Bitset) → s.bytes_count ≤ length s.bytes → length (bitset_clear s).bytes ≡ length s.bytes
unfolding bitset_clear
length-clear s h = omega (
  arith,
  length-append (replicate s.bytes_count 0) (drop s.bytes_count s.bytes),
  length-drop s.bytes_count s.bytes,
  length-replicate {A = ℕ} s.bytes_count 0,
)

pub clear-IsBytes : (s : Bitset) → IsBytes s.bytes → IsBytes (bitset_clear s).bytes
unfolding bitset_clear
clear-IsBytes s v =
    append-IsBytes (replicate s.bytes_count 0) (drop s.bytes_count s.bytes)
      (replicate-IsBytes s.bytes_count 0 (omega arith)) (drop-IsBytes s.bytes_count s.bytes v)
