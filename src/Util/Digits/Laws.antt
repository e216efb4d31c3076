-- ===== src/Util/Digits/Laws.antt =====
-- Digits that are pulled are the decimal numbers that were written.
use nexus_embedded.Base.{
  ℕ, zero, suc, ◌+◌, ◌*◌, ◌/◌, ◌%◌, ◌≤◌, ◌<◌, ◌≡◌, refl, ap, ◌∙◌, sym, false, List, [], ◌∷◌, ◌++◌,
  arith, length, take, drop, u16, u32, u32_max, ltb, false, sub32, ltb, length-append, take-append,
}
use mathlib.Core.List.{append_assoc}
use nexus_embedded.Util.Digits.{
  Digits, digits_try_pull_uint32, chars_to_uint32, digits_remaining, digits_pull_uint32,
  digits_try_pull_uint32, digits_pull_uint8,
}

-- ASCII digits.
abbrev pub IsDigits : List ℕ → Type 0
IsDigits [] = Unit
IsDigits (c ∷ cs) = (b'0' ≤ c) × (c ≤ b'9') × IsDigits cs

-- 10 ^ k, by its recursion.
abbrev pub ten_to : ℕ → ℕ
ten_to zero = 1
ten_to (suc k) = ten_to k * 10

-- A number written with `count` decimal digits, in ASCII.
abbrev pub written : (count n : ℕ) → List ℕ
written zero n = []
written (suc count) n = written count (n / 10) ++ ((b'0' + n % 10) ∷ [])

pub length-written : (count n : ℕ) → length (written count n) ≡ count
length-written zero n = refl
length-written (suc count) n = omega (
  arith,
  length-append (written count (n / 10)) ((b'0' + n % 10) ∷ []),
  length-written count (n / 10),
)

chars_to_uint32-append :
    (xs ys : List ℕ) (v : ℕ)
    → chars_to_uint32 v (xs ++ ys) ≡ chars_to_uint32 (chars_to_uint32 v xs) ys
unfolding chars_to_uint32
chars_to_uint32-append [] ys v = refl
chars_to_uint32-append (x ∷ xs) ys v = chars_to_uint32-append xs ys (u32 (v * 10 + sub32 x b'0'))

pub chars_to_uint32-written :
    (count n : ℕ) → n < ten_to count → n ≤ u32_max → chars_to_uint32 0 (written count n) ≡ n
unfolding chars_to_uint32
chars_to_uint32-written zero n h k = omega arith
chars_to_uint32-written (suc count) n h k =
    chars_to_uint32-append (written count (n / 10)) ((b'0' + n % 10) ∷ []) 0
    ∙ omega (arith, chars_to_uint32-written count (n / 10) (omega arith) (omega arith))

value-written :
    (count n : ℕ) (rest : List ℕ) (d : Digits)
    → drop d.position d.chars ≡ written count n ++ rest
    → n < ten_to count
    → n ≤ u32_max
    → chars_to_uint32 0 (take count (drop d.position d.chars)) ≡ n
value-written count n rest d e h k =
    let front : take count (drop d.position d.chars) ≡ written count n =
      ap (take count) e ∙ take-append (written count n) rest count (sym (length-written count n)) in
    ap (chars_to_uint32 0) front ∙ chars_to_uint32-written count n h k

-- Where a number was written in decimal at the position of a stream, and fits 32 bits, pulling as
-- many digits gives the number and moves the position past them.
pub pull-written :
    (count n : ℕ) (rest : List ℕ) (d : Digits)
    → drop d.position d.chars ≡ written count n ++ rest
    → n < ten_to count
    → n ≤ u32_max
    → count + d.position ≤ 65535
    → digits_pull_uint32 count d ≡ (n, record d { position = count + d.position })
unfolding digits_pull_uint32
pull-written count n rest d e h k p =
    let moved : u16 (count + d.position) ≡ count + d.position = omega arith in
    rw (value-written count n rest d e h k, moved)

-- So it does with eight bits, if the number fits and as many digits remain.
pub pull_uint8-written :
    (count n : ℕ) (rest : List ℕ) (d : Digits)
    → drop d.position d.chars ≡ written count n ++ rest
    → n < ten_to count
    → n ≤ 255
    → count + d.position ≤ d.length
    → d.length ≤ 65535
    → digits_pull_uint8 count d ≡ (n, record d { position = count + d.position })
unfolding digits_pull_uint8
pull_uint8-written count n rest d e h k p q =
    let enough : ltb (digits_remaining d) count ≡ false = ground arith in
    let small : ltb 255 n ≡ false = ground arith in
    let moved : u16 (count + d.position) ≡ count + d.position = omega arith in
    rw (value-written count n rest d e h (omega arith), moved, enough, small) (ground arith)

pub written-IsDigits :
    (count n : ℕ) (rest : List ℕ) → IsDigits rest → IsDigits (written count n ++ rest)
written-IsDigits zero n rest h = h
written-IsDigits (suc count) n rest h =
    rw (append_assoc (written count (n / 10)) ((b'0' + n % 10) ∷ []) rest)
      (written-IsDigits count (n / 10) ((b'0' + n % 10) ∷ rest) (omega arith, omega arith, h))

-- And so does the attempt, which stays clear of the underrun mark.
pub try_pull-written :
    (count n : ℕ) (rest : List ℕ) (d : Digits)
    → drop d.position d.chars ≡ written count n ++ rest
    → n < ten_to count
    → n ≤ u32_max
    → count + d.position ≤ d.length
    → d.length ≤ 65535
    → digits_try_pull_uint32 count false d ≡ (n, false, record d { position = count + d.position })
unfolding digits_try_pull_uint32
try_pull-written count n rest d e h k p q =
    let enough : ltb (digits_remaining d) count ≡ false = ground arith in
    let moved : u16 (count + d.position) ≡ count + d.position = omega arith in
    rw (value-written count n rest d e h k, moved, enough) refl
