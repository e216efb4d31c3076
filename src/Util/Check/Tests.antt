-- ===== src/Util/Check/Tests.antt =====
-- The published test vectors of SipHash-2-4, under the key 00 01 ... 0f.
use nexus_embedded.Base.{ℕ, zero, suc, ◌+◌, ◌≡◌, refl, List, [], ◌∷◌}
use nexus_embedded.Util.Check.{check_compute}

abbrev count_from : ℕ → ℕ → List ℕ
count_from i zero = []
count_from i (suc n) = i ∷ count_from (i + 1) n

empty_vector :
    check_compute (count_from 0 16) [] ≡ 0x31 ∷ 0x0e ∷ 0x0e ∷ 0xdd ∷ 0x47 ∷ 0xdb ∷ 0x6f ∷ 0x72 ∷ []
unfolding check_compute
empty_vector = refl

fifteen_vector :
    check_compute (count_from 0 16) (count_from 0 15)
    ≡ 0xe5 ∷ 0x45 ∷ 0xbe ∷ 0x49 ∷ 0x61 ∷ 0xca ∷ 0x29 ∷ 0xa1 ∷ []
unfolding check_compute
fifteen_vector = refl
