-- ===== src/Tests/StrMatch.antt =====
-- The search of libvmi/strmatch.c for "aba" in "bbabcabab".
use libvmi.Common.{ℕ, ◌<◌, none, some, List, [], ◌∷◌, get_elem?, ◌≡◌, refl, arith}
use libvmi.StrMatch.{
  fill_bc, pre_bm_bc, back, suffixes_loop, suffixes, fill_gs, prefixes_loop, suffixes_gs, pre_bm_gs,
  boyer_moore_init, mismatch, search, boyer_moore2, boyer_moore,
}
use libvmi.StrMatch.Laws.{IsFirst, boyer_moore-IsFirst}

abbrev bytes : List ℕ → ℕ → ℕ
bytes text k = elim (get_elem? text k) [ none ↦ 0 | some b ↦ b ]

abbrev word : ℕ → ℕ
word = bytes (97 ∷ 98 ∷ 97 ∷ [])

abbrev text : ℕ → ℕ
text = bytes (98 ∷ 98 ∷ 97 ∷ 98 ∷ 99 ∷ 97 ∷ 98 ∷ 97 ∷ 98 ∷ [])

abbrev fresh : ℕ → ℕ
fresh k = 77

found : boyer_moore fresh word 3 text 9 ≡ some (some 5)
unfolding fill_bc pre_bm_bc back suffixes_loop suffixes fill_gs prefixes_loop suffixes_gs pre_bm_gs
    boyer_moore_init mismatch search boyer_moore2 boyer_moore
found = refl

not_found : boyer_moore fresh word 3 text 7 ≡ some none
unfolding fill_bc pre_bm_bc back suffixes_loop suffixes fill_gs prefixes_loop suffixes_gs pre_bm_gs
    boyer_moore_init mismatch search boyer_moore2 boyer_moore
not_found = refl

some_pattern : 0 < 3
some_pattern = omega arith

boyer_moore-IsFirst_example :
    IsFirst fresh word 3 text 9 some_pattern (boyer_moore fresh word 3 text 9)
boyer_moore-IsFirst_example = boyer_moore-IsFirst fresh word 3 text 9 some_pattern
