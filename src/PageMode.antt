-- ===== src/PageMode.antt =====
-- page_mode_t of libvmi/libvmi.h, a uint32_t, and its two checks of libvmi/arch/arch_interface.h.
use libvmi.Common.{ℕ, Bool, ◌==◌, leb, ltb, ◌&&◌}

abbrev pub unset : ℕ
unset = 0

abbrev pub unknown : ℕ
unknown = 1

abbrev pub legacy : ℕ
legacy = 2

abbrev pub pae : ℕ
pae = 3

abbrev pub ia32e : ℕ
ia32e = 4

abbrev pub aarch32 : ℕ
aarch32 = 5

abbrev pub aarch64 : ℕ
aarch64 = 6

abbrev pub ept_4l : ℕ
ept_4l = 7

abbrev pub ept_5l : ℕ
ept_5l = 8

unfoldable pub valid_npm : ℕ → Bool
valid_npm npm = npm == ept_4l

unfoldable pub valid_pm : ℕ → Bool
valid_pm pm = leb legacy pm && ltb pm ept_5l
