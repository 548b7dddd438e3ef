-- ===== src/PageSize.antt =====
-- page_size_t of libvmi/libvmi.h.
use libvmi.Common.{ℕ}

abbrev pub kb1 : ℕ
kb1 = 0x400

abbrev pub kb4 : ℕ
kb4 = 0x1000

abbrev pub kb16 : ℕ
kb16 = 0x4000

abbrev pub kb64 : ℕ
kb64 = 0x10000

abbrev pub mb1 : ℕ
mb1 = 0x100000

abbrev pub mb2 : ℕ
mb2 = 0x200000

abbrev pub mb4 : ℕ
mb4 = 0x400000

abbrev pub mb16 : ℕ
mb16 = 0x1000000

abbrev pub mb512 : ℕ
mb512 = 0x20000000

abbrev pub gb1 : ℕ
gb1 = 0x40000000
