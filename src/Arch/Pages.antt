-- ===== src/Arch/Pages.antt =====
-- What the functions get_pages_* of libvmi/arch share: a loop over the entries of a table that may
-- end the listing (`goto done`), and an entry of a table that has been read into a buffer.
use libvmi.Common.{ℕ, zero, suc, ◌+◌, ◌*◌, not, Bool, ◌==◌, List, ◌∷◌, take, drop, none, some}
use libvmi.Types.{Status, success, failure, Conf, PageInfo, Machine, le_word, table_context}

-- A listing in progress: a failure is `goto done`, with the pages listed so far, the last one first.
abbrev pub Listing : Type 0 → Type 0
Listing S = List PageInfo → S → Status × List PageInfo × S

-- The entry of `w` bytes at an index of a page of entries.
unfoldable pub entry : ℕ → ℕ → List ℕ → ℕ
entry w i page = le_word (take w (drop (i * w) page))

-- `ENTRY_PRESENT(vmi->os_type, ...)`: the type of the operating system stands where
-- transition_pages would.
abbrev pub os_is_known : Conf → Bool
os_is_known conf = not (conf.os_type == 0)

module _ {S : Type 0} where
  -- The loop over `left` entries from `i` on.
  unfoldable pub each : (ℕ → Listing S) → ℕ → ℕ → Listing S
  each step i zero acc s = (success, acc, s)
  each step i (suc left) acc s =
      let (status, acc', s') = step i acc s in
      let rest = each step (i + 1) left acc' s' in
      elim status [ success ↦ rest | failure ↦ (failure, acc', s') ]

  -- Read a table and go on, or end the listing.
  unfoldable pub with_table : Machine S → ℕ → ℕ → ℕ → ℕ → (List ℕ → Listing S) → Listing S
  with_table m npt npm location size k acc s =
      let (page, s') = m.read (table_context npt npm location) size s in
      elim page [ none ↦ (failure, acc, s') | some bytes ↦ k bytes acc s' ]

  -- `ret = g_slist_prepend(ret, info)`
  abbrev pub prepend : PageInfo → Listing S
  prepend info acc s = (success, info ∷ acc, s)

  -- `continue`
  abbrev pub skip : Listing S
  skip acc s = (success, acc, s)
