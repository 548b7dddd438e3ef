-- ===== src/Arch/Steps.antt =====
-- The shape that the page walks share: steps over a page_info_t and the state of the machine that
-- end at the first failure (`goto done`), and what stands behind the label `done`.
use libvmi.Common.{ℕ, Bool, Option, none, some, if◌then◌else◌}
use libvmi.Types.{Status, success, failure, PageInfo, Machine, AccessContext, table_context}
use libvmi.PageMode.{valid_npm}

abbrev pub Step : Type 0 → Type 0
Step S = PageInfo → S → Status × PageInfo × S

module _ {S : Type 0} where
  infixl 5 ◌>>◌
  -- `status = f(...); if (status != VMI_SUCCESS) goto done;`
  abbrev pub ◌>>◌ : Step S → Step S → Step S
  ◌>>◌ f k info s =
      let (status, info', s') = f info s in
      elim status [ success ↦ k info' s' | failure ↦ (failure, info', s') ]

  -- An entry that is not present ends the walk with VMI_FAILURE.
  abbrev pub require : (PageInfo → Bool) → Step S
  require test info s = if test info then (success, info, s) else (failure, info, s)

  -- The walk branches on what it has read.
  abbrev pub branch : (PageInfo → Bool) → Step S → Step S → Step S
  branch test f k info s = if test info then f info s else k info s

  -- The walk ends with VMI_SUCCESS and what it found.
  abbrev pub finish : (PageInfo → PageInfo) → Step S
  finish f info s = (success, f info, s)

  -- Assignments to the page_info_t.
  abbrev pub assign : (PageInfo → PageInfo) → Step S
  assign f info s = (success, f info, s)

  -- Behind `done`: with a nested page mode the address that was found is translated once more, on
  -- a failed walk too.
  unfoldable pub nested_done : Machine S → ℕ → ℕ → Step S → Step S
  nested_done m npt npm walk info s =
      let (status, info', s') = walk info s in
      let (nested, naddr, s'') = m.lookup npt npm info'.paddr info'.naddr s' in
      if valid_npm npm
      then (
        elim nested [ success ↦ status | failure ↦ failure ],
        record info' { naddr = naddr },
        s'',
      )
      else (status, info', s')

  -- Read the entry at an address and store both in the page_info_t; a failed read stores nothing.
  abbrev pub read_entry :
      (AccessContext → S → Option ℕ × S)
      → ℕ
      → ℕ
      → (PageInfo → ℕ)
      → (ℕ → ℕ → PageInfo → PageInfo)
      → Step S
  read_entry read npt npm location store info s =
      let (entry, s') = read (table_context npt npm (location info)) s in
      elim entry [
        | none ↦ (failure, info, s')
        | some v ↦ (success, store (location info) v info, s')
      ]

  -- The ARM walks ignore a failed read: the value of the descriptor stays as it was.
  abbrev pub try_read :
      (AccessContext → S → Option ℕ × S)
      → (PageInfo → ℕ)
      → (ℕ → PageInfo → PageInfo)
      → (ℕ → PageInfo → PageInfo)
      → Step S
  try_read read location locate store info s =
      let info' = locate (location info) info in
      let (entry, s') = read (table_context 0 0 (location info)) s in
      elim entry [ none ↦ (success, info', s') | some v ↦ (success, store v info', s') ]

  -- The walk ends with VMI_FAILURE.
  abbrev pub fault : Step S
  fault info s = (failure, info, s)
