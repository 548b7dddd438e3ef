-- ===== src/Types.antt =====
-- The types that libvmi/libvmi.h and libvmi/private.h give to address translation: the status
-- codes, access contexts, page_info_t, and the fields of a vmi_instance_t that stay as they are
-- while memory is accessed.
use libvmi.Common.{ℕ, ◌+◌, ◌*◌, List, [], ◌∷◌, Bool, Option, none, some, ◌⊎◌, inl, inr, ◌≡◌, refl}

-- status_t
pub data Status : Type 0 where
  success failure : Status

pub Status-cases : (r : Status) → (r ≡ success) ⊎ (r ≡ failure)
Status-cases success = inl refl
Status-cases failure = inr refl

-- vm_type_t
pub data VmType : Type 0 where
  normal hvm pv32 pv64 : VmType

-- The fields of struct vmi_instance that are set up once and then only read. `file_mode` says
-- that mode is VMI_FILE; `os_type` is the value of the enumeration os_t, 0 for VMI_OS_UNKNOWN.
pub record Conf : Type 0 where
  pub file_mode : Bool
  pub page_shift : ℕ
  pub page_size : ℕ
  pub kpgd : ℕ
  pub pse : Bool
  pub transition_pages : Bool
  pub page_mode : ℕ
  pub os_type : ℕ
  pub vm_type : VmType
  pub max_physical_address : ℕ
  pub has_os_interface : Bool
  pub t0sz : ℕ
  pub t1sz : ℕ
  pub tg0 : ℕ
  pub tg1 : ℕ

-- access_context_t. `pid` is the low half of `pt`, with which it shares its place; `ksym`, which
-- shares its place with `addr`, is a name, as the list of its bytes.
pub record AccessContext : Type 0 where
  pub tm : ℕ
  pub pm : ℕ
  pub npm : ℕ
  pub npt : ℕ
  pub addr : ℕ
  pub pt : ℕ
  pub ksym : List ℕ

-- ACCESS_CONTEXT(ctx, .npt = npt, .npm = npm) with ctx.addr = addr: the other members are zero,
-- so that the address is a physical one (VMI_TM_NONE).
abbrev pub table_context : ℕ → ℕ → ℕ → AccessContext
table_context npt npm addr = record {
  tm = 0;
  pm = 0;
  npm = npm;
  npt = npt;
  addr = addr;
  pt = 0;
  ksym = [];
}

-- The members x86_legacy, x86_pae and x86_ia32e of page_info_t's union, which share their
-- leading fields: x86_pae's pdpe_* is called pdpte_* here.
pub record X86Entries : Type 0 where
  pub pte_location : ℕ
  pub pte_value : ℕ
  pub pgd_location : ℕ
  pub pgd_value : ℕ
  pub pdpte_location : ℕ
  pub pdpte_value : ℕ
  pub pml4e_location : ℕ
  pub pml4e_value : ℕ

-- The members arm_aarch32, which has the fld_* and sld_* fields alone, and arm_aarch64.
pub record ArmEntries : Type 0 where
  pub zld_location : ℕ
  pub zld_value : ℕ
  pub fld_location : ℕ
  pub fld_value : ℕ
  pub sld_location : ℕ
  pub sld_value : ℕ
  pub tld_location : ℕ
  pub tld_value : ℕ

-- page_info_t. Its union is a field for each family of processors: a walk uses one of them only.
pub record PageInfo : Type 0 where
  pub vaddr : ℕ
  pub paddr : ℕ
  pub naddr : ℕ
  pub size : ℕ
  pub pt : ℕ
  pub pm : ℕ
  pub npt : ℕ
  pub npm : ℕ
  pub x86 : X86Entries
  pub arm : ArmEntries

abbrev pub no_entries : X86Entries
no_entries = record {
  pte_location = 0;
  pte_value = 0;
  pgd_location = 0;
  pgd_value = 0;
  pdpte_location = 0;
  pdpte_value = 0;
  pml4e_location = 0;
  pml4e_value = 0;
}

abbrev pub no_descriptors : ArmEntries
no_descriptors = record {
  zld_location = 0;
  zld_value = 0;
  fld_location = 0;
  fld_value = 0;
  sld_location = 0;
  sld_value = 0;
  tld_location = 0;
  tld_value = 0;
}

-- A page_info_t filled with zeros, as g_try_malloc0 gives it.
abbrev pub no_info : PageInfo
no_info = record {
  vaddr = 0;
  paddr = 0;
  naddr = 0;
  size = 0;
  pt = 0;
  pm = 0;
  npt = 0;
  npm = 0;
  x86 = no_entries;
  arm = no_descriptors;
}

-- What the page walks call: vmi_read of a number of bytes through a context, and
-- vmi_nested_pagetable_lookup(vmi, 0, 0, pt, pm, vaddr, &out, NULL) with the old value of `out`.
-- `S` is what those calls may change: the caches.
pub record Machine (S : Type 0) : Type 0 where
  pub read : AccessContext → ℕ → S → Option (List ℕ) × S
  pub lookup : ℕ → ℕ → ℕ → ℕ → S → Status × ℕ × S

-- The number that bytes stand for, the lowest first.
unfoldable pub le_word : List ℕ → ℕ
le_word [] = 0
le_word (b ∷ bs) = b + 256 * le_word bs

abbrev as_word : Option (List ℕ) → Option ℕ
as_word none = none
as_word (some bs) = some (le_word bs)

module _ {S : Type 0} (m : Machine S) where
  -- vmi_read_32 and vmi_read_64; `none` is VMI_FAILURE, and then the value is not written.
  unfoldable pub vmi_read_32 : AccessContext → S → Option ℕ × S
  vmi_read_32 ctx s = let (bs, s') = m.read ctx 4 s in (as_word bs, s')

  unfoldable pub vmi_read_64 : AccessContext → S → Option ℕ × S
  vmi_read_64 ctx s = let (bs, s') = m.read ctx 8 s in (as_word bs, s')
