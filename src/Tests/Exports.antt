-- ===== src/Tests/Exports.antt =====
-- libvmi/os/windows/peparse.c on a small image: its header at 0x1000, and the exports "AB" and "C".
use libvmi.Common.{
  ℕ, zero, suc, ◌+◌, ◌*◌, ◌/◌, ◌%◌, ◌^◌, ◌<◌, Bool, true, ◌==◌, List, [], ◌∷◌, length, Option, none,
  some, if◌then◌else◌, ◌≡◌, ◌≢◌, refl, arith,
}
use libvmi.PageMode.{valid_npm, valid_pm}
use libvmi.Types.{success, failure, Conf, AccessContext, le_word}
use libvmi.Access.Env.{Env, resolve, part_len}
use libvmi.Access.Window.{window}
use libvmi.Access.Read.{read_start, start_ok, read_loop, vmi_read}
use libvmi.Access.Sized.{pa_context, le_bytes, overwrite, into, vmi_read_16, vmi_read_32}
use libvmi.Access.Strings.{until_nul, has_nul, old, is_lost, read_str, vmi_read_str}
use libvmi.Os.Windows.Names.{strcmp, strncmp_same}
use libvmi.Os.Windows.Peparse.{
  Headers, field, peparse_validate_pe_image, peparse_assign_headers, peparse_get_idd_rva,
  peparse_get_idd_size, peparse_validate_pe_image-peparse_get_idd_rva,
}
use libvmi.Os.Windows.Exports.{
  ExportTable, at, table_of_bytes, peparse_get_image, read_table, is_sane, peparse_get_export_table,
  is_forwarded, get_aon_index_binary, windows_export_to_rva, windows_rva_to_export,
}
use libvmi.Os.Windows.Exports.Search.{HasExports, IsSorted, first_prefix, Locates}
use libvmi.Os.Windows.Exports.Binary.{get_aon_index_binary-Locates}
use libvmi.Os.Windows.Exports.Laws.{
  windows_export_to_rva-prefix, windows_rva_to_export-windows_export_to_rva,
}
use libvmi.Tests.{conf}

abbrev word : ℕ → ℕ
word a =
    if a == 0x1000
    then 0x5a4d
    else if a == 0x103c
    then 64
    else if a == 0x1040
    then 0x4550
    else if a == 0x1058
    then 0x10b
    else if a == 0x10b4
    then 16
    else if a == 0x10b8
    then 0x200
    else if a == 0x10bc
    then 40
    else if a == 0x120c
    then 1
    else if a == 0x1214
    then 2
    else if a == 0x1218
    then 2
    else if a == 0x121c
    then 0x300
    else if a == 0x1220
    then 0x310
    else if a == 0x1224
    then 0x320
    else if a == 0x1300
    then 0x500
    else if a == 0x1304
    then 0x600
    else if a == 0x1310
    then 0xff8
    else if a == 0x1314
    then 0xffc
    else if a == 0x1320
    then 1
    else if a == 0x1ff8
    then 0x4241
    else if a == 0x1ffc
    then 0x43
    else 0

abbrev memory : ℕ → ℕ
memory a = word (a / 4 * 4) / 256 ^ (a % 4) % 256

abbrev pages : Conf
pages = record conf { page_size = 1024; page_shift = 10 }

abbrev env : Env (Unit {0})
env = record {
  lookup = λ npt npm pt pm va s. (failure, (0, 0), s);
  read_page = λ pfn s. (some (window memory (pfn * 1024) 1024), s);
  write = λ paddr buf s. (failure, s);
  ksym2v = λ sym s. (none, s);
  pid_to_dtb = λ pid s. (none, s);
}

abbrev IsGood : Unit {0} → Type 0
IsGood s = Unit {0}

abbrev realloc : ℕ → Unit {0} → Bool × Unit {0}
realloc n s = (true, s)

abbrev image_context : AccessContext
image_context = pa_context 0x1000

program : Unit {0}
unfolding resolve valid_npm valid_pm part_len read_start start_ok read_loop vmi_read window le_word
    le_bytes overwrite into vmi_read_16 vmi_read_32 until_nul has_nul old is_lost read_str
    vmi_read_str strcmp strncmp_same field peparse_validate_pe_image peparse_assign_headers
    peparse_get_idd_rva peparse_get_idd_size table_of_bytes peparse_get_image read_table is_sane
    peparse_get_export_table is_forwarded first_prefix
program = tt

abbrev exports : ExportTable
exports = record {
  export_flags = 0;
  time_date_stamp = 0;
  major_version = 0;
  minor_version = 0;
  name = 1;
  base = 0;
  number_of_functions = 2;
  number_of_names = 2;
  address_of_functions = 0x300;
  address_of_names = 0x310;
  address_of_name_ordinals = 0x320;
}

abbrev names : ℕ → List ℕ
names i = if i == 0 then 65 ∷ 66 ∷ [] else 67 ∷ []

abbrev name_rva : ℕ → ℕ
name_rva i = if i == 0 then 0xff8 else 0xffc

abbrev ordinals : ℕ → ℕ
ordinals i = if i == 0 then 1 else 0

abbrev functions : ℕ → ℕ
functions o = if o == 0 then 0x500 else 0x600

by_two : (P : ℕ → Type 0) → P 0 → P 1 → (i : ℕ) → i < 2 → P i
by_two P a b zero h = a
by_two P a b (suc zero) h = b
by_two P a b (suc (suc i)) h = absurd (omega (arith, h))

has : HasExports env pages realloc 1 image_context exports IsGood names name_rva ordinals functions
unfolding program
has = record {
  real = by_two (λ i. name_rva i ≢ 0) (omega arith) (omega arith);
  pointer = λ i s h good.
      by_two
        (λ i.
          (s' : Unit {0}) × (vmi_read_32 env pages (at image_context (0x1310 + i * 4)) 0 s
            ≡ (success, name_rva i, s'))
          × Unit {0})
        (tt, refl, tt) (tt, refl, tt) i h;
  text = λ i s h good.
      by_two
        (λ i.
          (s' : Unit {0}) × (vmi_read_str env pages realloc 1
              (at image_context (0x1000 + name_rva i)) s
            ≡ some (some (names i), s'))
          × Unit {0})
        (tt, refl, tt) (tt, refl, tt) i h;
  ordinal = λ i s h good.
      by_two
        (λ i.
          (s' : Unit {0}) × (vmi_read_16 env pages (at image_context (0x1320 + i * 2)) 0 s
            ≡ (success, ordinals i, s'))
          × Unit {0})
        (tt, refl, tt) (tt, refl, tt) i h;
  function = λ i s h good.
      by_two
        (λ i.
          (s' : Unit {0}) × (vmi_read_32 env pages (at image_context (0x1300 + ordinals i * 4)) 0 s
            ≡ (success, functions (ordinals i), s'))
          × Unit {0})
        (tt, refl, tt) (tt, refl, tt) i h;
}

sorted : IsSorted names 2
unfolding program
sorted zero (suc zero) p q = refl
sorted zero zero p q = absurd (omega (arith, p))
sorted (suc i) (suc zero) p q = absurd (omega (arith, p))
sorted (suc i) zero p q = absurd (omega (arith, p))
sorted i (suc (suc j)) p q = absurd (omega (arith, q))

table :
    (s : Unit {0})
    → Unit {0}
    → (s' : Unit {0}) × (peparse_get_export_table env pages realloc 1 image_context s
        ≡ some (some (exports, 0x200, 40), s'))
      × Unit {0}
unfolding program
table s good = (tt, refl, tt)

abbrev image : List ℕ
image = window memory 0x1000 320

peparse_validate_pe_image-peparse_get_idd_rva_example :
    (peparse_validate_pe_image image (length image) ≢ none)
    × (peparse_validate_pe_image image (length image) ≡ some success
        → (h : Headers) × (rva size : ℕ) × (peparse_assign_headers image ≡ some h)
          × (peparse_get_idd_rva 0
                (some h.optional_header_type)
                (some h.optional_pe_header)
                none
                none
                image
              ≡ some rva)
          × (peparse_get_idd_size 0
                (some h.optional_header_type)
                (some h.optional_pe_header)
                none
                none
                image
              ≡ some size))
unfolding window
peparse_validate_pe_image-peparse_get_idd_rva_example =
    peparse_validate_pe_image-peparse_get_idd_rva image 0 (omega arith) (omega arith)

get_aon_index_binary-Locates_example :
    (o : Option ℕ) × (s : Unit {0}) × (get_aon_index_binary env pages realloc 1 image_context 3
        (67 ∷ [])
        exports
        tt
      ≡ some (o, s))
    × Locates names (67 ∷ []) 0 2 o
    × Unit {0}
get_aon_index_binary-Locates_example =
    get_aon_index_binary-Locates env pages realloc 1 image_context exports IsGood names name_rva
      ordinals functions has (67 ∷ []) sorted 2 tt (omega arith) (omega arith) tt

absent : (j : ℕ) → j < 2 → names j ≢ 65 ∷ 66 ∷ 67 ∷ []
absent = by_two (λ j. names j ≢ 65 ∷ 66 ∷ 67 ∷ []) (λ e. ground (arith, e)) (λ e. ground (arith, e))

-- "ABC" is not exported, and has the address of "AB".
windows_export_to_rva-prefix_example :
    (s : Unit {0}) × (windows_export_to_rva env pages realloc 1 image_context 3
        (65 ∷ 66 ∷ 67 ∷ [])
        0
        tt
      ≡ some (success, 0x600, s))
    × Unit {0}
unfolding program
windows_export_to_rva-prefix_example =
    windows_export_to_rva-prefix env pages realloc 1 image_context exports 0x200 40 IsGood names
      name_rva ordinals functions has sorted table 2 (omega arith) (omega arith) (65 ∷ 66 ∷ 67 ∷ [])
      0 0 tt absent refl (omega arith) tt

other : (j : ℕ) → j < 1 → functions (ordinals j) ≢ 0x500
other zero h = λ e. omega (arith, e)
other (suc j) h = absurd (omega (arith, h))

windows_rva_to_export-windows_export_to_rva_example :
    (s₁ s₂ : Unit {0}) × (windows_export_to_rva env pages realloc 1 image_context 3 (67 ∷ []) 0 tt
      ≡ some (success, 0x500, s₁))
    × (windows_rva_to_export env pages realloc 1 image_context 0x500 s₁ ≡ some (some (67 ∷ []), s₂))
    × Unit {0}
unfolding program
windows_rva_to_export-windows_export_to_rva_example =
    windows_rva_to_export-windows_export_to_rva env pages realloc 1 image_context exports 0x200 40
      IsGood names name_rva ordinals functions has sorted table 2 (omega arith) (omega arith) 1 0 tt
      (omega arith) (omega arith) refl other tt
