-- ===== src/Os/Windows/Peparse.antt =====
-- libvmi/os/windows/peparse.c and libvmi/peparse.h: the headers of an image that is in a buffer. A
-- read outside the buffer, which is undefined in C, is `none`.
use libvmi.Common.{
  ℕ, ◌+◌, ◌*◌, ◌≤◌, leb, ltb, true, not, ◌||◌, ◌==◌, Bool-cases, List, take, drop, length, Option,
  none, some, if◌then◌else◌, inl, inr, ◌≡◌, ◌≢◌, arith,
}
use libvmi.Types.{Status, success, failure, le_word}
use libvmi.Os.Kernel.{and_then}

-- The number of `w` bytes that stands at an offset.
unfoldable pub field : ℕ → ℕ → List ℕ → Option ℕ
field at w image =
    if leb (at + w) (length image) then some (le_word (take w (drop at image))) else none

abbrev pub pe32_magic : ℕ
pe32_magic = 0x10b

abbrev pub pe32_plus_magic : ℕ
pe32_plus_magic = 0x20b

-- A pe_header has 24 bytes and an optional_header_pe32 has 224; signature and offset_to_pe stand at
-- 0 and 60 of a dos_header.
unfoldable pub peparse_validate_pe_image : List ℕ → ℕ → Option Status
peparse_validate_pe_image image len = and_then (field 0 2 image) (λ (signature : ℕ).
    if not (signature == 0x5a4d)
    then some failure
    else and_then (field 60 4 image) (λ (ofs_to_pe : ℕ).
      if ltb len (ofs_to_pe + 24 + 224)
      then some failure
      else and_then (field ofs_to_pe 4 image) (λ (signature' : ℕ).
        if not (signature' == 0x4550)
        then some failure
        else and_then (field (ofs_to_pe + 24) 2 image) (λ (magic : ℕ).
          some (if magic == pe32_magic || magic == pe32_plus_magic then success else failure)))))

-- Where the headers are in the image; the dos_header is at its start. An address of 0 would be that
-- of the image, so that NULL is `none`.
pub record Headers : Type 0 where
  pub pe_header : ℕ
  pub optional_header_type : ℕ
  pub optional_pe_header : ℕ
  pub oh_pe32 : Option ℕ
  pub oh_pe32plus : Option ℕ

-- With none of the pointers for results NULL, and the last two results NULL before the call.
unfoldable pub peparse_assign_headers : List ℕ → Option Headers
peparse_assign_headers image = and_then (field 60 4 image) (λ (offset_to_pe : ℕ).
    and_then (field (offset_to_pe + 24) 2 image) (λ (magic : ℕ).
      let at = offset_to_pe + 24 in
      some (record {
        pe_header = offset_to_pe;
        optional_header_type = magic;
        optional_pe_header = at;
        oh_pe32 = if magic == pe32_magic then some at else none;
        oh_pe32plus = if magic == pe32_plus_magic then some at else none;
      })))

-- number_of_rva_and_sizes stands at 92 or 108 of an optional header, and idd behind it.
unfoldable idd_rva : ℕ → ℕ → ℕ → List ℕ → Option ℕ
idd_rva sizes_at at entry_id image = and_then (field (at + sizes_at) 4 image) (λ (sizes : ℕ).
    if leb entry_id sizes then field (at + sizes_at + 4 + entry_id * 8) 4 image else some 0)

unfoldable idd_size : ℕ → ℕ → ℕ → List ℕ → Option ℕ
idd_size sizes_at at entry_id image = field (at + sizes_at + 4 + entry_id * 8 + 4) 4 image

-- entry_id, optional_header_type, optional_header, oh_pe32 and oh_pe32plus, with NULL as `none`. Without
-- a type the second of the last two is looked at when the first is NULL or lacks the directory.
unfoldable pub peparse_get_idd_rva :
    ℕ → Option ℕ → Option ℕ → Option ℕ → Option ℕ → List ℕ → Option ℕ
unfolding idd_rva
peparse_get_idd_rva entry_id (some magic) (some at) oh_pe32 oh_pe32plus image =
    if magic == pe32_magic
    then idd_rva 92 at entry_id image
    else if magic == pe32_plus_magic
    then idd_rva 108 at entry_id image
    else some 0
peparse_get_idd_rva entry_id (some magic) none oh_pe32 oh_pe32plus image = some 0
peparse_get_idd_rva entry_id none header none none image = some 0
peparse_get_idd_rva entry_id none header none (some plus) image = idd_rva 108 plus entry_id image
peparse_get_idd_rva entry_id none header (some at) none image = idd_rva 92 at entry_id image
peparse_get_idd_rva entry_id none header (some at) (some plus) image =
    and_then (field (at + 92) 4 image) (λ (sizes : ℕ).
      if leb entry_id sizes
      then field (at + 96 + entry_id * 8) 4 image
      else idd_rva 108 plus entry_id image)

unfoldable pub peparse_get_idd_size :
    ℕ → Option ℕ → Option ℕ → Option ℕ → Option ℕ → List ℕ → Option ℕ
unfolding idd_size
peparse_get_idd_size entry_id (some magic) (some at) oh_pe32 oh_pe32plus image =
    if magic == pe32_magic
    then idd_size 92 at entry_id image
    else if magic == pe32_plus_magic
    then idd_size 108 at entry_id image
    else some 0
peparse_get_idd_size entry_id (some magic) none oh_pe32 oh_pe32plus image = some 0
peparse_get_idd_size entry_id none header none none image = some 0
peparse_get_idd_size entry_id none header none (some plus) image = idd_size 108 plus entry_id image
peparse_get_idd_size entry_id none header (some at) oh_pe32plus image =
    idd_size 92 at entry_id image

module _ (image : List ℕ) where
  field-some : (at w : ℕ) → at + w ≤ length image → (v : ℕ) × (field at w image ≡ some v)
  unfolding field
  field-some at w h = (le_word (take w (drop at image)), ground arith)

  -- What a valid image has.
  record IsValid : Type 0 where
    offset_to_pe : ℕ
    magic : ℕ
    at_60 : field 60 4 image ≡ some offset_to_pe
    inside : offset_to_pe + 24 + 224 ≤ length image
    at_magic : field (offset_to_pe + 24) 2 image ≡ some magic
    known : (magic == pe32_magic || magic == pe32_plus_magic) ≡ true

  validated :
      64 ≤ length image → peparse_validate_pe_image image (length image) ≡ some success → IsValid
  unfolding peparse_validate_pe_image
  validated big e =
      let (signature, e₁) = field-some 0 2 (omega (arith, big)) in
      let (offset_to_pe, e₂) = field-some 60 4 (omega (arith, big)) in
      let small : offset_to_pe + 24 + 224 ≤ length image = ground (arith, e, e₁, e₂) in
      let (signature', e₃) = field-some offset_to_pe 4 (omega (arith, small)) in
      let (magic, e₄) = field-some (offset_to_pe + 24) 2 (omega (arith, small)) in
      record {
        offset_to_pe = offset_to_pe;
        magic = magic;
        at_60 = e₂;
        inside = small;
        at_magic = e₄;
        known = ground (arith, e, e₁, e₂, e₃, e₄, small);
      }

  never_outside : 64 ≤ length image → peparse_validate_pe_image image (length image) ≢ none
  unfolding peparse_validate_pe_image
  never_outside big e =
      let (signature, e₁) = field-some 0 2 (omega (arith, big)) in
      let (offset_to_pe, e₂) = field-some 60 4 (omega (arith, big)) in
      let small : offset_to_pe + 24 + 224 ≤ length image = ground (arith, e, e₁, e₂) in
      let (signature', e₃) = field-some offset_to_pe 4 (omega (arith, small)) in
      let (magic, e₄) = field-some (offset_to_pe + 24) 2 (omega (arith, small)) in
      ground (arith, e, e₁, e₂, e₃, e₄, small)

  -- The two numbers that a directory of a valid image has.
  directory :
      (v : IsValid) (entry_id : ℕ)
      → entry_id ≤ 13
      → (rva size : ℕ) × (peparse_get_idd_rva entry_id
            (some v.magic)
            (some (v.offset_to_pe + 24))
            none
            none
            image
          ≡ some rva)
        × (peparse_get_idd_size entry_id (some v.magic) (some (v.offset_to_pe + 24)) none none image
            ≡ some size)
  unfolding peparse_get_idd_rva peparse_get_idd_size idd_rva idd_size
  directory v entry_id few =
      let at = v.offset_to_pe + 24 in
      let (sizes, e₁) = field-some (at + 92) 4 (omega (arith, v.inside)) in
      let (rva, e₂) = field-some (at + 92 + 4 + entry_id * 8) 4 (omega (arith, v.inside, few)) in
      let (size, e₃) =
        field-some (at + 92 + 4 + entry_id * 8 + 4) 4 (omega (arith, v.inside, few)) in
      let (sizes', e₄) = field-some (at + 108) 4 (omega (arith, v.inside)) in
      let (rva', e₅) = field-some (at + 108 + 4 + entry_id * 8) 4 (omega (arith, v.inside, few)) in
      let (size', e₆) =
        field-some (at + 108 + 4 + entry_id * 8 + 4) 4 (omega (arith, v.inside, few)) in
      elim (Bool-cases (v.magic == pe32_magic)) [
        | inl y ↦ (
          (if leb entry_id sizes then rva else 0),
          size,
          ground (arith, y, e₁, e₂),
          ground (arith, y, e₃),
        )
        | inr n ↦ (
          (if leb entry_id sizes' then rva' else 0),
          size',
          ground (arith, n, v.known, e₄, e₅),
          ground (arith, n, v.known, e₆),
        )
      ]

  -- For a buffer of at least 64 bytes whose length is given, peparse_validate_pe_image reads inside
  -- the buffer; and where it succeeds, so do peparse_assign_headers and then peparse_get_idd_rva and
  -- peparse_get_idd_size, called for one of the first 14 directories with the type and the optional
  -- header that it gives.
  pub peparse_validate_pe_image-peparse_get_idd_rva :
      (entry_id : ℕ)
      → 64 ≤ length image
      → entry_id ≤ 13
      → (peparse_validate_pe_image image (length image) ≢ none)
        × (peparse_validate_pe_image image (length image) ≡ some success
            → (h : Headers) × (rva size : ℕ) × (peparse_assign_headers image ≡ some h)
              × (peparse_get_idd_rva entry_id
                    (some h.optional_header_type)
                    (some h.optional_pe_header)
                    none
                    none
                    image
                  ≡ some rva)
              × (peparse_get_idd_size entry_id
                    (some h.optional_header_type)
                    (some h.optional_pe_header)
                    none
                    none
                    image
                  ≡ some size))
  unfolding peparse_assign_headers
  peparse_validate_pe_image-peparse_get_idd_rva entry_id big few = (
    never_outside big,
    λ e.
        let v = validated big e in
        let at = v.offset_to_pe + 24 in
        let (rva, size, e₁, e₂) = directory v entry_id few in
        (
          record {
            pe_header = v.offset_to_pe;
            optional_header_type = v.magic;
            optional_pe_header = at;
            oh_pe32 = if v.magic == pe32_magic then some at else none;
            oh_pe32plus = if v.magic == pe32_plus_magic then some at else none;
          },
          rva,
          size,
          ground (arith, v.at_60, v.at_magic),
          e₁,
          e₂,
        ),
  )
