-- ===== src/Access/Sized/RoundTrip.antt =====
-- What libvmi/write.c has written, libvmi/read.c reads.
use libvmi.Common.{
  ℕ, zero, suc, ◌+◌, ◌*◌, ◌/◌, ◌%◌, ◌^◌, ◌≤◌, ◌<◌, List, ◌∷◌, Option, some, true, ◌≡◌, ◌≢◌, refl,
  sym, ap, ◌∙◌, arith,
}
use libvmi.Types.{success, Conf, AccessContext, le_word}
use libvmi.Access.Env.{Env, Start, resolve}
use libvmi.Access.Window.{window, window_map}
use libvmi.Access.Paging.{IsPaged, IsBacked, IsMapped}
use libvmi.Access.Read.{read_start, start_ok, vmi_read}
use libvmi.Access.Read.Laws.{vmi_read-window}
use libvmi.Access.Write.{go, write_start, vmi_write}
use libvmi.Access.Write.Laws.{IsWritable, vmi_write-stored}
use libvmi.Access.Sized.{le_bytes, overwrite, into, status_of_write, vmi_write_64, vmi_read_64}

-- A context that both functions begin in the same way, and a driver whose pages are the physical
-- memory `view`, which nothing but a write changes.
pub record IsMemory {S : Type 0} (env : Env S) (conf : Conf) (ctx : AccessContext) (start : Start)
    (IsGood : S → Type 0) (view : S → ℕ → ℕ) : Type 0 where
  pub to_read :
      (s : S)
      → IsGood s
      → (s' : S) × (read_start env conf ctx s ≡ (some start, s')) × IsGood s' × (view s' ≡ view s)
  pub to_write :
      (s : S)
      → IsGood s
      → (s' : S) × (write_start env conf ctx s ≡ (go start, s')) × IsGood s' × (view s' ≡ view s)
  pub checked : start_ok env conf ctx start ≡ true
  pub still : (a : ℕ) (s : S) → view (resolve env conf ctx start a s).1 ≡ view s
  pub page :
      (pfn : ℕ) (s : S)
      → IsGood s
      → (s' : S) × (env.read_page pfn s
          ≡ (some (window (view s) (pfn * conf.page_size) conf.page_size), s'))
        × IsGood s'
        × (view s' ≡ view s)

module _ {S : Type 0} (env : Env S) (conf : Conf) (ctx : AccessContext) (start : Start)
    (IsGood : S → Type 0) (f tr : ℕ → ℕ) (view : S → ℕ → ℕ) (total : ℕ) (paged : IsPaged conf)
    (memory : IsMemory env conf ctx start IsGood view) (writable : IsWritable env IsGood view)
    (mapped : IsMapped env conf ctx start IsGood tr start.addr total)
    (apart : (i j : ℕ) → i < total → j < total → tr (start.addr + i) ≡ tr (start.addr + j) → i ≡ j)
    (fits : start.addr + total ≤ 2 ^ 64) (small : total < 2 ^ 63)
    (small_page : conf.page_size < 2 ^ 63) where
  -- The states in which the memory is `m`.
  abbrev IsAt : (ℕ → ℕ) → S → Type 0
  IsAt m s = IsGood s × (view s ≡ m)

  IsAt-IsMapped : (m : ℕ → ℕ) → IsMapped env conf ctx start (IsAt m) tr start.addr total
  IsAt-IsMapped m = record {
    found = λ a s lo hi good.
        let (s', e, good') = mapped.found a s lo hi good.0 in
        (s', e, (good', sym (ap (λ (r : Option ℕ × S). view r.1) e) ∙ memory.still a s ∙ good.1));
    contiguous = mapped.contiguous;
  }

  IsAt-IsBacked : (m : ℕ → ℕ) → IsBacked env conf (IsAt m) m tr start.addr total
  IsAt-IsBacked m a s lo hi good =
      let pfn = tr a / 2 ^ conf.page_shift in
      let (s', e, good', same) = memory.page pfn s good.0 in
      (
        s',
        e ∙ ap (λ (v : ℕ → ℕ). (some (window v (pfn * conf.page_size) conf.page_size), s')) good.1,
        (good', same ∙ good.1),
      )

  -- Bytes that vmi_write has written through a context are what vmi_read then reads through it, both
  -- with success, and no other byte of physical memory has changed. This is when both begin the
  -- context in the same way, the pages have 2 ^ page_shift bytes, each address of the range has a
  -- translation of its own that is contiguous within a page, and the driver reads and writes one
  -- memory, which nothing else changes. The range does not wrap around, and it and the page size are
  -- under 2 ^ 63.
  pub vmi_read-vmi_write :
      (s : S)
      → IsGood s
      → (s₁ s₂ : S) × (vmi_write env conf ctx total (window f 0 total) s
          ≡ (success, some total, s₁))
        × (vmi_read env conf ctx total s₁ ≡ (success, window f 0 total, s₂))
        × ((p : ℕ) → ((i : ℕ) → i < total → p ≢ tr (start.addr + i)) → view s₂ p ≡ view s p)
        × IsGood s₂
  vmi_read-vmi_write s good =
      let (s', begun, good', same) = memory.to_write s good in
      let (s₁, wrote, here, frame, good₁) =
        vmi_write-stored env conf ctx start IsGood f tr view total paged writable mapped
          memory.still apart fits small small_page s s' begun good' in
      let (s'', begun', good'', same') = memory.to_read s₁ good₁ in
      let (s₂, got, good₂) =
        vmi_read-window env conf ctx start (IsAt (view s₁)) (view s₁) tr total paged
          (IsAt-IsBacked (view s₁)) (IsAt-IsMapped (view s₁)) fits small small_page s₁ s'' begun'
          memory.checked (good'', same') in
      (
        s₁,
        s₂,
        wrote,
        got
            ∙ ap (λ (w : List ℕ). (success, w, s₂))
                (window_map (λ (a : ℕ). view s₁ (tr a)) f start.addr 0 total
                  (λ i lt. here i lt ∙ ap f (omega arith))),
        λ p avoid. ap (λ (v : ℕ → ℕ). v p) good₂.1 ∙ frame p avoid ∙ ap (λ (v : ℕ → ℕ). v p) same,
        good₂.0,
      )

unfoldable byte : ℕ → ℕ → ℕ
byte v zero = v % 256
byte v (suc i) = byte (v / 256) i

window-byte : (w v : ℕ) → window (byte v) 0 w ≡ le_bytes w v
unfolding window le_bytes byte
window-byte zero v = refl
window-byte (suc w) v =
    ap (◌∷◌ (v % 256)) (
      window_map (byte v) (byte (v / 256)) (0 + 1) 0 w (λ i lt. shifted i)
      ∙ window-byte w (v / 256))
  where
    next_place : (i : ℕ) → 0 + 1 + i ≡ suc i
    next_place i = omega arith

    same_place : (i : ℕ) → i ≡ 0 + i
    same_place i = omega arith

    shifted : (i : ℕ) → byte v (0 + 1 + i) ≡ byte (v / 256) (0 + i)
    shifted i = ap (byte v) (next_place i) ∙ ap (byte (v / 256)) (same_place i)

-- Numbers of `w` bytes are below this.
abbrev limit : ℕ → ℕ
limit zero = 1
limit (suc w) = 256 * limit w

le_word-le_bytes : (w v : ℕ) → v < limit w → le_word (le_bytes w v) ≡ v
unfolding le_word le_bytes
le_word-le_bytes zero v h = omega arith
le_word-le_bytes (suc w) v h = omega (arith, le_word-le_bytes w (v / 256) (omega (arith, h)))

module _ {S : Type 0} (env : Env S) (conf : Conf) (ctx : AccessContext) (start : Start)
    (IsGood : S → Type 0) (tr : ℕ → ℕ) (view : S → ℕ → ℕ) (paged : IsPaged conf)
    (memory : IsMemory env conf ctx start IsGood view) (writable : IsWritable env IsGood view)
    (mapped : IsMapped env conf ctx start IsGood tr start.addr 8)
    (apart : (i j : ℕ) → i < 8 → j < 8 → tr (start.addr + i) ≡ tr (start.addr + j) → i ≡ j)
    (fits : start.addr + 8 ≤ 2 ^ 64) (small_page : conf.page_size < 2 ^ 63) where
  -- Under the same conditions on the eight bytes at the start, a number below 2 ^ 64 that vmi_write_64
  -- has written is what vmi_read_64 then reads, both with success, whatever the variable held.
  pub vmi_read_64-vmi_write_64 :
      (v old : ℕ) (s : S)
      → v < 2 ^ 64
      → IsGood s
      → (s₁ s₂ : S) × (vmi_write_64 env conf ctx v s ≡ (success, s₁))
        × (vmi_read_64 env conf ctx old s₁ ≡ (success, v, s₂))
        × IsGood s₂
  unfolding vmi_write_64 vmi_read_64 status_of_write into overwrite
  vmi_read_64-vmi_write_64 v old s small good =
      let (s₁, s₂, wrote, got, frame, good₂) =
        vmi_read-vmi_write env conf ctx start IsGood (byte v) tr view 8 paged memory writable mapped
          apart fits (omega arith) small_page s good in
      let bytes = window-byte 8 v in
      (
        s₁,
        s₂,
        ap (λ (b : List ℕ). status_of_write env conf (vmi_write env conf ctx 8 b s)) (sym bytes)
            ∙ ap (status_of_write env conf) wrote,
        ap (into env conf 8 old) got
            ∙ ap (λ (b : List ℕ). into env conf 8 old (success, b, s₂)) bytes
            ∙ ap (λ (n : ℕ). (success, n, s₂)) (le_word-le_bytes 8 v small),
        good₂,
      )
