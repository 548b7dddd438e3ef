-- ===== src/Access/Read/Laws.antt =====
-- vmi_read of libvmi/read.c over memory that translates page by page.
use native.Mathlib.Nat.{div-add-mod', mod-lt}
use mathlib.Core.List.{append_assoc, append-nil}
use libvmi.Common.{
  ℕ, zero, suc, ◌+◌, ◌-◌, ◌*◌, ◌/◌, ◌%◌, ◌^◌, ◌≤◌, ◌<◌, true, List, [], ◌++◌, take, drop, length,
  length-append, some, ◌≡◌, refl, sym, ap, ◌∙◌, arith,
}
use libvmi.Types.{success, Conf, AccessContext}
use libvmi.Access.Env.{Env, Start, part_len}
use libvmi.Access.Paging.{IsPaged, IsBacked, IsMapped, offset_lem, part_len_bounds}
use libvmi.Access.Read.{read_start, start_ok, read_loop, vmi_read}
use libvmi.Access.Window.{
  window, length-window, window-append, window_part, window_map, window_same,
}

module _ {S : Type 0} (env : Env S) (conf : Conf) (ctx : AccessContext) (start : Start)
    (IsGood : S → Type 0) (mem tr : ℕ → ℕ) (total : ℕ) (paged : IsPaged conf)
    (backed : IsBacked env conf IsGood mem tr start.addr total)
    (mapped : IsMapped env conf ctx start IsGood tr start.addr total)
    (fits : start.addr + total ≤ 2 ^ 64) (small : total < 2 ^ 63)
    (small_page : conf.page_size < 2 ^ 63) where
  abbrev seen : ℕ → ℕ
  seen a = mem (tr a)

  -- What one round copies.
  part_lem :
      (a len : ℕ)
      → start.addr ≤ a
      → a + len ≤ start.addr + total
      → tr a % conf.page_size + len ≤ conf.page_size
      → take len (
          drop
            (tr a % conf.page_size)
            (window mem (tr a / 2 ^ conf.page_shift * conf.page_size) conf.page_size))
        ≡ window seen a len
  part_lem a len lo hi h =
      window_part mem (tr a / 2 ^ conf.page_shift * conf.page_size) (tr a % conf.page_size) len
        conf.page_size h
      ∙ window_same mem (tr a / 2 ^ conf.page_shift * conf.page_size + tr a % conf.page_size) (tr a)
          len len
          (ap (λ (p : ℕ). tr a / p * conf.page_size + tr a % conf.page_size) (sym paged.0)
            ∙ div-add-mod' (tr a) conf.page_size)
          (omega arith)
      ∙ window_map mem seen (tr a) a len
          (λ i lt. ap mem (sym (mapped.contiguous a i lo (omega arith) (omega arith))))

  pieces :
      (a m n b : ℕ) → m ≤ n → b ≡ a + m → window seen a m ++ window seen b (n - m) ≡ window seen a n
  pieces a m n b le e =
      ap (λ (t : ℕ). window seen a m ++ window seen t (n - m)) e
      ∙ sym (window-append seen a m (n - m))
      ∙ window_same seen a a (m + (n - m)) n (omega arith) (omega arith)

  read_loop_lem :
      (fuel count : ℕ) (buf : List ℕ) (s : S)
      → count ≤ fuel
      → length buf + count ≤ total
      → IsGood s
      → (s' : S) × (read_loop env conf ctx fuel start count buf s
          ≡ (success, buf ++ window seen (start.addr + length buf) count, s'))
        × IsGood s'
  unfolding read_loop window
  read_loop_lem zero zero buf s enough within good = (s, simp append-nil, good)
  read_loop_lem zero (suc count) buf s enough within good = elim enough [ ]
  read_loop_lem (suc fuel) zero buf s enough within good = (s, simp append-nil, good)
  read_loop_lem (suc fuel) (suc c) buf s enough within good =
      let a = start.addr + length buf in
      let count = suc c in
      let offset = tr a % conf.page_size in
      let len = part_len conf offset count in
      let bounds =
        part_len_bounds conf offset count (mod-lt (tr a) paged.1) (omega arith)
          (omega (arith, mod-lt (tr a) paged.1)) in
      let (s₁, resolved, good₁) = mapped.found a s (omega arith) (omega arith) good in
      let (s₂, read, good₂) = backed a s₁ (omega arith) (omega arith) good₁ in
      let buf' = buf ++ window seen a len in
      let grown : length buf' ≡ length buf + len =
        length-append buf (window seen a len)
        ∙ ap (λ (n : ℕ). length buf + n) (length-window seen a len) in
      let (s', rest, good') =
        read_loop_lem fuel (count - len) buf' s₂ (omega arith) (omega arith) good₂ in
      let joined =
        append_assoc buf (window seen a len) (window seen (start.addr + length buf') (count - len))
        ∙ ap (λ (w : List ℕ). buf ++ w)
            (pieces a len count (start.addr + length buf') (omega arith) (omega arith)) in
      (
        s',
        ground (
          arith,
          resolved,
          read,
          offset_lem conf paged (tr a),
          part_lem a len (omega arith) (omega arith) (omega arith),
          rest,
          joined,
        ),
        good',
      )

  -- vmi_read returns success with exactly the `total` bytes that stand at the translations of
  -- start.addr, start.addr + 1, ..., when the context gives the start, the checks pass, the pages
  -- have 2 ^ page_shift bytes, each page can be read, and each address of the range has a
  -- translation that is contiguous within a page. The range does not wrap around, and it and the page
  -- size are under 2 ^ 63. `IsGood` may say what holds of the states in which this is so. The rounds
  -- are as many as the bytes at most.
  pub vmi_read-window :
      (s s₁ : S)
      → read_start env conf ctx s ≡ (some start, s₁)
      → start_ok env conf ctx start ≡ true
      → IsGood s₁
      → (s' : S) × (vmi_read env conf ctx total s ≡ (success, window seen start.addr total, s'))
        × IsGood s'
  unfolding vmi_read
  vmi_read-window s s₁ started ok good =
      let (s', loop, good') = read_loop_lem total total [] s₁ (omega arith) (omega arith) good in
      (
        s',
        ground (
          arith,
          started,
          ok,
          loop,
          window_same seen (start.addr + 0) start.addr total total (omega arith) refl,
        ),
        good',
      )
