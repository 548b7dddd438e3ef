-- ===== src/Access/Read/Bounds.antt =====
-- vmi_read of libvmi/read.c stays within the caller's buffer, whatever the lookups and pages do.
use native.Mathlib.Nat.{mod-lt}
use mathlib.Core.Path.{subst}
use libvmi.Common.{
  ℕ, zero, suc, ◌+◌, ◌-◌, ◌/◌, ◌%◌, ◌^◌, ◌≤◌, ◌<◌, bit_and, List, [], ◌∷◌, ◌++◌, take, drop, length,
  length-append, some, Option-cases, Bool-cases, inl, inr, ◌≡◌, refl, sym, ap, ◌∙◌, arith,
}
use libvmi.Types.{Status, success, failure, Conf, AccessContext}
use libvmi.Access.Env.{Env, Start, resolve, part_len}
use libvmi.Access.Paging.{IsPaged, offset_lem, part_len_bounds}
use libvmi.Access.Read.{read_start, start_ok, read_loop, vmi_read}

-- The length of a part of a list that has it.
length-take-drop : (k n : ℕ) (xs : List ℕ) → k + n ≤ length xs → length (take n (drop k xs)) ≡ n
length-take-drop zero zero xs h = refl
length-take-drop zero (suc n) [] h = let bad : ⊥ = omega (arith, h) in elim bad [ ]
length-take-drop zero (suc n) (x ∷ xs) h = ap suc (length-take-drop zero n xs (omega arith))
length-take-drop (suc k) zero [] h = refl
length-take-drop (suc k) (suc n) [] h = let bad : ⊥ = omega (arith, h) in elim bad [ ]
length-take-drop (suc k) n (x ∷ xs) h = length-take-drop k n xs (omega arith)

-- What the status says of the bytes that were copied for a request of `count`.
abbrev pub IsReported : {S : Type 0} → ℕ → Status × List ℕ × S → Type 0
IsReported count (success, buf, s) = length buf ≡ count
IsReported count (failure, buf, s) = length buf < count

reported :
    {S : Type 0} (n : ℕ) (r r' : Status × List ℕ × S) → r ≡ r' → IsReported n r' → IsReported n r
reported n r r' e h = subst (IsReported n) (sym e) h

module _ {S : Type 0} (env : Env S) (conf : Conf) (ctx : AccessContext) (paged : IsPaged conf)
    (small_page : conf.page_size < 2 ^ 63)
    (whole : (pfn : ℕ) (s : S) (page : List ℕ)
      → (env.read_page pfn s).0 ≡ some page
      → length page ≡ conf.page_size) where
  read_loop-IsReported :
      (fuel : ℕ) (start : Start) (count : ℕ) (buf : List ℕ) (s : S)
      → count < 2 ^ 63
      → count ≤ fuel
      → IsReported (length buf + count) (read_loop env conf ctx fuel start count buf s)
  unfolding read_loop
  read_loop-IsReported zero start zero buf s small enough = omega arith
  read_loop-IsReported zero start (suc c) buf s small enough = elim enough [ ]
  read_loop-IsReported (suc fuel) start zero buf s small enough = omega arith
  read_loop-IsReported (suc fuel) start (suc c) buf s small enough =
      let count = suc c in
      let a = (start.addr + length buf) % 2 ^ 64 in
      let r = read_loop env conf ctx (suc fuel) start count buf s in
      let (found, s₁) = resolve env conf ctx start a s in
      elim (Option-cases found) [
        | inl e ↦
            reported (length buf + count) r (failure, buf, s₁) (ground (arith, e)) (omega arith)
        | inr (paddr, e) ↦
            let (memory, s₂) = env.read_page (paddr / 2 ^ conf.page_shift) s₁ in
            elim (Option-cases memory) [
              | inl f ↦
                  reported (length buf + count) r (failure, buf, s₂) (ground (arith, e, f))
                    (omega arith)
              | inr (page, f) ↦
                  let offset = bit_and (conf.page_size - 1) paddr in
                  let within = mod-lt paddr paged.1 in
                  let in_page = offset_lem conf paged paddr in
                  let len = part_len conf offset count in
                  let bounds =
                    part_len_bounds conf offset count (omega arith) (omega arith) (omega arith) in
                  let buf' = buf ++ take len (drop offset page) in
                  let size = whole (paddr / 2 ^ conf.page_shift) s₁ page f in
                  let grown : length buf' ≡ length buf + len =
                    length-append buf (take len (drop offset page))
                    ∙ ap (λ (n : ℕ). length buf + n)
                        (length-take-drop offset len page (omega arith)) in
                  let rest =
                    read_loop-IsReported fuel start (count - len) buf' s₂ (omega arith)
                      (omega arith) in
                  reported (length buf + count) r
                    (read_loop env conf ctx fuel start (count - len) buf' s₂) (ground (arith, e, f))
                    (subst
                      (λ (n : ℕ).
                        IsReported n (read_loop env conf ctx fuel start (count - len) buf' s₂))
                      (omega arith) rest)
            ]
      ]

  -- vmi_read of at least one and fewer than 2 ^ 63 bytes copies exactly that many if it returns
  -- success, and fewer if it returns failure: whatever the context, the state, the lookups and the
  -- driver, as long as each page that the driver gives has the size of a page, and that size is
  -- 2 ^ page_shift and below 2 ^ 63.
  pub vmi_read-IsReported :
      (count : ℕ) (s : S)
      → 0 < count
      → count < 2 ^ 63
      → IsReported count (vmi_read env conf ctx count s)
  unfolding vmi_read
  vmi_read-IsReported count s pos small =
      let r = vmi_read env conf ctx count s in
      let (begun, s₁) = read_start env conf ctx s in
      elim (Option-cases begun) [
        | inl e ↦ reported count r (failure, [], s₁) (ground (arith, e)) (omega arith)
        | inr (start, e) ↦ elim (Bool-cases (start_ok env conf ctx start)) [
          | inr f ↦ reported count r (failure, [], s₁) (ground (arith, e, f)) (omega arith)
          | inl f ↦
              reported count r (read_loop env conf ctx count start count [] s₁)
                (ground (arith, e, f))
                (subst (λ (n : ℕ). IsReported n (read_loop env conf ctx count start count [] s₁))
                  (omega arith) (read_loop-IsReported count start count [] s₁ small (omega arith)))
        ]
      ]
