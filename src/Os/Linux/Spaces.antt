-- ===== src/Os/Linux/Spaces.antt =====
-- libvmi/os/linux/memory.c: the search for a page directory on a well-formed ring of tasks.
use mathlib.Core.Path.{subst}
use libvmi.Common.{
  ℕ, zero, suc, ◌^◌, ◌<◌, false, not, ◌&&◌, ◌==◌, Bool-cases, List, [], ◌∷◌, length, Option, some,
  if◌then◌else◌, inl, inr, ◌≡◌, ◌≢◌, ap, sym, ◌∙◌, arith,
}
use libvmi.Types.{Status, success, failure, Conf}
use libvmi.Access.Env.{Env}
use libvmi.Access.Sized.{vmi_read_addr_va}
use libvmi.Os.Kernel.{as_int, add_addr, sub_addr, HasAddr, HasNone}
use libvmi.Os.Linux.{LinuxInstance, is_pgd, pgd_loop}
use libvmi.Os.Linux.Ring.{
  Task, find_pgd, address, IsRing, entry, tasks_at, sub_addr-entry, ring_small,
}

module _ {S : Type 0} (env : Env S) (conf : Conf) (kv2p : ℕ → ℕ → S → Status × ℕ × S)
    (os : LinuxInstance) (IsGood : S → Type 0) where
  abbrev pub Translates : ℕ → ℕ → Type 0
  Translates v p =
      (out : ℕ) (s : S) → IsGood s → (s' : S) × (kv2p v out s ≡ (success, p, s')) × IsGood s'

  -- A translation that fails, which leaves 0 in *paddr.
  abbrev pub IsUnmapped : ℕ → Type 0
  IsUnmapped v =
      (v < 2 ^ 64)
      × ((out : ℕ) (s : S) → IsGood s → (s' : S) × (kv2p v out s ≡ (failure, 0, s')) × IsGood s')

  -- A user process: its page directory can be read and translated.
  abbrev pub IsUser : Task → Type 0
  IsUser t =
      (t.mm ≢ 0)
      × HasAddr env conf IsGood (add_addr t.addr (as_int os.mm_offset)) t.mm
      × HasAddr env conf IsGood (add_addr t.mm (as_int os.pgd_offset)) t.pgd
      × Translates t.pgd t.dtb

  -- The address space of a task. A thread of the kernel has none, and nothing can be read at the
  -- offset of pgd in a memory descriptor at 0; a physical address is no address of the kernel.
  abbrev pub IsSpace : Task → Type 0
  IsSpace t =
      HasAddr env conf IsGood (add_addr t.addr (as_int os.mm_offset)) t.mm
      × (t.mm ≡ 0 → HasNone env conf IsGood (add_addr t.mm (as_int os.pgd_offset)))
      × (t.mm ≢ 0
          → HasAddr env conf IsGood (add_addr t.mm (as_int os.pgd_offset)) t.pgd
            × Translates t.pgd t.dtb
            × IsUnmapped t.dtb)

  abbrev pub AreSpaces : List Task → Type 0
  AreSpaces [] = Unit {0}
  AreSpaces (t ∷ ts) = IsSpace t × AreSpaces ts

  module _ (pgd : ℕ) (not_low : is_pgd pgd 0 ≡ false) (low : IsUnmapped 0) where
    abbrev loop : ℕ → ℕ → ℕ → ℕ → S → Option (ℕ × S)
    loop =
        pgd_loop env conf kv2p (tasks_at env conf os IsGood) (as_int os.mm_offset)
          (as_int os.pgd_offset) pgd

    -- What a round leaves in task_pgd.
    record Round (t : Task) (task_pgd : ℕ) (s : S) : Type 0 where
      held : ℕ
      after : S
      good : IsGood after
      unmapped : IsUnmapped held
      tested : is_pgd pgd held ≡ (not (t.mm == 0) && is_pgd pgd t.dtb)
      run :
          (head fuel : ℕ)
          → loop head (suc fuel) t.addr task_pgd s ≡ (
              let next = vmi_read_addr_va env conf (entry env conf os IsGood t) 0 t.addr after in
              let addr' = sub_addr next.1 (tasks_at env conf os IsGood) in
              if is_pgd pgd held
              then some (t.addr, after)
              else if head == addr'
              then some (0, next.2)
              else loop head fuel addr' held next.2)

    round_lem :
        (t : Task) (task_pgd : ℕ) (s : S)
        → IsSpace t
        → IsUnmapped task_pgd
        → IsGood s
        → Round t task_pgd s
    unfolding pgd_loop
    round_lem t task_pgd s (mm, thread, user) unmapped good =
        let (s₁, e₁, good₁) = mm 0 s good in
        elim (Bool-cases (t.mm == 0)) [
          | inl y ↦
              let (virt, s₂, e₂, at, good₂) =
                thread (ground (arith, y)) task_pgd s₁ unmapped.0 good₁ in
              let nowhere : IsUnmapped virt = elim at [
                | inl e ↦ subst IsUnmapped (sym e) unmapped
                | inr e ↦ subst IsUnmapped (sym e) low
              ] in
              let (s₃, e₃, good₃) = nowhere.1 virt s₂ good₂ in
              record {
                held = 0;
                after = s₃;
                good = good₃;
                unmapped = low;
                tested = ground (arith, y, not_low);
                run = λ head fuel. ground (arith, e₁, e₂, e₃);
              }
          | inr n ↦
              let (root, translated, dtb_unmapped) = user (ground (arith, n)) in
              let (s₂, e₂, good₂) = root task_pgd s₁ good₁ in
              let (s₃, e₃, good₃) = translated t.pgd s₂ good₂ in
              record {
                held = t.dtb;
                after = s₃;
                good = good₃;
                unmapped = dtb_unmapped;
                tested = ground (arith, n);
                run = λ head fuel. ground (arith, e₁, e₂, e₃);
              }
        ]

    module _ (first : Task) (first_small : first.addr < 2 ^ 64) where
      abbrev head : ℕ
      head = entry env conf os IsGood first

      -- Tasks whose entries differ stand at different addresses.
      apart : (u : Task) → entry env conf os IsGood u ≢ head → (first.addr == u.addr) ≡ false
      apart u other =
          let distinct : first.addr ≢ u.addr =
            λ e. other (ap (λ (a : ℕ). add_addr a (as_int os.tasks_offset)) (sym e)) in
          ground (arith, distinct)

      pub spaces_lem :
          (fuel : ℕ) (t : Task) (rest : List Task) (task_pgd : ℕ) (s : S)
          → IsRing env conf os IsGood head t rest
          → AreSpaces (t ∷ rest)
          → IsUnmapped task_pgd
          → length rest < fuel
          → IsGood s
          → (s' : S) × (loop first.addr fuel t.addr task_pgd s
              ≡ some (address (find_pgd pgd (t ∷ rest)), s'))
            × IsGood s'
      unfolding find_pgd
      spaces_lem zero t rest task_pgd s ring spaces unmapped enough good =
          absurd (omega (arith, enough))
      spaces_lem (suc fuel) t [] task_pgd s (task, link) (space, spaces) unmapped enough good =
          let r = round_lem t task_pgd s space unmapped good in
          let (s₂, e₂, good₂) = link t.addr r.after r.good in
          elim (Bool-cases (is_pgd pgd r.held)) [
            | inl y ↦ (r.after, r.run first.addr fuel ∙ ground (arith, y, r.tested), r.good)
            | inr n ↦ (
              s₂,
              r.run first.addr fuel
                  ∙ ground
                      (arith, n, e₂, r.tested, sub_addr-entry env conf os IsGood first first_small),
              good₂,
            )
          ]
      spaces_lem (suc fuel) t (u ∷ rest) task_pgd s (task, link, other, ring) (space, spaces)
            unmapped enough good =
          let r = round_lem t task_pgd s space unmapped good in
          let (s₂, e₂, good₂) = link t.addr r.after r.good in
          let (s', e, good') =
            spaces_lem fuel u rest r.held s₂ ring spaces r.unmapped (omega (arith, enough)) good₂ in
          elim (Bool-cases (is_pgd pgd r.held)) [
            | inl y ↦ (r.after, r.run first.addr fuel ∙ ground (arith, y, r.tested), r.good)
            | inr n ↦ (
              s',
              r.run first.addr fuel
                  ∙ ground (
                    arith,
                    n,
                    e₂,
                    e,
                    r.tested,
                    apart u other,
                    sub_addr-entry env conf os IsGood u
                        (ring_small env conf os IsGood head u rest ring),
                  ),
              good',
            )
          ]
