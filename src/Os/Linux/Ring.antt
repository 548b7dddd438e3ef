-- ===== src/Os/Linux/Ring.antt =====
-- libvmi/os/linux/memory.c: the searches on a well-formed ring of tasks, and on one that breaks off.
use libvmi.Common.{
  ℕ, zero, suc, ◌^◌, ◌<◌, not, ◌&&◌, ◌==◌, Bool-cases, List, [], ◌∷◌, length, Option, none, some,
  if◌then◌else◌, inl, inr, ◌≡◌, ◌≢◌, refl, arith,
}
use libvmi.Types.{Conf}
use libvmi.Access.Env.{Env}
use libvmi.Os.Kernel.{
  as_int, add_addr, sub_addr, sub_addr-add_addr, as_int-lt, add_addr-lt, Has32, HasAddr, HasNone,
  HasNone32,
}
use libvmi.Os.Linux.{LinuxInstance, is_pgd, pid_loop}

-- What stands in the guest for a task: its task_struct, its number, its memory descriptor, which is
-- 0 for a thread of the kernel, and the addresses of its page directory, virtual and physical.
pub record Task : Type 0 where
  pub addr : ℕ
  pub pid : ℕ
  pub mm : ℕ
  pub pgd : ℕ
  pub dtb : ℕ

-- The first task with a number, and the first with a page directory.
unfoldable pub find_pid : ℕ → List Task → Option Task
find_pid pid [] = none
find_pid pid (t ∷ ts) = if t.pid == pid then some t else find_pid pid ts

unfoldable pub find_pgd : ℕ → List Task → Option Task
find_pgd pgd [] = none
find_pgd pgd (t ∷ ts) = if not (t.mm == 0) && is_pgd pgd t.dtb then some t else find_pgd pgd ts

-- The address that a search gives, NULL when there is none.
abbrev pub address : Option Task → ℕ
address none = 0
address (some t) = t.addr

module _ {S : Type 0} (env : Env S) (conf : Conf) (os : LinuxInstance) (IsGood : S → Type 0) where
  abbrev pub tasks_at : ℕ
  tasks_at = as_int os.tasks_offset

  abbrev pub entry : Task → ℕ
  entry t = add_addr t.addr (as_int os.tasks_offset)

  abbrev pub IsTask : Task → Type 0
  IsTask t =
      (t.addr < 2 ^ 64)
      × (t.addr ≢ 0)
      × Has32 env conf IsGood (add_addr t.addr (as_int os.pid_offset)) t.pid

  -- The ring from one of its tasks on: the links lead from task to task, and the last one to the
  -- entry where the ring began.
  abbrev pub IsRing : ℕ → Task → List Task → Type 0
  IsRing head t [] = IsTask t × HasAddr env conf IsGood (entry t) head
  IsRing head t (u ∷ rest) =
      IsTask t × HasAddr env conf IsGood (entry t) (entry u) × (entry u ≢ head) × IsRing head u rest

  -- The tasks up to one from whose entry nothing can be read. Where that sets the link to 0, there is
  -- nothing to be read at 0 either, nor at the number of a task with its entry there.
  abbrev pub IsBroken : ℕ → Task → List Task → Type 0
  IsBroken head t [] =
      IsTask t
      × (t.pid < 2 ^ 32)
      × (entry t ≢ head)
      × (0 ≢ head)
      × HasNone env conf IsGood (entry t)
      × HasNone env conf IsGood 0
      × HasNone32 env conf IsGood
          (add_addr (sub_addr 0 (as_int os.tasks_offset)) (as_int os.pid_offset))
  IsBroken head t (u ∷ rest) =
      IsTask t
      × HasAddr env conf IsGood (entry t) (entry u)
      × (entry u ≢ head)
      × IsBroken head u rest

  pub sub_addr-entry : (u : Task) → u.addr < 2 ^ 64 → sub_addr (entry u) tasks_at ≡ u.addr
  sub_addr-entry u small = sub_addr-add_addr u.addr tasks_at small (as_int-lt _)

  pub ring_small : (head : ℕ) (u : Task) (rest : List Task) → IsRing head u rest → u.addr < 2 ^ 64
  ring_small head u [] ring = ring.0.0
  ring_small head u (v ∷ rest) ring = ring.0.0

  broken_small : (head : ℕ) (u : Task) (rest : List Task) → IsBroken head u rest → u.addr < 2 ^ 64
  broken_small head u [] broken = broken.0.0
  broken_small head u (v ∷ rest) broken = broken.0.0

  module _ (pid : ℕ) (head : ℕ) where
    abbrev pub loop : ℕ → ℕ → ℕ → ℕ → S → Option (ℕ × S)
    loop = pid_loop env conf tasks_at (as_int os.pid_offset) pid head

    pub loop_lem :
        (fuel : ℕ) (t : Task) (rest : List Task) (task_pid : ℕ) (s : S)
        → IsRing head t rest
        → length rest < fuel
        → IsGood s
        → (s' : S) × (loop fuel t.addr (entry t) task_pid s
            ≡ some (address (find_pid pid (t ∷ rest)), s'))
          × IsGood s'
    unfolding pid_loop find_pid
    loop_lem zero t rest task_pid s ring enough good = absurd (omega (arith, enough))
    loop_lem (suc fuel) t [] task_pid s ((small, real, number), link) enough good =
        let (s₁, e₁, good₁) = number task_pid s good in
        let (s₂, e₂, good₂) = link (entry t) s₁ good₁ in
        elim (Bool-cases (t.pid == pid)) [
          | inl y ↦ (s₁, ground (arith, e₁, y), good₁)
          | inr n ↦ (s₂, ground (arith, e₁, e₂, n), good₂)
        ]
    loop_lem (suc fuel) t (u ∷ rest) task_pid s ((small, real, number), link, other, ring) enough
          good =
        let (s₁, e₁, good₁) = number task_pid s good in
        let (s₂, e₂, good₂) = link (entry t) s₁ good₁ in
        let (s', e, good') = loop_lem fuel u rest t.pid s₂ ring (omega (arith, enough)) good₂ in
        elim (Bool-cases (t.pid == pid)) [
          | inl y ↦ (s₁, ground (arith, e₁, y), good₁)
          | inr n ↦ (
            s',
            ground (arith, e₁, e₂, n, other, e, sub_addr-entry u (ring_small head u rest ring)),
            good',
          )
        ]

    -- From a link to 0 the loop goes on with that link.
    zero_lem :
        (fuel task_pid : ℕ) (s : S)
        → (0 ≢ head)
        → HasNone env conf IsGood 0
        → HasNone32 env conf IsGood (add_addr (sub_addr 0 tasks_at) (as_int os.pid_offset))
        → task_pid ≢ pid
        → task_pid < 2 ^ 32
        → IsGood s
        → loop fuel (sub_addr 0 tasks_at) 0 task_pid s ≡ none
    unfolding pid_loop
    zero_lem zero task_pid s other stop no_task another small good = refl
    zero_lem (suc fuel) task_pid s other stop no_task another small good =
        let (s₁, e₁, good₁) = no_task task_pid s small good in
        let (v, s₂, e₂, at, good₂) = stop 0 s₁ (omega arith) good₁ in
        let nil : v ≡ 0 = elim at [ inl e ↦ e | inr e ↦ e ] in
        ground (
          arith,
          e₁,
          e₂,
          nil,
          other,
          another,
          zero_lem fuel task_pid s₂ other stop no_task another small good₂,
        )

    -- The last task of a list that breaks off is met again and again, or else the link to 0.
    stuck_lem :
        (fuel : ℕ) (t : Task) (task_pid : ℕ) (s : S)
        → IsBroken head t []
        → t.pid ≢ pid
        → IsGood s
        → loop fuel t.addr (entry t) task_pid s ≡ none
    unfolding pid_loop
    stuck_lem zero t task_pid s broken another good = refl
    stuck_lem (suc fuel) t task_pid s broken another good =
        let ((small, real, number), word, other, not_nil, stop, stop_nil, no_task) = broken in
        let (s₁, e₁, good₁) = number task_pid s good in
        let (v, s₂, e₂, at, good₂) = stop (entry t) s₁ (add_addr-lt t.addr _) good₁ in
        elim at [
          | inl same ↦ ground (
            arith,
            e₁,
            e₂,
            same,
            other,
            another,
            sub_addr-entry t small,
            stuck_lem fuel t t.pid s₂ broken another good₂,
          )
          | inr nil ↦ ground (
            arith,
            e₁,
            e₂,
            nil,
            not_nil,
            another,
            zero_lem fuel t.pid s₂ not_nil stop_nil no_task another word good₂,
          )
        ]

    pub broken_lem :
        (fuel : ℕ) (t : Task) (rest : List Task) (task_pid : ℕ) (s : S)
        → IsBroken head t rest
        → find_pid pid (t ∷ rest) ≡ none
        → IsGood s
        → loop fuel t.addr (entry t) task_pid s ≡ none
    unfolding find_pid pid_loop
    broken_lem fuel t [] task_pid s broken absent good =
        stuck_lem fuel t task_pid s broken (λ e. ground (arith, e, absent)) good
    broken_lem zero t (u ∷ rest) task_pid s broken absent good = refl
    broken_lem (suc fuel) t (u ∷ rest) task_pid s ((small, real, number), link, other, broken)
          absent good =
        let (s₁, e₁, good₁) = number task_pid s good in
        let (s₂, e₂, good₂) = link (entry t) s₁ good₁ in
        ground (
          arith,
          e₁,
          e₂,
          other,
          sub_addr-entry u (broken_small head u rest broken),
          broken_lem fuel u rest t.pid s₂ broken (ground (arith, absent)) good₂,
        )
