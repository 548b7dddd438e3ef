-- ===== src/Os/Freebsd/Laws.antt =====
-- libvmi/os/freebsd/memory.c: processes and page directories on a well-formed list of processes.
use mathlib.Core.Path.{subst}
use libvmi.Common.{
  ℕ, zero, suc, ◌-◌, ◌^◌, ◌<◌, ◌==◌, Bool-cases, List, [], ◌∷◌, length, Option, none, some,
  if◌then◌else◌, inl, inr, ◌≡◌, ◌≢◌, refl, ap, ◌∙◌, arith,
}
use libvmi.Types.{Status, success, failure, Conf}
use libvmi.Access.Env.{Env}
use libvmi.Os.Kernel.{as_int, add_addr, Has32, HasAddr}
use libvmi.Os.Freebsd.{
  FreebsdInstance, pid_loop, pgd_loop, pgd_of_proc, freebsd_get_taskstruct_addr_from_pid,
  freebsd_get_taskstruct_addr_from_pgd, freebsd_pid_to_pgd, freebsd_pgd_to_pid,
}

-- What stands in the guest for a process: its struct proc, its number, its vmspace and the address
-- of its page directory.
pub record Proc : Type 0 where
  pub addr : ℕ
  pub pid : ℕ
  pub vmspace : ℕ
  pub root : ℕ

-- The first process whose `key` is `k`.
unfoldable pub find_proc : (Proc → ℕ) → ℕ → List Proc → Option Proc
find_proc key k [] = none
find_proc key k (t ∷ ts) = if key t == k then some t else find_proc key k ts

-- A status and the value of the variable: for a process its page directory or its number.
abbrev pub reply : {S : Type 0} → (Proc → ℕ) → ℕ → Option Proc → S → Status × ℕ × S
reply value old none s = (failure, old, s)
reply value old (some t) s = (success, value t, s)

abbrev address : Option Proc → ℕ
address none = 0
address (some t) = t.addr

module _ {S : Type 0} (env : Env S) (conf : Conf) (os : FreebsdInstance) (IsGood : S → Type 0) where
  abbrev root_at : ℕ
  root_at = add_addr (as_int os.pmap_offset) (as_int os.pgd_offset)

  abbrev pub IsProc : Proc → Type 0
  IsProc t =
      (t.addr ≢ 0)
      × Has32 env conf IsGood (add_addr t.addr (as_int os.pid_offset)) t.pid
      × HasAddr env conf IsGood (add_addr t.addr (as_int os.vmspace_offset)) t.vmspace
      × HasAddr env conf IsGood
          (add_addr t.vmspace (add_addr (as_int os.pmap_offset) (as_int os.pgd_offset))) t.root

  -- The list from one of its processes on: the first field of a struct proc is the link, and the
  -- last one is NULL.
  abbrev pub AreProcs : Proc → List Proc → Type 0
  AreProcs t [] = IsProc t × HasAddr env conf IsGood t.addr 0
  AreProcs t (u ∷ rest) = IsProc t × HasAddr env conf IsGood t.addr u.addr × AreProcs u rest

  head_real : (u : Proc) (rest : List Proc) → AreProcs u rest → u.addr ≢ 0
  head_real u [] list = list.0.0
  head_real u (v ∷ rest) list = list.0.0

  found_proc :
      (key : Proc → ℕ) (k : ℕ) (u : Proc) (us : List Proc) (t : Proc)
      → AreProcs u us
      → find_proc key k (u ∷ us) ≡ some t
      → IsProc t × (key t ≡ k)
  unfolding find_proc
  found_proc key k u [] t (proc, link) e = elim (Bool-cases (key u == k)) [
    | inl y ↦
        let same : u ≡ t = ground (arith, y, e) in
        let here : key u ≡ k = ground (arith, y) in
        (subst IsProc same proc, subst (λ v. key v ≡ k) same here)
    | inr n ↦ absurd (ground (arith, n, e))
  ]
  found_proc key k u (v ∷ us) t (proc, link, list) e = elim (Bool-cases (key u == k)) [
    | inl y ↦
        let same : u ≡ t = ground (arith, y, e) in
        let here : key u ≡ k = ground (arith, y) in
        (subst IsProc same proc, subst (λ v. key v ≡ k) same here)
    | inr n ↦ found_proc key k v us t list (ground (arith, n, e))
  ]

  pid_lem :
      (pid fuel : ℕ) (t : Proc) (rest : List Proc) (task_pid : ℕ) (s : S)
      → AreProcs t rest
      → length rest < fuel
      → IsGood s
      → (s' : S) × (pid_loop env conf (as_int os.pid_offset) pid fuel t.addr task_pid s
          ≡ some (address (find_proc (λ u. u.pid) pid (t ∷ rest)), s'))
        × IsGood s'
  unfolding pid_loop find_proc
  pid_lem pid zero t rest task_pid s list enough good = absurd (omega (arith, enough))
  pid_lem pid (suc fuel) t [] task_pid s ((real, number, space, root), link) enough good =
      let (s₁, e₁, good₁) = number task_pid s good in
      let (s₂, e₂, good₂) = link t.addr s₁ good₁ in
      elim (Bool-cases (t.pid == pid)) [
        | inl y ↦ (s₁, ground (arith, e₁, y), good₁)
        | inr n ↦ (s₂, ground (arith, e₁, e₂, n), good₂)
      ]
  pid_lem pid (suc fuel) t (u ∷ rest) task_pid s ((real, number, space, root), link, list) enough
        good =
      let (s₁, e₁, good₁) = number task_pid s good in
      let (s₂, e₂, good₂) = link t.addr s₁ good₁ in
      let (s', e, good') = pid_lem pid fuel u rest t.pid s₂ list (omega (arith, enough)) good₂ in
      elim (Bool-cases (t.pid == pid)) [
        | inl y ↦ (s₁, ground (arith, e₁, y), good₁)
        | inr n ↦ (s', ground (arith, e₁, e₂, n, e, head_real u rest list), good')
      ]

  pgd_lem :
      (pgd fuel : ℕ) (t : Proc) (rest : List Proc) (task_pgd : ℕ) (s : S)
      → AreProcs t rest
      → length rest < fuel
      → IsGood s
      → (s' : S) × (pgd_loop env conf (as_int os.vmspace_offset) root_at pgd fuel t.addr task_pgd s
          ≡ some (address (find_proc (λ u. u.root) pgd (t ∷ rest)), s'))
        × IsGood s'
  unfolding pgd_loop find_proc
  pgd_lem pgd zero t rest task_pgd s list enough good = absurd (omega (arith, enough))
  pgd_lem pgd (suc fuel) t [] task_pgd s ((real, number, space, root), link) enough good =
      let (s₁, e₁, good₁) = space 0 s good in
      let (s₂, e₂, good₂) = root task_pgd s₁ good₁ in
      let (s₃, e₃, good₃) = link t.addr s₂ good₂ in
      elim (Bool-cases (t.root == pgd)) [
        | inl y ↦ (s₂, ground (arith, e₁, e₂, y), good₂)
        | inr n ↦ (s₃, ground (arith, e₁, e₂, e₃, n), good₃)
      ]
  pgd_lem pgd (suc fuel) t (u ∷ rest) task_pgd s ((real, number, space, root), link, list) enough
        good =
      let (s₁, e₁, good₁) = space 0 s good in
      let (s₂, e₂, good₂) = root task_pgd s₁ good₁ in
      let (s₃, e₃, good₃) = link t.addr s₂ good₂ in
      let (s', e, good') = pgd_lem pgd fuel u rest t.root s₃ list (omega (arith, enough)) good₃ in
      elim (Bool-cases (t.root == pgd)) [
        | inl y ↦ (s₂, ground (arith, e₁, e₂, y), good₂)
        | inr n ↦ (s', ground (arith, e₁, e₂, e₃, n, e, head_real u rest list), good')
      ]

  module _ (init : Proc) (rest : List Proc) (list : AreProcs init rest) where
    -- On a well-formed list of processes, which ends with NULL, freebsd_pid_to_pgd ends within as
    -- many rounds as there are processes: it succeeds with the page directory of the first process
    -- that has the number, and fails, with *pgd as it was, if none has it. Every struct proc must
    -- not be at 0, and it and what it points to must be readable.
    pub freebsd_pid_to_pgd-find :
        (fuel pid pgd : ℕ) (s : S)
        → length rest < fuel
        → IsGood s
        → (s' : S) × (freebsd_pid_to_pgd env conf (some os) init.addr fuel pid pgd s
            ≡ some (reply (λ t. t.root) pgd (find_proc (λ t. t.pid) pid (init ∷ rest)) s'))
          × IsGood s'
    unfolding freebsd_pid_to_pgd freebsd_get_taskstruct_addr_from_pid pgd_of_proc
    freebsd_pid_to_pgd-find fuel pid pgd s enough good =
        let (s₁, e, good₁) = pid_lem pid fuel init rest (2 ^ 32 - 1) s list enough good in
        (elim (find_proc (λ t. t.pid) pid (init ∷ rest))
            as (λ o.
              find_proc (λ t. t.pid) pid (init ∷ rest) ≡ o
              → (s' : S) × (freebsd_pid_to_pgd env conf (some os) init.addr fuel pid pgd s
                  ≡ some (reply (λ t. t.root) pgd o s'))
                × IsGood s') [
                  | none ↦ λ is. (s₁, ground (arith, e, is), good₁)
                  | some t ↦ λ is.
                      let ((real, number, space, root), same) =
                        found_proc (λ t. t.pid) pid init rest t list is in
                      let (s₂, e₂, good₂) = space 0 s₁ good₁ in
                      let (s₃, e₃, good₃) = root pgd s₂ good₂ in
                      (s₃, ground (arith, e, is, real, e₂, e₃), good₃)
                ])
          refl

    pgd_to_pid_lem :
        (fuel pgd pid : ℕ) (s : S)
        → length rest < fuel
        → IsGood s
        → (s' : S) × (freebsd_pgd_to_pid env conf (some os) init.addr fuel pgd pid s
            ≡ some (reply (λ t. t.pid) pid (find_proc (λ t. t.root) pgd (init ∷ rest)) s'))
          × IsGood s'
    unfolding freebsd_pgd_to_pid freebsd_get_taskstruct_addr_from_pgd
    pgd_to_pid_lem fuel pgd pid s enough good =
        let (s₁, e, good₁) = pgd_lem pgd fuel init rest 0 s list enough good in
        (elim (find_proc (λ t. t.root) pgd (init ∷ rest))
            as (λ o.
              find_proc (λ t. t.root) pgd (init ∷ rest) ≡ o
              → (s' : S) × (freebsd_pgd_to_pid env conf (some os) init.addr fuel pgd pid s
                  ≡ some (reply (λ t. t.pid) pid o s'))
                × IsGood s') [
                  | none ↦ λ is. (s₁, ground (arith, e, is), good₁)
                  | some t ↦ λ is.
                      let ((real, number, space, root), same) =
                        found_proc (λ t. t.root) pgd init rest t list is in
                      let (s₂, e₂, good₂) = number pid s₁ good₁ in
                      (s₂, ground (arith, e, is, real, e₂), good₂)
                ])
          refl

    -- On such a list, for a number that some process has and whose first process is also the first
    -- with its page directory, freebsd_pid_to_pgd succeeds with an address from which
    -- freebsd_pgd_to_pid, called next, succeeds with the number: both then end within as many rounds
    -- as there are processes.
    pub freebsd_pgd_to_pid-freebsd_pid_to_pgd :
        (fuel pid pgd old : ℕ) (t : Proc) (s : S)
        → length rest < fuel
        → find_proc (λ u. u.pid) pid (init ∷ rest) ≡ some t
        → find_proc (λ u. u.root) t.root (init ∷ rest) ≡ some t
        → IsGood s
        → (s₁ s₂ : S) × (freebsd_pid_to_pgd env conf (some os) init.addr fuel pid pgd s
            ≡ some (success, t.root, s₁))
          × (freebsd_pgd_to_pid env conf (some os) init.addr fuel t.root old s₁
              ≡ some (success, pid, s₂))
          × IsGood s₂
    freebsd_pgd_to_pid-freebsd_pid_to_pgd fuel pid pgd old t s enough is is' good =
        let (s₁, e₁, good₁) = freebsd_pid_to_pgd-find fuel pid pgd s enough good in
        let (s₂, e₂, good₂) = pgd_to_pid_lem fuel t.root old s₁ enough good₁ in
        let number = found_proc (λ u. u.pid) pid init rest t list is in
        (
          s₁,
          s₂,
          e₁ ∙ ap (λ o. some (reply (λ u. u.root) pgd o s₁)) is,
          e₂
              ∙ ap (λ o. some (reply (λ u. u.pid) old o s₂)) is'
              ∙ ap (λ n. some (success, n, s₂)) number.1,
          good₂,
        )
