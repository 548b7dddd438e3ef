-- ===== src/Cache/Pid.antt =====
-- libvmi/cache.c: the cache from process ids to directory table bases.
use libvmi.Common.{ℕ, Option, none, some, ◌==◌, if◌then◌else◌, ◌≡◌, arith}
use libvmi.Types.{Status, success, failure}
use libvmi.Cache.Table.{GHashTable}

-- struct pid_cache_entry
pub record PidEntry : Type 0 where
  pub pid : ℕ
  pub dtb : ℕ

module _ (t : GHashTable ℕ PidEntry ◌==◌) where
  unfoldable pub pid_cache_init : t.Table
  pid_cache_init = t.new

  -- VMI_FAILURE is `none`.
  unfoldable pub pid_cache_get : t.Table → ℕ → Option ℕ
  pid_cache_get c pid = elim (t.lookup c pid) [ none ↦ none | some entry ↦ some entry.dtb ]

  unfoldable pub pid_cache_set : t.Table → ℕ → ℕ → t.Table
  pid_cache_set c pid dtb = t.insert c pid (record { pid = pid; dtb = dtb })

  unfoldable pub pid_cache_del : t.Table → ℕ → Status × t.Table
  pid_cache_del c pid =
      let (found, c') = t.remove c pid in ((if found then success else failure), c')

  unfoldable pub pid_cache_flush : t.Table → t.Table
  pid_cache_flush c = t.remove_all c

  -- After a set, the process has the new base and every other process the one it had.
  pub pid_cache_get-set :
      (c : t.Table) (pid dtb q : ℕ)
      → pid_cache_get (pid_cache_set c pid dtb) q
        ≡ (if pid == q then some dtb else pid_cache_get c q)
  unfolding pid_cache_get pid_cache_set
  pid_cache_get-set c pid dtb q =
      ground (arith, t.lookup-insert c pid (record { pid = pid; dtb = dtb }) q)

  -- A delete reports whether there was an entry, and removes that one alone.
  pub pid_cache_get-del :
      (c : t.Table) (pid q : ℕ)
      → ((pid_cache_del c pid).0
          ≡ (elim (pid_cache_get c pid) [ none ↦ failure | some dtb ↦ success ]))
        × (pid_cache_get (pid_cache_del c pid).1 q ≡ (if pid == q then none else pid_cache_get c q))
  unfolding pid_cache_get pid_cache_del
  pid_cache_get-del c pid q =
      (ground (arith, t.remove-found c pid), ground (arith, t.lookup-remove c pid q))
