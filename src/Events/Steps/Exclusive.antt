-- ===== src/Events/Steps/Exclusive.antt =====
-- libvmi/events.c: what holds of the handlers of memory events after any number of calls.
use libvmi.Common.{
  ltb, if◌then◌else◌, ◌&&◌, ℕ, Bool, true, false, ◌==◌, none, if_elim, inl, ◌≡◌, refl, arith,
}
use libvmi.Types.{Status, failure}
use libvmi.Cache.Table.{GHashTable, is_some}
use libvmi.Events.{
  memory, register, singlestep, interrupt, access_key, EventDriver, EventConf, Vmi, events_init,
}
use libvmi.Types.{Status-cases}
use libvmi.Events.Clear.{
  vmi_clear_event, clear_now, clear_mem_event, clear_interrupt_event, clear_reg_event,
  clear_single_event, clear_singlestep_event, clear_vcpus, vmi_shutdown_single_step,
}
use libvmi.Events.Memory.{
  vmi_set_mem_event, vmi_swap_events, swap_events, replaced, vmi_stop_single_step_vcpu,
  vmi_toggle_single_step_vcpu, toggle_on, toggle_off, set_vcpu, unset_vcpu, with_vcpus,
}
use libvmi.Events.Steps.{
  Step, registered, cleared, swapped, permitted, stopped, toggled, shut, elsewhere, Reachable,
  fresh, next, IsExclusive,
}
use libvmi.Events.Steps.Registration.{same_lem, pages, IsKept, either, register_lem}

module _ (t : GHashTable ℕ ℕ ◌==◌) {D : Type 0} (driver : EventDriver D) (conf : EventConf) where
  clear_reg_lem :
      (v : Vmi t D) (event : ℕ)
      → pages t driver conf (clear_reg_event t driver conf v event).1 ≡ pages t driver conf v
  unfolding clear_reg_event
  clear_reg_lem v event = ground (
    arith,
    Status-cases (driver.set_reg_access (record (v.heap event) { reg_in_access = 1 }) v.driver).0,
  )

  clear_intr_lem :
      (v : Vmi t D) (event : ℕ)
      → pages t driver conf (clear_interrupt_event t driver conf v event).1 ≡ pages t driver conf v
  unfolding clear_interrupt_event
  clear_intr_lem v event =
      ground (arith, Status-cases (driver.set_intr_access (v.heap event) false v.driver).0)

  clear_single_lem :
      (v : Vmi t D) (type : ℕ)
      → pages t driver conf (clear_single_event t driver conf type v).1 ≡ pages t driver conf v
  unfolding clear_single_event
  clear_single_lem v type = ground (arith, Status-cases (driver.set_single type false v.driver).0)

  shutdown_lem :
      (v : Vmi t D)
      → pages t driver conf (vmi_shutdown_single_step t driver conf v).1 ≡ pages t driver conf v
  unfolding vmi_shutdown_single_step
  shutdown_lem v = ground (arith, Status-cases (driver.shutdown_single_step v.driver).0)

  clear_step_lem :
      (v : Vmi t D) (event : ℕ)
      → pages t driver conf (clear_singlestep_event t driver conf v event).1 ≡ pages t driver conf v
  unfolding clear_singlestep_event
  clear_step_lem v event =
      let r =
        clear_vcpus t driver conf v.shutting_down (v.heap event) conf.num_vcpus 0
          (failure, v.ss_events, v.driver) in
      let v' = record v { ss_events = r.1; driver = r.2 } in
      if_elim (λ (q : Status × Vmi t D). pages t driver conf q.1 ≡ pages t driver conf v)
        (t.size r.1 == 0) (r.0, (vmi_shutdown_single_step t driver conf v').1) (r.0, v')
        (λ none_left. shutdown_lem v') (λ some_left. refl)

  clear_mem_lem :
      (v : Vmi t D) (event : ℕ)
      → IsExclusive t driver conf v
      → IsExclusive t driver conf (clear_mem_event t driver conf v event).1
  unfolding clear_mem_event
  clear_mem_lem v event exclusive gfn access =
      let e = v.heap event in
      ground (
        arith,
        exclusive gfn access,
        Status-cases (driver.set_mem_access e.gfn 1 e.slat_id v.driver).0,
        t.lookup-remove v.mem_events_on_gfn e.gfn gfn,
        t.lookup-remove v.mem_events_generic (access_key e) access,
      )

  clear_now_lem :
      (v : Vmi t D) (event : ℕ)
      → IsExclusive t driver conf v
      → IsKept t driver conf (clear_now t driver conf v event)
  unfolding clear_now
  clear_now_lem v event exclusive =
      let same = λ (v' : Vmi t D) (e : pages t driver conf v' ≡ pages t driver conf v).
        same_lem t driver conf v v' e exclusive in
      let type = (v.heap event).type in
      let refused : Status × Vmi t D = (failure, v) in
      let single = clear_single_event t driver conf type v in
      let last = if ltb interrupt type && ltb type 8 then single else refused in
      let mem = clear_mem_event t driver conf v event in
      let or_mem = if type == memory then mem else last in
      let intr = clear_interrupt_event t driver conf v event in
      let or_intr = if type == interrupt then intr else or_mem in
      let reg = clear_reg_event t driver conf v event in
      let or_reg = if type == register then reg else or_intr in
      let step = clear_singlestep_event t driver conf v event in
      either t driver conf (type == singlestep) step or_reg (same step.1 (clear_step_lem v event)) (
        either t driver conf (type == register) reg or_intr (same reg.1 (clear_reg_lem v event)) (
          either t driver conf (type == interrupt) intr or_mem
            (same intr.1 (clear_intr_lem v event))
            (either t driver conf (type == memory) mem last (clear_mem_lem v event exclusive) (
              either t driver conf (ltb interrupt type && ltb type 8) single refused
                (same single.1 (clear_single_lem v type)) exclusive))))

  clear_lem :
      (v : Vmi t D) (event free_routine : ℕ)
      → IsExclusive t driver conf v
      → IsExclusive t driver conf (vmi_clear_event t driver conf v event free_routine).1
  unfolding vmi_clear_event
  clear_lem v event free_routine exclusive gfn access =
      ground (arith, exclusive gfn access, clear_now_lem v event exclusive gfn access)

  replaced_lem :
      (v : Vmi t D) (from to free_routine gfn access other : ℕ) (d : D)
      → is_some (t.lookup v.mem_events_on_gfn other) ≡ true
      → IsExclusive t driver conf v
      → t.lookup (replaced t driver conf v from to free_routine d).1.mem_events_generic access
        ≡ none
  unfolding replaced
  replaced_lem v from to free_routine gfn access other d there exclusive =
      let e = v.heap to in
      ground (
        arith,
        there,
        exclusive other access,
        Status-cases (driver.set_mem_access e.gfn e.in_access e.slat_id d).0,
      )

  swap_lem :
      (v : Vmi t D) (from to free_routine : ℕ)
      → IsExclusive t driver conf v
      → IsExclusive t driver conf (vmi_swap_events t driver conf v from to free_routine).1
  unfolding vmi_swap_events swap_events
  swap_lem v from to free_routine exclusive gfn access =
      let e = v.heap from in
      let (rc, d) = driver.set_mem_access e.gfn 1 e.slat_id v.driver in
      ground (
        arith,
        exclusive gfn access,
        exclusive e.gfn access,
        Status-cases rc,
        replaced_lem v from to free_routine gfn access e.gfn v.driver,
        replaced_lem v from to free_routine gfn access e.gfn d,
      )

  set_mem_lem :
      (v : Vmi t D) (gfn access slat_id : ℕ)
      → pages t driver conf (vmi_set_mem_event t driver conf v gfn access slat_id).1
        ≡ pages t driver conf v
  unfolding vmi_set_mem_event
  set_mem_lem v gfn access slat_id =
      ground (arith, Status-cases (driver.set_mem_access gfn access slat_id v.driver).0)

  stop_lem :
      (v : Vmi t D) (event vcpu : ℕ)
      → pages t driver conf (vmi_stop_single_step_vcpu t driver conf v event vcpu).1
        ≡ pages t driver conf v
  unfolding vmi_stop_single_step_vcpu unset_vcpu with_vcpus
  stop_lem v event vcpu = ground arith

  toggle_lem :
      (v : Vmi t D) (event vcpu : ℕ) (enabled : Bool)
      → pages t driver conf (vmi_toggle_single_step_vcpu t driver conf v event vcpu enabled).1
        ≡ pages t driver conf v
  unfolding vmi_toggle_single_step_vcpu toggle_on toggle_off set_vcpu unset_vcpu with_vcpus
  toggle_lem v event vcpu enabled = ground arith

  Step-IsExclusive :
      (v v' : Vmi t D)
      → Step t driver conf v v'
      → IsExclusive t driver conf v
      → IsExclusive t driver conf v'
  Step-IsExclusive v v' (registered event) ok = register_lem t driver conf v event ok
  Step-IsExclusive v v' (cleared event free_routine) ok = clear_lem v event free_routine ok
  Step-IsExclusive v v' (swapped from to free_routine) ok = swap_lem v from to free_routine ok
  Step-IsExclusive v v' (permitted gfn access slat_id) ok =
      same_lem t driver conf v v' (set_mem_lem v gfn access slat_id) ok
  Step-IsExclusive v v' (stopped event vcpu) ok =
      same_lem t driver conf v v' (stop_lem v event vcpu) ok
  Step-IsExclusive v v' (toggled event vcpu enabled) ok =
      same_lem t driver conf v v' (toggle_lem v event vcpu enabled) ok
  Step-IsExclusive v v' shut ok = same_lem t driver conf v v' (shutdown_lem v) ok
  Step-IsExclusive v v' (elsewhere heap callback down d) ok = ok

  -- Whatever calls are made on an instance from its start on, in whatever order, and whatever the
  -- program and the driver do to the events between them: the instance never has both a handler of a
  -- single page and a handler of a type of access.
  pub Reachable-IsExclusive :
      (v : Vmi t D) → Reachable t driver conf v → IsExclusive t driver conf v
  unfolding events_init
  Reachable-IsExclusive v (fresh heap top d) = λ gfn access. inl (t.lookup-new gfn)
  Reachable-IsExclusive v (next reached step) =
      Step-IsExclusive _ v step (Reachable-IsExclusive _ reached)
