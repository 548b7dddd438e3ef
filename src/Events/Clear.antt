-- ===== src/Events/Clear.antt =====
-- libvmi/events.c: the end of events, at once or, in an event callback, put off.
pub mod Kinds
pub mod Laws
use libvmi.Common.{
  ℕ, zero, suc, ◌+◌, Bool, true, false, not, ◌&&◌, ◌||◌, ◌==◌, ltb, List, [], ◌∷◌, Option, none,
  some, if◌then◌else◌,
}
use libvmi.Types.{Status, success, failure}
use libvmi.Cache.Table.{GHashTable, is_some}
use libvmi.Events.{
  VmiEvent, EventDriver, EventConf, SwapWrapper, Vmi, memory, register, singlestep, interrupt,
  guest_request, debug_exception, msr_any, access_key, intr_key, reg_key, check_vcpu, is_success,
}

-- 1 for the same event, 0 for another one.
unfoldable pub swap_search_from : SwapWrapper → ℕ → ℕ
swap_search_from w event = if w.swap_from == event then 1 else 0

-- g_slist_find_custom with it: whether it gives 0 for an element.
unfoldable pub is_queued : List SwapWrapper → ℕ → Bool
is_queued [] event = false
is_queued (w ∷ ws) event = (swap_search_from w event == 0) || is_queued ws event

module _ (t : GHashTable ℕ ℕ ◌==◌) {D : Type 0} (driver : EventDriver D) (conf : EventConf) where
  unfoldable pub clear_interrupt_event : Vmi t D → ℕ → Status × Vmi t D
  clear_interrupt_event v event =
      let e = v.heap event in
      let (rc, d) = driver.set_intr_access e false v.driver in
      if is_some (t.lookup v.interrupt_events (intr_key e))
      then (
        rc,
        record v {
          driver = d;
          interrupt_events =
              if not v.shutting_down && is_success rc
              then (t.remove v.interrupt_events (intr_key e)).1
              else v.interrupt_events;
        },
      )
      else (failure, v)

  -- The driver gets the event with VMI_REGACCESS_N, which is taken back afterwards.
  unfoldable pub clear_reg_event : Vmi t D → ℕ → Status × Vmi t D
  clear_reg_event v event =
      let e = v.heap event in
      let (rc, d) = driver.set_reg_access (record e { reg_in_access = 1 }) v.driver in
      let gone = not v.shutting_down && is_success rc in
      if is_some (t.lookup v.reg_events (reg_key e))
      then (
        rc,
        record v {
          driver = d;
          reg_events = if gone then (t.remove v.reg_events (reg_key e)).1 else v.reg_events;
        },
      )
      else if e.reg == msr_any && not (e.msr == 0) && is_some (t.lookup v.msr_events e.msr)
      then (
        rc,
        record v {
          driver = d;
          msr_events = if gone then (t.remove v.msr_events e.msr).1 else v.msr_events;
        },
      )
      else (failure, v)

  unfoldable pub clear_mem_event : Vmi t D → ℕ → Status × Vmi t D
  clear_mem_event v event =
      let e = v.heap event in
      let (rc, d) = driver.set_mem_access e.gfn 1 e.slat_id v.driver in
      if e.generic
      then (
        success,
        record v {
          mem_events_generic =
              if not v.shutting_down
              then (t.remove v.mem_events_generic (access_key e)).1
              else v.mem_events_generic;
        },
      )
      else (
        rc,
        record v {
          driver = d;
          mem_events_on_gfn =
              if not v.shutting_down && is_success rc
              then (t.remove v.mem_events_on_gfn e.gfn).1
              else v.mem_events_on_gfn;
        },
      )

  -- The loop of clear_singlestep_event, with `n` vcpus to go.
  unfoldable pub clear_vcpus : Bool → VmiEvent → ℕ → ℕ → Status × t.Table × D → Status × t.Table × D
  clear_vcpus down e zero vcpu r = r
  clear_vcpus down e (suc n) vcpu (rc, table, d) =
      let (stopped, d') = driver.stop_single_step vcpu d in
      let kept = if not down && is_success stopped then (t.remove table vcpu).1 else table in
      clear_vcpus down e n (vcpu + 1)
        (if check_vcpu e vcpu then (stopped, kept, d') else (rc, table, d))

  unfoldable pub vmi_shutdown_single_step : Vmi t D → Status × Vmi t D
  vmi_shutdown_single_step v =
      let (rc, d) = driver.shutdown_single_step v.driver in
      if not conf.init_events then (failure, v) else (elim rc [
        | success ↦ (success, record v { driver = d; ss_events = t.new })
        | failure ↦ (failure, record v { driver = d })
      ])

  unfoldable pub clear_singlestep_event : Vmi t D → ℕ → Status × Vmi t D
  clear_singlestep_event v event =
      let e = v.heap event in
      let (rc, table, d) =
        clear_vcpus v.shutting_down e conf.num_vcpus 0 (failure, v.ss_events, v.driver) in
      let v' = record v { ss_events = table; driver = d } in
      if t.size table == 0 then (rc, (vmi_shutdown_single_step v').1) else (rc, v')

  -- clear_guest_requested_event, clear_cpuid_event and clear_debug_event, whichever event is given.
  unfoldable pub clear_single_event : ℕ → Vmi t D → Status × Vmi t D
  clear_single_event type v =
      let (rc, d) = driver.set_single type false v.driver in
      if is_some (v.single type)
      then (elim rc [
        | success ↦
            (success, record v { driver = d; single = λ j. if type == j then none else v.single j })
        | failure ↦ (failure, record v { driver = d })
      ])
      else (failure, v)

  -- The switch of vmi_clear_event.
  unfoldable pub clear_now : Vmi t D → ℕ → Status × Vmi t D
  clear_now v event =
      let type = (v.heap event).type in
      if type == singlestep
      then clear_singlestep_event v event
      else if type == register
      then clear_reg_event v event
      else if type == interrupt
      then clear_interrupt_event v event
      else if type == memory
      then clear_mem_event v event
      else if ltb interrupt type && ltb type 8
      then clear_single_event type v
      else (failure, v)

  -- The value of a table's entry, NULL for none.
  abbrev pointer : Option ℕ → ℕ
  pointer none = 0
  pointer (some p) = p

  unfoldable pub vmi_clear_event : Vmi t D → ℕ → ℕ → Status × Vmi t D
  vmi_clear_event v event free_routine =
      let (rc, v') = clear_now v event in
      if not conf.init_events || event == 0
      then (failure, v)
      else if v.event_callback
      then (if is_queued v.swap_events event
          then (failure, v)
          else if pointer (t.lookup v.clear_events event) == 0
          then (success, record v { clear_events = t.insert v.clear_events event free_routine })
          else (failure, v))
      else if free_routine == 0
      then (rc, v')
      else (rc, record v' { driver = driver.free_routine free_routine event rc v'.driver })
