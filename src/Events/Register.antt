-- ===== src/Events/Register.antt =====
-- libvmi/events.c: the registration of events.
pub mod Kinds
pub mod Laws
use libvmi.Common.{
  ℕ, zero, suc, ◌+◌, ◌-◌, ◌*◌, ◌/◌, ◌^◌, ◌%◌, Bool, true, false, not, ◌&&◌, ◌||◌, ◌==◌, ltb, Option,
  none, some, if◌then◌else◌,
}
use libvmi.Types.{Status, success, failure}
use libvmi.Cache.Table.{GHashTable, is_some}
use libvmi.Events.{
  VmiEvent, EventDriver, EventConf, Vmi, memory, register, singlestep, interrupt, events_version,
  msr_any, access_key, intr_key, reg_key, check_vcpu,
}

module _ (t : GHashTable ℕ ℕ ◌==◌) {D : Type 0} (driver : EventDriver D) (conf : EventConf) where
  unfoldable pub register_interrupt_event : Vmi t D → ℕ → Status × Vmi t D
  register_interrupt_event v event =
      let e = v.heap event in
      let (rc, d) = driver.set_intr_access e true v.driver in
      if is_some (t.lookup v.interrupt_events (intr_key e)) then (failure, v) else (elim rc [
        | failure ↦ (failure, record v { driver = d })
        | success ↦ (
          success,
          record v { driver = d; interrupt_events = t.insert v.interrupt_events e.intr event },
        )
      ])

  unfoldable pub register_msr_event : Vmi t D → ℕ → Status × Vmi t D
  register_msr_event v event =
      let e = v.heap event in
      let (rc, d) = driver.set_reg_access e v.driver in
      if is_some (t.lookup v.msr_events e.msr) then (failure, v) else (elim rc [
        | failure ↦ (failure, record v { driver = d })
        | success ↦
            (success, record v { driver = d; msr_events = t.insert v.msr_events e.msr event })
      ])

  unfoldable pub register_reg_event : Vmi t D → ℕ → Status × Vmi t D
  register_reg_event v event =
      let e = v.heap event in
      let (rc, d) = driver.set_reg_access e v.driver in
      if e.reg == msr_any && not (e.msr == 0)
      then register_msr_event v event
      else if is_some (t.lookup v.reg_events (reg_key e))
      then (failure, v)
      else (elim rc [
        | failure ↦ (failure, record v { driver = d })
        | success ↦
            (success, record v { driver = d; reg_events = t.insert v.reg_events (reg_key e) event })
      ])

  unfoldable pub register_mem_event_generic : Vmi t D → ℕ → Status × Vmi t D
  register_mem_event_generic v event =
      let e = v.heap event in
      if not (e.gfn == 2 ^ 64 - 1)
      then (failure, v)
      else if not (t.size v.mem_events_on_gfn == 0)
      then (failure, v)
      else if is_some (t.lookup v.mem_events_generic (access_key e))
      then (failure, v)
      else (
        success,
        record v { mem_events_generic = t.insert v.mem_events_generic e.in_access event },
      )

  -- What register_mem_event_on_gfn and vmi_set_mem_event do to max_physical_address.
  unfoldable pub raised : ℕ → ℕ → ℕ
  raised top gfn =
      if ltb (top / 2 ^ conf.page_shift) gfn then gfn * 2 ^ conf.page_shift % 2 ^ 64 else top

  unfoldable pub register_mem_event_on_gfn : Vmi t D → ℕ → Status × Vmi t D
  register_mem_event_on_gfn v event =
      let e = v.heap event in
      let (rc, d) = driver.set_mem_access e.gfn e.in_access e.slat_id v.driver in
      if e.in_access == 0
      then (failure, v)
      else if not (t.size v.mem_events_generic == 0)
      then (failure, v)
      else if is_some (t.lookup v.mem_events_on_gfn e.gfn)
      then (failure, v)
      else (elim rc [
        | failure ↦ (failure, record v { driver = d })
        | success ↦ (
          success,
          record v {
            driver = d;
            mem_events_on_gfn = t.insert v.mem_events_on_gfn e.gfn event;
            max_physical_address = raised v.max_physical_address e.gfn;
          },
        )
      ])

  unfoldable pub register_mem_event : Vmi t D → ℕ → Status × Vmi t D
  register_mem_event v event =
      if (v.heap event).generic
      then register_mem_event_generic v event
      else register_mem_event_on_gfn v event

  -- The first loop of register_singlestep_event, with `n` vcpus to go: whether it goes to `done`.
  unfoldable pub any_taken : t.Table → VmiEvent → ℕ → ℕ → Bool
  any_taken table e zero vcpu = false
  any_taken table e (suc n) vcpu =
      (check_vcpu e vcpu && is_some (t.lookup table vcpu)) || any_taken table e n (vcpu + 1)

  -- The second one.
  unfoldable pub insert_vcpus : t.Table → VmiEvent → ℕ → ℕ → ℕ → t.Table
  insert_vcpus table e event zero vcpu = table
  insert_vcpus table e event (suc n) vcpu =
      insert_vcpus (if check_vcpu e vcpu then t.insert table vcpu event else table) e event n
        (vcpu + 1)

  unfoldable pub register_singlestep_event : Vmi t D → ℕ → Status × Vmi t D
  register_singlestep_event v event =
      let e = v.heap event in
      let (rc, d) = driver.start_single_step e.vcpus v.driver in
      if any_taken v.ss_events e conf.num_vcpus 0 then (failure, v) else (elim rc [
        | failure ↦ (failure, record v { driver = d })
        | success ↦ (
          success,
          record v { driver = d; ss_events = insert_vcpus v.ss_events e event conf.num_vcpus 0 },
        )
      ])

  -- register_guest_requested_event, register_cpuid_event, ..., register_watch_domain_event, of which
  -- each has one pointer and one function of the driver.
  unfoldable pub register_single_event : ℕ → Vmi t D → ℕ → Status × Vmi t D
  register_single_event type v event =
      let (rc, d) = driver.set_single type true v.driver in
      if is_some (v.single type) then (failure, v) else (elim rc [
        | failure ↦ (failure, record v { driver = d })
        | success ↦ (
          success,
          record v { driver = d; single = λ j. if type == j then some event else v.single j },
        )
      ])

  -- The safety checks, for an instance that is not NULL.
  unfoldable pub is_registrable : Vmi t D → ℕ → Bool
  is_registrable v event =
      (conf.init_events || conf.init_domainwatch)
      && not (event == 0)
      && (v.heap event).version == events_version
      && (v.heap event).has_callback

  unfoldable pub vmi_register_event : Vmi t D → ℕ → Status × Vmi t D
  vmi_register_event v event =
      let type = (v.heap event).type in
      if not (is_registrable v event)
      then (failure, v)
      else if type == register
      then register_reg_event v event
      else if type == memory
      then register_mem_event v event
      else if type == singlestep
      then register_singlestep_event v event
      else if type == interrupt
      then register_interrupt_event v event
      else if ltb interrupt type && ltb type 12
      then register_single_event type v event
      else (failure, v)
