-- ===== src/Events/Memory.antt =====
-- libvmi/events.c: the swap of memory events, permissions of pages, single steps of one vcpu, and
-- the handlers that the drivers look up.
use libvmi.Common.{
  ℕ, zero, suc, ◌-◌, ◌^◌, ◌%◌, bit_and, bit_or, Bool, false, not, ◌&&◌, ◌||◌, ◌==◌, [], ◌∷◌, ◌++◌,
  Option, none, some, if◌then◌else◌,
}
use libvmi.Types.{Status, success, failure}
use libvmi.Cache.Table.{GHashTable, is_some}
use libvmi.Events.{EventDriver, EventConf, SwapWrapper, Vmi, memory}
use libvmi.Events.Register.{raised}
use libvmi.Events.Clear.{is_queued}

-- combine_mem_access: VMI_MEMACCESS_INVALID is 0, _N is 1, _W2X is 16, and _RWX2N is 32.
unfoldable pub combine_mem_access : ℕ → ℕ → ℕ
combine_mem_access base add =
    if add == base
    then base
    else if add == 1
    then base
    else if base == 1
    then add
    else if add == 16 || add == 32
    then 0
    else if base == 16 || base == 32
    then 0
    else bit_or base add

module _ (t : GHashTable ℕ ℕ ◌==◌) where
  -- The loop of vmi_set_mem_event over the keys, which are below `n`: an in_access has eight bits.
  unfoldable pub handler_found : t.Table → ℕ → ℕ → Bool
  handler_found table access zero = false
  handler_found table access (suc n) =
      (is_some (t.lookup table n) && not (bit_and n access == 0)) || handler_found table access n

module _ (t : GHashTable ℕ ℕ ◌==◌) {D : Type 0} where
  unfoldable pub vmi_get_reg_event : Vmi t D → ℕ → Option ℕ
  vmi_get_reg_event v reg = t.lookup v.reg_events (reg % 2 ^ 32)

  -- `word` is the 32 bits at the address of the argument `access`.
  unfoldable pub vmi_get_mem_event : Vmi t D → ℕ → ℕ → Option ℕ
  vmi_get_mem_event v gfn word = elim (t.lookup v.mem_events_generic word) [
    | some event ↦ some event
    | none ↦ t.lookup v.mem_events_on_gfn gfn
  ]

  unfoldable pub vmi_get_singlestep_event : Vmi t D → ℕ → Option ℕ
  vmi_get_singlestep_event v vcpu = t.lookup v.ss_events vcpu

  -- The event of a pointer with another set of vcpus.
  unfoldable pub with_vcpus : Vmi t D → ℕ → ℕ → Vmi t D
  with_vcpus v event vcpus = record v {
    heap = λ p. if p == event then record (v.heap event) { vcpus = vcpus } else v.heap p;
  }

  -- SET_VCPU_SINGLESTEP and UNSET_VCPU_SINGLESTEP
  unfoldable pub set_vcpu : Vmi t D → ℕ → ℕ → Vmi t D
  set_vcpu v event vcpu = with_vcpus v event (bit_or (v.heap event).vcpus (2 ^ (vcpu % 32)))

  unfoldable pub unset_vcpu : Vmi t D → ℕ → ℕ → Vmi t D
  unset_vcpu v event vcpu =
      with_vcpus v event (bit_and (v.heap event).vcpus (2 ^ 32 - 1 - 2 ^ (vcpu % 32)))

  module _ (driver : EventDriver D) (conf : EventConf) where
    unfoldable pub vmi_set_mem_event : Vmi t D → ℕ → ℕ → ℕ → Status × Vmi t D
    vmi_set_mem_event v gfn access slat_id =
        let (rc, d) = driver.set_mem_access gfn access slat_id v.driver in
        if not (access == 1) && not (handler_found t v.mem_events_generic access 256)
        then (failure, v)
        else (elim rc [
          | failure ↦ (failure, record v { driver = d })
          | success ↦ (
            success,
            record v {
              driver = d;
              max_physical_address = raised t driver conf v.max_physical_address gfn;
            },
          )
        ])

    -- The last part of swap_events, with the state of the driver.
    unfoldable pub replaced : Vmi t D → ℕ → ℕ → ℕ → D → Status × Vmi t D
    replaced v from to free_routine d =
        let e = v.heap to in
        let (rc, d') = driver.set_mem_access e.gfn e.in_access e.slat_id d in
        elim rc [
          | failure ↦ (failure, record v { driver = d' })
          | success ↦ (
            success,
            record v {
              driver =
                  if free_routine == 0
                  then d'
                  else driver.free_routine free_routine from success d';
              mem_events_on_gfn = t.insert v.mem_events_on_gfn e.gfn to;
            },
          )
        ]

    unfoldable pub swap_events : Vmi t D → ℕ → ℕ → ℕ → Status × Vmi t D
    swap_events v from to free_routine =
        let e = v.heap from in
        let (rc, d) = driver.set_mem_access e.gfn 1 e.slat_id v.driver in
        if e.slat_id == (v.heap to).slat_id
        then replaced v from to free_routine v.driver
        else (elim rc [
          | failure ↦ (failure, record v { driver = d })
          | success ↦ replaced v from to free_routine d
        ])

    unfoldable pub vmi_swap_events : Vmi t D → ℕ → ℕ → ℕ → Status × Vmi t D
    vmi_swap_events v from to free_routine =
        let e = v.heap from in
        let wrapper : SwapWrapper = record {
          swap_from = from;
          swap_to = to;
          free_routine = free_routine;
        } in
        if from == 0 || to == 0
        then (failure, v)
        else if not (e.type == (v.heap to).type && e.type == memory)
        then (failure, v)
        else if not (is_some (t.lookup v.mem_events_on_gfn e.gfn))
        then (failure, v)
        else if v.event_callback
        then (if is_queued v.swap_events from
            then (failure, v)
            else (success, record v { swap_events = v.swap_events ++ wrapper ∷ [] }))
        else swap_events v from to free_routine

    unfoldable pub vmi_stop_single_step_vcpu : Vmi t D → ℕ → ℕ → Status × Vmi t D
    vmi_stop_single_step_vcpu v event vcpu =
        let v' = unset_vcpu v event vcpu in
        let (rc, d) = driver.stop_single_step vcpu v.driver in
        if event == 0 || not conf.init_events
        then (failure, v)
        else (rc, record v' { ss_events = (t.remove v.ss_events vcpu).1; driver = d })

    -- The branch of vmi_toggle_single_step_vcpu for `enabled`: the handler is replaced where there is
    -- one, with failure.
    unfoldable pub toggle_on : Vmi t D → ℕ → ℕ → Status × Vmi t D
    toggle_on v event vcpu =
        let v' = set_vcpu v event vcpu in
        let (rc, d) = driver.start_single_step (v'.heap event).vcpus v.driver in
        let v'' = record v' { ss_events = t.insert v.ss_events vcpu event } in
        if is_some (t.lookup v.ss_events vcpu)
        then (failure, v'')
        else (rc, record v'' { driver = d })

    unfoldable pub toggle_off : Vmi t D → ℕ → ℕ → Status × Vmi t D
    toggle_off v event vcpu =
        let v' = unset_vcpu v event vcpu in
        let (rc, d) = driver.stop_single_step vcpu v.driver in
        let (found, table) = t.remove v.ss_events vcpu in
        let v'' = record v' { ss_events = table } in
        if not found then (failure, v'') else (rc, record v'' { driver = d })

    unfoldable pub vmi_toggle_single_step_vcpu : Vmi t D → ℕ → ℕ → Bool → Status × Vmi t D
    vmi_toggle_single_step_vcpu v event vcpu enabled =
        if event == 0 || not conf.init_events || v.event_callback
        then (failure, v)
        else if enabled
        then toggle_on v event vcpu
        else toggle_off v event vcpu
