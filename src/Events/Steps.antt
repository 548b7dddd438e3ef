-- ===== src/Events/Steps.antt =====
-- libvmi/events.c: the calls that a program makes on an instance, in any order. What the drivers do with the
-- swaps and ends of events that are put off is not among them.
pub mod Registration
pub mod Exclusive
use libvmi.Common.{
  ℕ, zero, suc, Bool, true, false, not, ◌&&◌, ◌||◌, ◌==◌, ltb, Option, none, some, if◌then◌else◌,
  if_elim, Bool-cases, Option-cases, ◌⊎◌, inl, inr, ◌≡◌, refl, sym, ap, ◌∙◌, arith,
}
use libvmi.Types.{Status, success, failure}
use libvmi.Cache.Table.{GHashTable, is_some}
use libvmi.Events.{access_key, VmiEvent, EventDriver, EventConf, Vmi, Slot, events_init}
use libvmi.Events.Register.{
  vmi_register_event, register_reg_event, register_msr_event, register_mem_event,
  register_mem_event_generic, register_mem_event_on_gfn, register_singlestep_event,
  register_interrupt_event, register_single_event,
}
use libvmi.Types.{Status-cases}
use libvmi.Events.Clear.{
  vmi_clear_event, clear_now, clear_mem_event, clear_interrupt_event, clear_reg_event,
  clear_single_event, clear_singlestep_event, clear_vcpus, vmi_shutdown_single_step,
}
use libvmi.Events.Memory.{
  vmi_set_mem_event, vmi_swap_events, swap_events, replaced, vmi_stop_single_step_vcpu,
  vmi_toggle_single_step_vcpu, toggle_on, toggle_off, set_vcpu, unset_vcpu, with_vcpus,
}

module _ (t : GHashTable ℕ ℕ ◌==◌) {D : Type 0} (driver : EventDriver D) (conf : EventConf) where
  -- One call of the library. `elsewhere` is what else happens between two of them: the program and
  -- the driver write to events, events go and come, and callbacks begin and end.
  pub data Step (v : Vmi t D) : Vmi t D → Type 0 where
    registered : (event : ℕ) → Step v (vmi_register_event t driver conf v event).1
    cleared :
        (event free_routine : ℕ) → Step v (vmi_clear_event t driver conf v event free_routine).1
    swapped :
        (from to free_routine : ℕ) → Step v (vmi_swap_events t driver conf v from to free_routine).1
    permitted :
        (gfn access slat_id : ℕ) → Step v (vmi_set_mem_event t driver conf v gfn access slat_id).1
    stopped : (event vcpu : ℕ) → Step v (vmi_stop_single_step_vcpu t driver conf v event vcpu).1
    toggled :
        (event vcpu : ℕ) (enabled : Bool)
        → Step v (vmi_toggle_single_step_vcpu t driver conf v event vcpu enabled).1
    shut : Step v (vmi_shutdown_single_step t driver conf v).1
    elsewhere :
        (heap : ℕ → VmiEvent) (callback down : Bool) (d : D)
        → Step v
            (record v { heap = heap; event_callback = callback; shutting_down = down; driver = d })

  -- What an instance can be after calls from a fresh one.
  pub data Reachable : Vmi t D → Type 0 where
    fresh : (heap : ℕ → VmiEvent) (top : ℕ) (d : D) → Reachable (events_init t heap top d)
    next : {v v' : Vmi t D} → Reachable v → Step v v' → Reachable v'

  -- There are no handlers of single pages beside handlers of types of access.
  abbrev pub IsExclusive : Vmi t D → Type 0
  IsExclusive v =
      (gfn access : ℕ)
      → (t.lookup v.mem_events_on_gfn gfn ≡ none) ⊎ (t.lookup v.mem_events_generic access ≡ none)
