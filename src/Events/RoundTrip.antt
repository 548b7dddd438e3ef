-- ===== src/Events/RoundTrip.antt =====
-- libvmi/events.c: an event that is registered and then cleared.
use mathlib.Core.Path.{subst}
use libvmi.Common.{ℕ, Bool, true, false, ◌==◌, none, ◌≡◌, sym, ap, ◌∙◌, arith}
use libvmi.Types.{success}
use libvmi.Cache.Table.{GHashTable}
use libvmi.Events.{
  VmiEvent, EventDriver, EventConf, Vmi, Slot, on_reg, handler, wants, msr_any, access_key, is_msr,
  singlestep,
}
use libvmi.Events.Register.{
  vmi_register_event, register_reg_event, register_msr_event, register_mem_event,
  register_mem_event_generic, register_mem_event_on_gfn, register_singlestep_event,
  register_interrupt_event, register_single_event,
}
use libvmi.Types.{Status-cases}
use libvmi.Events.Register.Laws.{register_lem}
use libvmi.Events.Clear.{vmi_clear_event}
use libvmi.Events.Clear.Kinds.{IsStopping}
use libvmi.Events.Clear.Laws.{clear_lem}

module _ (t : GHashTable ℕ ℕ ◌==◌) {D : Type 0} (driver : EventDriver D) (conf : EventConf) where
  -- What a registration leaves alone.
  abbrev rest : Vmi t D → (ℕ → VmiEvent) × Bool × Bool
  rest v = (v.heap, v.event_callback, v.shutting_down)

  reg_lem : (v : Vmi t D) (event : ℕ) → rest (register_reg_event t driver conf v event).1 ≡ rest v
  unfolding register_reg_event register_msr_event
  reg_lem v event =
      let e = v.heap event in ground (arith, Status-cases (driver.set_reg_access e v.driver).0)

  intr_lem :
      (v : Vmi t D) (event : ℕ) → rest (register_interrupt_event t driver conf v event).1 ≡ rest v
  unfolding register_interrupt_event
  intr_lem v event =
      let e = v.heap event in
      ground (arith, Status-cases (driver.set_intr_access e true v.driver).0)

  mem_lem : (v : Vmi t D) (event : ℕ) → rest (register_mem_event t driver conf v event).1 ≡ rest v
  unfolding register_mem_event register_mem_event_generic register_mem_event_on_gfn
  mem_lem v event =
      let e = v.heap event in
      ground (arith, Status-cases (driver.set_mem_access e.gfn e.in_access e.slat_id v.driver).0)

  step_lem :
      (v : Vmi t D) (event : ℕ) → rest (register_singlestep_event t driver conf v event).1 ≡ rest v
  unfolding register_singlestep_event
  step_lem v event =
      let e = v.heap event in
      ground (arith, Status-cases (driver.start_single_step e.vcpus v.driver).0)

  single_lem :
      (v : Vmi t D) (event : ℕ)
      → rest (register_single_event t driver conf (v.heap event).type v event).1 ≡ rest v
  unfolding register_single_event
  single_lem v event =
      let e = v.heap event in
      ground (arith, Status-cases (driver.set_single e.type true v.driver).0)

  kept_lem : (v : Vmi t D) (event : ℕ) → rest (vmi_register_event t driver conf v event).1 ≡ rest v
  unfolding vmi_register_event
  kept_lem v event = ground (
    arith,
    reg_lem v event,
    intr_lem v event,
    mem_lem v event,
    step_lem v event,
    single_lem v event,
  )

  -- An event that is registered with success and then cleared with success, outside of an event
  -- callback and before the instance is shut down, leaves every slot with the handler that it had,
  -- whatever the slot. The conditions are those of the two calls: the output members of the event are
  -- zero, no event is registered for MSR_ANY if it is for an unnamed MSR, and the driver stops
  -- single-stepping each vcpu if it is a single-step event.
  pub vmi_clear_event-vmi_register_event :
      (v : Vmi t D) (event free_routine : ℕ) (slot : Slot)
      → v.event_callback ≡ false
      → v.shutting_down ≡ false
      → access_key (v.heap event) ≡ (v.heap event).in_access
      → (v.heap event).intr_padding ≡ 0
      → (is_msr (v.heap event) ≡ true → t.lookup v.reg_events msr_any ≡ none)
      → ((v.heap event).type ≡ singlestep → IsStopping t driver conf)
      → (vmi_register_event t driver conf v event).0 ≡ success
      → (vmi_clear_event t driver conf
          (vmi_register_event t driver conf v event).1
          event
          free_routine).0
        ≡ success
      → handler t
          (vmi_clear_event t driver conf
            (vmi_register_event t driver conf v event).1
            event
            free_routine).1
          slot
        ≡ handler t v slot
  unfolding handler wants
  vmi_clear_event-vmi_register_event v event free_routine slot outside up fresh fresh_intr own stops
        done done' =
      let v' = (vmi_register_event t driver conf v event).1 in
      let kept = kept_lem v event in
      let kept_heap = ap (λ (r : (ℕ → VmiEvent) × Bool × Bool). r.0) kept in
      let same = ap (λ (h : ℕ → VmiEvent). h event) kept_heap in
      let registered = register_lem t driver conf v event slot fresh fresh_intr in
      let any = register_lem t driver conf v event (on_reg msr_any) fresh fresh_intr in
      let cleared =
        clear_lem t driver conf v' event free_routine slot
          (ap (λ (r : (ℕ → VmiEvent) × Bool × Bool). r.1) kept ∙ outside)
          (ap (λ (r : (ℕ → VmiEvent) × Bool × Bool). r.2) kept ∙ up)
          (subst (λ (e : VmiEvent). access_key e ≡ e.in_access) (sym same) fresh)
          (ap (λ (e : VmiEvent). e.intr_padding) same ∙ fresh_intr)
          (λ msr.
            let msr' : is_msr (v.heap event) ≡ true = ap is_msr (sym same) ∙ msr in
            ground (arith, any.0, own msr', msr'))
          (λ typed. stops (ap (λ (e : VmiEvent). e.type) (sym same) ∙ typed)) in
      ground
        (arith, registered, cleared, done, done', ap (λ (e : VmiEvent). wants conf e slot) same)
