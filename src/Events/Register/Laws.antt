-- ===== src/Events/Register/Laws.antt =====
-- libvmi/events.c: what a registration does to the handlers of an instance.
use mathlib.Core.Path.{subst}
use libvmi.Common.{
  ℕ, ◌≤◌, Bool, true, not, ◌&&◌, ◌==◌, ltb, if_elim, ==_iff, Bool-cases, inl, inr, ◌≡◌, refl, sym,
  arith,
}
use libvmi.Types.{Status, failure}
use libvmi.Cache.Table.{GHashTable}
use libvmi.Events.{
  EventDriver, EventConf, Vmi, Slot, memory, register, singlestep, interrupt, access_key, is_msr,
  is_for, wants-is_for,
}
use libvmi.Events.Register.{
  register_msr_event, register_reg_event, register_mem_event_generic, register_mem_event_on_gfn,
  register_mem_event, is_registrable, vmi_register_event,
}
use libvmi.Events.Register.Kinds.{
  IsRegistered, IsRegisteredIf, register_interrupt_event_lem, register_msr_event_lem,
  register_reg_event_lem, register_mem_event_on_gfn_lem, register_mem_event_generic_lem,
  register_singlestep_event_lem, register_single_event_lem,
}

module _ (t : GHashTable ℕ ℕ ◌==◌) {D : Type 0} (driver : EventDriver D) (conf : EventConf) where
  mem_lem :
      (v : Vmi t D) (event : ℕ) (slot : Slot)
      → (v.heap event).type ≡ memory
      → access_key (v.heap event) ≡ (v.heap event).in_access
      → IsRegistered t driver conf v event (register_mem_event t driver conf v event) slot
  unfolding register_mem_event
  mem_lem v event slot typed fresh =
      if_elim (λ (r : Status × Vmi t D). IsRegistered t driver conf v event r slot)
        (v.heap event).generic (register_mem_event_generic t driver conf v event)
        (register_mem_event_on_gfn t driver conf v event)
        (λ every. register_mem_event_generic_lem t driver conf v event slot typed every fresh)
        (λ page. register_mem_event_on_gfn_lem t driver conf v event slot typed page)

  to_msr :
      (v : Vmi t D) (event : ℕ)
      → is_msr (v.heap event) ≡ true
      → register_reg_event t driver conf v event ≡ register_msr_event t driver conf v event
  unfolding register_reg_event
  to_msr v event msr = ground (arith, msr)

  reg_lem :
      (v : Vmi t D) (event : ℕ) (slot : Slot)
      → (v.heap event).type ≡ register
      → IsRegistered t driver conf v event (register_reg_event t driver conf v event) slot
  reg_lem v event slot typed = elim (Bool-cases (is_msr (v.heap event))) [
    | inr named ↦ register_reg_event_lem t driver conf v event slot typed named
    | inl msr ↦
        subst (λ (r : Status × Vmi t D). IsRegistered t driver conf v event r slot)
          (sym (to_msr v event msr)) (register_msr_event_lem t driver conf v event slot typed msr)
  ]

  -- The same with the bit test of the code, however many vcpus there are.
  pub register_lem :
      (v : Vmi t D) (event : ℕ) (slot : Slot)
      → access_key (v.heap event) ≡ (v.heap event).in_access
      → (v.heap event).intr_padding ≡ 0
      → IsRegistered t driver conf v event (vmi_register_event t driver conf v event) slot
  unfolding vmi_register_event
  register_lem v event slot fresh fresh_intr =
      let type = (v.heap event).type in
      let refused : IsRegistered t driver conf v event (failure, v) slot =
        (refl, λ wanted. ground (arith, wanted)) in
      let choose = if_elim (λ (r : Status × Vmi t D). IsRegistered t driver conf v event r slot) in
      let is = λ (k : ℕ) (at : (type == k) ≡ true). (==_iff type k).0 at in
      choose (not (is_registrable t driver conf v event)) _ _ (λ bad. refused)
        (λ good.
          choose (type == register) _ _ (λ at. reg_lem v event slot (is register at))
            (λ other.
              choose (type == memory) _ _ (λ at. mem_lem v event slot (is memory at) fresh)
                (λ other.
                  choose (type == singlestep) _ _
                    (λ at.
                      register_singlestep_event_lem t driver conf v event slot (is singlestep at))
                    (λ other.
                      choose (type == interrupt) _ _
                        (λ at.
                          register_interrupt_event_lem t driver conf v event slot (is interrupt at)
                            fresh_intr)
                        (λ other.
                          choose (ltb interrupt type && ltb type 12) _ _
                            (λ at.
                              register_single_event_lem t driver conf v event type slot refl
                                (ground (arith, at)) (ground (arith, at)))
                            (λ other. refused))))))

  -- A registration of an event whose output members are zero, as they are before the event occurs, on
  -- a guest of at most 32 vcpus: when it succeeds, each slot that the event is for had no handler and
  -- has the event for its handler afterwards, and every other slot keeps its handler; when it fails,
  -- every slot does. An event is for the slot of its interrupt, page, type of access, register or MSR,
  -- or of its type, and a single-step event for all of its vcpus.
  pub vmi_register_event-IsRegistered :
      (v : Vmi t D) (event : ℕ) (slot : Slot)
      → conf.num_vcpus ≤ 32
      → access_key (v.heap event) ≡ (v.heap event).in_access
      → (v.heap event).intr_padding ≡ 0
      → IsRegisteredIf t driver conf
          (is_for conf (v.heap event) slot)
          v
          event
          (vmi_register_event t driver conf v event)
          slot
  vmi_register_event-IsRegistered v event slot few fresh fresh_intr =
      subst
        (λ (b : Bool).
          IsRegisteredIf t driver conf b v event (vmi_register_event t driver conf v event) slot)
        (wants-is_for conf (v.heap event) slot few) (register_lem v event slot fresh fresh_intr)
