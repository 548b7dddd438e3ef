-- ===== src/Events/Clear/Laws.antt =====
-- libvmi/events.c: what the end of an event does to the handlers of an instance.
use mathlib.Core.Path.{subst}
use libvmi.Common.{
  ◌≢◌, ◌≤◌, ℕ, Bool, true, false, not, ◌&&◌, ◌||◌, ◌==◌, ltb, none, if_elim, ==_iff, ◌≡◌, refl, ◌∙◌,
  arith,
}
use libvmi.Types.{Status, success}
use libvmi.Cache.Table.{GHashTable}
use libvmi.Events.{
  EventDriver, EventConf, Vmi, Slot, handler, memory, register, singlestep, interrupt, msr_any,
  access_key, on_access, is_msr, is_for, wants-is_for,
}
use libvmi.Events.Clear.{clear_mem_event, clear_now, vmi_clear_event}
use libvmi.Events.Clear.Kinds.{
  IsCleared, IsClearedIf, IsStopping, clear_interrupt_event_lem, clear_reg_event_lem,
  clear_mem_event_lem, clear_single_event_lem, clear_singlestep_event_lem,
}

module _ (t : GHashTable ℕ ℕ ◌==◌) {D : Type 0} (driver : EventDriver D) (conf : EventConf) where
  clear_now-IsCleared :
      (v : Vmi t D) (event : ℕ) (slot : Slot)
      → v.shutting_down ≡ false
      → access_key (v.heap event) ≡ (v.heap event).in_access
      → (v.heap event).intr_padding ≡ 0
      → (is_msr (v.heap event) ≡ true → t.lookup v.reg_events msr_any ≡ none)
      → ((v.heap event).type ≡ singlestep → IsStopping t driver conf)
      → IsCleared t driver conf v event (clear_now t driver conf v event) slot
  unfolding clear_now
  clear_now-IsCleared v event slot up fresh fresh_intr own stops =
      let type = (v.heap event).type in
      let choose = if_elim (λ (r : Status × Vmi t D). IsCleared t driver conf v event r slot) in
      let is = λ (k : ℕ) (at : (type == k) ≡ true). (==_iff type k).0 at in
      choose (type == singlestep) _ _
        (λ at.
          clear_singlestep_event_lem t driver conf v event slot (stops (is singlestep at)) up
            (is singlestep at))
        (λ other.
          choose (type == register) _ _
            (λ at. clear_reg_event_lem t driver conf v event slot up (is register at) own)
            (λ other.
              choose (type == interrupt) _ _
                (λ at.
                  clear_interrupt_event_lem t driver conf v event slot up (is interrupt at)
                    fresh_intr)
                (λ other.
                  choose (type == memory) _ _
                    (λ at. clear_mem_event_lem t driver conf v event slot up (is memory at) fresh)
                    (λ other.
                      choose (ltb interrupt type && ltb type 8) _ _
                        (λ at.
                          clear_single_event_lem t driver conf v event slot (ground (arith, at))
                            (ground (arith, at)))
                        (λ other. refl)))))

  freed_lem :
      (v : Vmi t D) (d : D) (slot : Slot)
      → handler t (record v { driver = d }) slot ≡ handler t v slot
  unfolding handler
  freed_lem v d slot = ground arith

  -- What the end of an event does, with the bit test of the code.
  pub clear_lem :
      (v : Vmi t D) (event free_routine : ℕ) (slot : Slot)
      → v.event_callback ≡ false
      → v.shutting_down ≡ false
      → access_key (v.heap event) ≡ (v.heap event).in_access
      → (v.heap event).intr_padding ≡ 0
      → (is_msr (v.heap event) ≡ true → t.lookup v.reg_events msr_any ≡ none)
      → ((v.heap event).type ≡ singlestep → IsStopping t driver conf)
      → IsCleared t driver conf v event (vmi_clear_event t driver conf v event free_routine) slot
  unfolding vmi_clear_event
  clear_lem v event free_routine slot outside up fresh fresh_intr own stops =
      let cleared = clear_now-IsCleared v event slot up fresh fresh_intr own stops in
      let (rc, v') = clear_now t driver conf v event in
      let freed = freed_lem v' (driver.free_routine free_routine event rc v'.driver) slot in
      let choose = if_elim (λ (r : Status × Vmi t D). IsCleared t driver conf v event r slot) in
      choose (not conf.init_events || event == 0) _ _ (λ bad. refl)
        (λ good.
          choose v.event_callback _ _
            (λ inside. let bad : ⊥ = ground (arith, inside, outside) in elim bad [ ])
            (λ now. choose (free_routine == 0) _ _ (λ kept. cleared) (λ free. freed ∙ cleared)))

  -- The end of an event whose output members are zero, outside of an event callback and before the
  -- instance is shut down, on a guest of at most 32 vcpus: when it succeeds, each slot that the event
  -- is for has no handler, and every other one keeps its handler; when it fails, every slot does. For
  -- an event of an unnamed MSR this is so if no event is registered for MSR_ANY, and for a single-step
  -- event if the driver stops single-stepping each vcpu.
  pub vmi_clear_event-IsCleared :
      (v : Vmi t D) (event free_routine : ℕ) (slot : Slot)
      → conf.num_vcpus ≤ 32
      → v.event_callback ≡ false
      → v.shutting_down ≡ false
      → access_key (v.heap event) ≡ (v.heap event).in_access
      → (v.heap event).intr_padding ≡ 0
      → (is_msr (v.heap event) ≡ true → t.lookup v.reg_events msr_any ≡ none)
      → ((v.heap event).type ≡ singlestep → IsStopping t driver conf)
      → IsClearedIf t driver conf
          (is_for conf (v.heap event) slot)
          v
          (vmi_clear_event t driver conf v event free_routine)
          slot
  vmi_clear_event-IsCleared v event free_routine slot few outside up fresh fresh_intr own stops =
      subst
        (λ (b : Bool).
          IsClearedIf t driver conf b v (vmi_clear_event t driver conf v event free_routine) slot)
        (wants-is_for conf (v.heap event) slot few)
        (clear_lem v event free_routine slot outside up fresh fresh_intr own stops)

  -- The end of an event for a type of access, after its output members have been written: outside of
  -- an event callback, the call is a success, and the event stays the handler of what it was registered for.
  pub vmi_clear_event-stale :
      (v : Vmi t D) (event free_routine : ℕ)
      → conf.init_events ≡ true
      → event ≢ 0
      → v.event_callback ≡ false
      → (v.heap event).type ≡ memory
      → (v.heap event).generic ≡ true
      → access_key (v.heap event) ≢ (v.heap event).in_access
      → let slot = on_access (v.heap event).in_access in
        ((vmi_clear_event t driver conf v event free_routine).0 ≡ success)
        × (handler t (vmi_clear_event t driver conf v event free_routine).1 slot ≡ handler t v slot)
  unfolding vmi_clear_event clear_now clear_mem_event handler
  vmi_clear_event-stale v event free_routine on there outside typed every stale =
      let e = v.heap event in
      let gone = t.lookup-remove v.mem_events_generic (access_key e) e.in_access in
      (
        ground (arith, on, there, outside, typed, every),
        ground (arith, on, there, outside, typed, every, stale, gone),
      )
