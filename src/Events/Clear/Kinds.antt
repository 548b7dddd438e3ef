-- ===== src/Events/Clear/Kinds.antt =====
-- libvmi/events.c: what the end of each kind of event does to the handlers of an instance.
use libvmi.Common.{
  ℕ, zero, suc, ◌+◌, ◌^◌, ◌%◌, Bool, true, false, not, ◌&&◌, ◌==◌, ltb, leb, ◌<◌, none,
  if◌then◌else◌, if_elim, ==_iff, Bool-cases, Option-cases, ◌≡◌, ap, ◌∙◌, arith,
}
use libvmi.Types.{Status, success, failure}
use libvmi.Cache.Table.{GHashTable}
use libvmi.Events.{
  VmiEvent, EventDriver, EventConf, Vmi, Slot, on_interrupt, on_gfn, on_access, on_reg, on_msr,
  on_vcpu, on_type, handler, wants, memory, register, singlestep, interrupt, msr_any, access_key,
  intr_key, reg_key, check_vcpu, is_msr, is_success,
}
use libvmi.Types.{Status-cases}
use libvmi.Events.Clear.{
  clear_interrupt_event, clear_reg_event, clear_mem_event, clear_vcpus, vmi_shutdown_single_step,
  clear_singlestep_event, clear_single_event,
}

module _ (t : GHashTable ℕ ℕ ◌==◌) {D : Type 0} (driver : EventDriver D) (conf : EventConf) where
  -- A call returned `r` for the end of an event, which is `wanted` for a slot.
  abbrev pub IsClearedIf : Bool → Vmi t D → Status × Vmi t D → Slot → Type 0
  IsClearedIf wanted v r slot =
      handler t r.1 slot ≡ (if is_success r.0 && wanted then none else handler t v slot)

  abbrev pub IsCleared : Vmi t D → ℕ → Status × Vmi t D → Slot → Type 0
  IsCleared v event r slot = IsClearedIf (wants conf (v.heap event) slot) v r slot

  pub clear_interrupt_event_lem :
      (v : Vmi t D) (event : ℕ) (slot : Slot)
      → v.shutting_down ≡ false
      → (v.heap event).type ≡ interrupt
      → (v.heap event).intr_padding ≡ 0
      → IsCleared v event (clear_interrupt_event t driver conf v event) slot
  unfolding clear_interrupt_event handler wants
  clear_interrupt_event_lem v event (on_interrupt k) up typed fresh =
      let e = v.heap event in
      let found = Option-cases (t.lookup v.interrupt_events (intr_key e)) in
      let set = Status-cases (driver.set_intr_access e false v.driver).0 in
      ground
        (arith, up, typed, fresh, found, set, t.lookup-remove v.interrupt_events (intr_key e) k)
  clear_interrupt_event_lem v event slot up typed fresh =
      let e = v.heap event in
      let found = Option-cases (t.lookup v.interrupt_events (intr_key e)) in
      let set = Status-cases (driver.set_intr_access e false v.driver).0 in
      ground (arith, up, typed, fresh, found, set)

  pub clear_reg_event_lem :
      (v : Vmi t D) (event : ℕ) (slot : Slot)
      → v.shutting_down ≡ false
      → (v.heap event).type ≡ register
      → (is_msr (v.heap event) ≡ true → t.lookup v.reg_events msr_any ≡ none)
      → IsCleared v event (clear_reg_event t driver conf v event) slot
  unfolding clear_reg_event handler wants
  clear_reg_event_lem v event slot up typed own =
      let e = v.heap event in
      let set = Status-cases (driver.set_reg_access (record e { reg_in_access = 1 }) v.driver).0 in
      let found = Option-cases (t.lookup v.reg_events (reg_key e)) in
      let found_msr = Option-cases (t.lookup v.msr_events e.msr) in
      let same : e.reg ≡ msr_any
          → t.lookup v.reg_events (reg_key e) ≡ t.lookup v.reg_events msr_any =
        λ at. ap (t.lookup v.reg_events) (ap (λ (r : ℕ). r % 2 ^ 32) at) in
      elim slot as (λ (at : Slot). IsCleared v event (clear_reg_event t driver conf v event) at) [
        | on_reg k ↦ ground (
          arith,
          up,
          typed,
          own,
          same,
          set,
          found,
          found_msr,
          t.lookup-remove v.reg_events (reg_key e) k,
        )
        | on_msr k ↦ ground (
          arith,
          up,
          typed,
          own,
          same,
          set,
          found,
          found_msr,
          t.lookup-remove v.msr_events e.msr k,
        )
        | on_interrupt k ↦ ground (arith, typed, set, found, found_msr)
        | on_gfn k ↦ ground (arith, typed, set, found, found_msr)
        | on_access k ↦ ground (arith, typed, set, found, found_msr)
        | on_vcpu k ↦ ground (arith, typed, set, found, found_msr)
        | on_type k ↦ ground (arith, typed, set, found, found_msr)
      ]

  pub clear_mem_event_lem :
      (v : Vmi t D) (event : ℕ) (slot : Slot)
      → v.shutting_down ≡ false
      → (v.heap event).type ≡ memory
      → access_key (v.heap event) ≡ (v.heap event).in_access
      → IsCleared v event (clear_mem_event t driver conf v event) slot
  unfolding clear_mem_event handler wants
  clear_mem_event_lem v event slot up typed fresh =
      let e = v.heap event in
      let set = Status-cases (driver.set_mem_access e.gfn 1 e.slat_id v.driver).0 in
      elim slot as (λ (at : Slot). IsCleared v event (clear_mem_event t driver conf v event) at) [
        | on_gfn k ↦ ground (arith, up, typed, set, t.lookup-remove v.mem_events_on_gfn e.gfn k)
        | on_access k ↦
            ground
              (arith, up, typed, set, fresh, t.lookup-remove v.mem_events_generic (access_key e) k)
        | on_interrupt k ↦ ground (arith, typed, set)
        | on_reg k ↦ ground (arith, typed, set)
        | on_msr k ↦ ground (arith, typed, set)
        | on_vcpu k ↦ ground (arith, typed, set)
        | on_type k ↦ ground (arith, typed, set)
      ]

  pub clear_single_event_lem :
      (v : Vmi t D) (event : ℕ) (slot : Slot)
      → interrupt < (v.heap event).type
      → (v.heap event).type < 8
      → IsCleared v event (clear_single_event t driver conf (v.heap event).type v) slot
  unfolding clear_single_event handler wants
  clear_single_event_lem v event slot lo hi =
      let type = (v.heap event).type in
      let found = Option-cases (v.single type) in
      let set = Status-cases (driver.set_single type false v.driver).0 in
      elim slot
        as (λ (at : Slot).
          IsCleared v event (clear_single_event t driver conf (v.heap event).type v) at) [
            | on_type k ↦ ground (arith, lo, hi, found, set)
            | on_gfn k ↦ ground (arith, lo, found, set)
            | on_access k ↦ ground (arith, lo, found, set)
            | on_interrupt k ↦ ground (arith, lo, found, set)
            | on_reg k ↦ ground (arith, lo, found, set)
            | on_msr k ↦ ground (arith, lo, found, set)
            | on_vcpu k ↦ ground (arith, lo, found, set)
          ]

  -- The driver stops single-stepping whatever vcpu it is asked to.
  abbrev pub IsStopping : Type 0
  IsStopping = (vcpu : ℕ) (d : D) → (driver.stop_single_step vcpu d).0 ≡ success

  abbrev Loop : Type 0
  Loop = Status × t.Table × D

  clear_vcpus_lem :
      (down : Bool)
      → down ≡ false
      → IsStopping
      → (e : VmiEvent) (n vcpu k : ℕ) (r : Loop)
      → let (rc, table, d) = clear_vcpus t driver conf down e n vcpu r in
        (t.lookup table k
          ≡ (if leb vcpu k && ltb k (vcpu + n) && check_vcpu e k then none else t.lookup r.1 k))
        × (r.0 ≡ success → rc ≡ success)
        × (leb vcpu k && ltb k (vcpu + n) && check_vcpu e k ≡ true → rc ≡ success)
  unfolding clear_vcpus
  clear_vcpus_lem down up stops e zero vcpu k r =
      (ground arith, λ done. done, λ wanted. ground arith)
  clear_vcpus_lem down up stops e (suc n) vcpu k (rc, table, d) =
      let (stopped, d') = driver.stop_single_step vcpu d in
      let kept = if not down && is_success stopped then (t.remove table vcpu).1 else table in
      let next : Loop = if check_vcpu e vcpu then (stopped, kept, d') else (rc, table, d) in
      let (after, going, on) = clear_vcpus_lem down up stops e n (vcpu + 1) k next in
      let bit : (vcpu == k) ≡ true → check_vcpu e vcpu ≡ check_vcpu e k =
        λ at. ap (check_vcpu e) ((==_iff vcpu k).0 at) in
      let stop = stops vcpu d in
      let bits = Bool-cases (check_vcpu e vcpu) in
      (
        ground (arith, up, after, stop, bits, bit, t.lookup-remove table vcpu k),
        λ done. going (ground (arith, up, done, stop, bits)),
        λ wanted. ground (arith, up, wanted, stop, bits, bit, going, on),
      )

  shutdown_lem :
      (v : Vmi t D) (slot : Slot)
      → t.size v.ss_events ≡ 0
      → handler t (vmi_shutdown_single_step t driver conf v).1 slot ≡ handler t v slot
  unfolding vmi_shutdown_single_step handler
  shutdown_lem v slot empty =
      let set = Status-cases (driver.shutdown_single_step v.driver).0 in
      elim slot
        as (λ (at : Slot).
          handler t (vmi_shutdown_single_step t driver conf v).1 at ≡ handler t v at) [
            | on_vcpu k ↦ ground (arith, set, t.lookup-empty v.ss_events k empty, t.lookup-new k)
            | on_type k ↦ ground (arith, set)
            | on_gfn k ↦ ground (arith, set)
            | on_access k ↦ ground (arith, set)
            | on_interrupt k ↦ ground (arith, set)
            | on_reg k ↦ ground (arith, set)
            | on_msr k ↦ ground (arith, set)
          ]

  stopped_lem :
      (v : Vmi t D) (event : ℕ) (slot : Slot)
      → IsStopping
      → v.shutting_down ≡ false
      → (v.heap event).type ≡ singlestep
      → let (rc, table, d) =
          clear_vcpus t driver conf v.shutting_down
            (v.heap event)
            conf.num_vcpus
            0
            (failure, v.ss_events, v.driver) in
        IsCleared v event (rc, record v { ss_events = table; driver = d }) slot
  unfolding handler wants
  stopped_lem v event (on_vcpu k) stops up typed =
      let (after, going, on) =
        clear_vcpus_lem v.shutting_down up stops (v.heap event) conf.num_vcpus 0 k
          (failure, v.ss_events, v.driver) in
      ground (arith, after, on, typed)
  stopped_lem v event slot stops up typed = ground (arith, typed)

  pub clear_singlestep_event_lem :
      (v : Vmi t D) (event : ℕ) (slot : Slot)
      → IsStopping
      → v.shutting_down ≡ false
      → (v.heap event).type ≡ singlestep
      → IsCleared v event (clear_singlestep_event t driver conf v event) slot
  unfolding clear_singlestep_event
  clear_singlestep_event_lem v event slot stops up typed =
      let e = v.heap event in
      let r =
        clear_vcpus t driver conf v.shutting_down e conf.num_vcpus 0
          (failure, v.ss_events, v.driver) in
      let v' = record v { ss_events = r.1; driver = r.2 } in
      if_elim (λ (r : Status × Vmi t D). IsCleared v event r slot) (t.size r.1 == 0)
        (r.0, (vmi_shutdown_single_step t driver conf v').1) (r.0, v')
        (λ none_left.
          shutdown_lem v' slot (ground (arith, none_left))
          ∙ stopped_lem v event slot stops up typed)
        (λ some_left. stopped_lem v event slot stops up typed)
