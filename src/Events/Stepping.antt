-- ===== src/Events/Stepping.antt =====
-- libvmi/events.c: vmi_step_event, which lets a vcpu go on for some instructions before an event is
-- registered again, and step_and_reg_events, the callback of the single-step event for that.
pub mod Laws
use libvmi.Common.{
  ℕ, zero, suc, ◌+◌, ◌-◌, ◌^◌, ◌%◌, Bool, true, false, not, ◌&&◌, ◌==◌, ltb, List, [], ◌∷◌, ◌++◌,
  Option, none, some, if◌then◌else◌,
}
use libvmi.Types.{Status, success, failure}
use libvmi.Cache.Table.{GHashTable, is_some}
use libvmi.Events.{VmiEvent, EventDriver, EventConf, Vmi, singlestep, events_version}
use libvmi.Events.Register.{vmi_register_event, register_singlestep_event}
use libvmi.Events.Clear.{vmi_clear_event}

-- step_and_reg_event_wrapper_t; a callback is a pointer, NULL being 0.
pub record StepWrapper : Type 0 where
  pub event : ℕ
  pub vcpu_id : ℕ
  pub steps : ℕ
  pub cb : ℕ

-- A copy of a list in reverse, which g_slist_prepend makes.
unfoldable pub prepend_all : List StepWrapper → List StepWrapper → List StepWrapper
prepend_all [] ws = ws
prepend_all (w ∷ rest) ws = prepend_all rest (w ∷ ws)

-- MAX_SINGLESTEP_VCPUS
abbrev pub max_singlestep_vcpus : ℕ
max_singlestep_vcpus = 32

module _ (t : GHashTable ℕ ℕ ◌==◌) (D : Type 0) where
  -- An instance with its members step_events and step_vcpus. The latter is an array of
  -- MAX_SINGLESTEP_VCPUS elements, and nothing tests an index: `in_bounds` says that none beyond it
  -- has been used so far. What the instance is afterwards is undefined.
  pub record Stepping : Type 0 where
    pub vmi : Vmi t D
    pub step_events : List StepWrapper
    pub step_vcpus : ℕ → ℕ
    pub in_bounds : Bool

-- `call cb event` is what a callback of the program does to the instance; `step_event_free` is the
-- address of that function.
module _ (t : GHashTable ℕ ℕ ◌==◌) {D : Type 0} (driver : EventDriver D) (conf : EventConf)
    (call : ℕ → ℕ → Stepping t D → Stepping t D) (step_event_free : ℕ) where
  -- An element of step_vcpus is used.
  unfoldable pub indexed : Stepping t D → ℕ → Stepping t D
  indexed s vcpu = record s { in_bounds = s.in_bounds && ltb vcpu max_singlestep_vcpus }

  unfoldable pub counted : Stepping t D → ℕ → ℕ → Stepping t D
  counted s vcpu n =
      let s' = indexed s vcpu in
      record s' { step_vcpus = λ k. if vcpu == k then n else s.step_vcpus k }

  -- The event that is set up for single steps of one vcpu, in memory that g_slice_new gave.
  unfoldable pub with_single_event : Stepping t D → ℕ → ℕ → Stepping t D
  with_single_event s single vcpu =
      let e : VmiEvent = record (s.vmi.heap single) {
        version = events_version;
        type = singlestep;
        has_callback = true;
        vcpus = 2 ^ (vcpu % 32);
      } in
      record s { vmi = record s.vmi { heap = λ p. if p == single then e else s.vmi.heap p } }

  -- What stands behind the checks: the event goes into the queue.
  unfoldable pub queued : Stepping t D → StepWrapper → Stepping t D
  queued s wrap =
      counted (record s { step_events = wrap ∷ s.step_events }) wrap.vcpu_id
        ((s.step_vcpus wrap.vcpu_id + 1) % 2 ^ 32)

  -- `single` is the address that g_slice_new gives.
  unfoldable pub vmi_step_event : Stepping t D → ℕ → StepWrapper → Status × Stepping t D
  vmi_step_event s single wrap =
      let vcpu = wrap.vcpu_id in
      let enabled = is_some (t.lookup s.vmi.ss_events vcpu) in
      let s₀ = if enabled then indexed s vcpu else s in
      let s₁ = with_single_event s single vcpu in
      let (rc, vmi) = register_singlestep_event t driver conf s₁.vmi single in
      let s₂ = record s₁ { vmi = vmi } in
      if ltb conf.num_vcpus vcpu
      then (failure, s)
      else if enabled && s.step_vcpus vcpu == 0
      then (failure, s₀)
      else if wrap.steps == 0
      then (failure, s₀)
      else if enabled
      then (success, queued s₀ wrap)
      else (elim rc [ failure ↦ (failure, s₂) | success ↦ (success, queued s₂ wrap) ])

  -- The steps that are left after an event of `single`, NULL being 0: they are 64 bits.
  unfoldable pub steps_left : Stepping t D → ℕ → StepWrapper → ℕ
  steps_left s single wrap =
      if not (single == 0) && wrap.vcpu_id == (s.vmi.heap single).vcpu_id
      then (wrap.steps + 2 ^ 64 - 1) % 2 ^ 64
      else wrap.steps

  unfoldable pub fire : Stepping t D → StepWrapper → Stepping t D
  fire s wrap =
      if wrap.cb == 0
      then record s { vmi = (vmi_register_event t driver conf s.vmi wrap.event).1 }
      else call wrap.cb wrap.event s

  -- An element of the queue that has no steps left: the single-step event, if it is still wanted.
  unfoldable pub finish : Stepping t D → ℕ → StepWrapper → ℕ × Stepping t D
  finish s single wrap =
      let s₁ = fire s wrap in
      let left = (s₁.step_vcpus wrap.vcpu_id + 2 ^ 32 - 1) % 2 ^ 32 in
      let s₂ = counted s₁ wrap.vcpu_id left in
      if left == 0
      then (0, record s₂ { vmi = (vmi_clear_event t driver conf s₂.vmi single step_event_free).1 })
      else (single, s₂)

  -- The loop of step_and_reg_events over the copy of the queue: what remains of it, and the instance.
  unfoldable pub step_loop :
      List StepWrapper → ℕ → List StepWrapper → Stepping t D → List StepWrapper × Stepping t D
  step_loop [] single remain s = (remain, s)
  step_loop (wrap ∷ rest) single remain s =
      let left = steps_left s single wrap in
      let (single', s') = if left == 0 then finish s single wrap else (single, s) in
      let remain' = if left == 0 then remain else record wrap { steps = left } ∷ remain in
      step_loop rest single' remain' s'

  unfoldable pub step_and_reg_events : Stepping t D → ℕ → Stepping t D
  step_and_reg_events s single =
      let (remain, s') =
        step_loop (prepend_all s.step_events []) single [] (record s { step_events = [] }) in
      record s' { step_events = remain ++ s'.step_events }
