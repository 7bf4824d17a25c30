-- ===== src/Readiness/Reading.antt =====
-- What the safe reader of assistant/assistant-runtime.ts answers.
use ai_agent_platform.Readiness.Runtime.{
  ProviderMode, placeholder_mode, agentos_mode, RuntimeStatus, normalize_assistant_runtime_status,
  derive_assistant_runtime_status, read_safe_assistant_runtime_status,
}
use ai_agent_platform.Readiness.{Snapshot, Capability, placeholder, available, degraded}
use ai_agent_platform.Circuit.{State, closed, opened, half_opened}
use ai_agent_platform.Base.{
  String, Bool, true, false, ◌≡◌, ◌≢◌, ◌↔◌, refl, sym, ap, ◌∙◌, Option, none, some,
}

read_safe-derive :
    (live ready : Bool) (capability : Capability) (mode : ProviderMode) (state : State)
    → let s : Snapshot = record { live = live; ready = ready; capability = capability } in
      read_safe_assistant_runtime_status (some (derive_assistant_runtime_status s mode state))
      ≡ derive_assistant_runtime_status s mode state
unfolding read_safe_assistant_runtime_status derive_assistant_runtime_status
    normalize_assistant_runtime_status
read_safe-derive live ready capability placeholder_mode state = refl
read_safe-derive false ready capability agentos_mode closed = refl
read_safe-derive true false capability agentos_mode closed = refl
read_safe-derive true true placeholder agentos_mode closed = refl
read_safe-derive true true available agentos_mode closed = refl
read_safe-derive true true degraded agentos_mode closed = refl
read_safe-derive true ready capability agentos_mode opened = refl
read_safe-derive false ready capability agentos_mode opened = refl
read_safe-derive true ready capability agentos_mode half_opened = refl
read_safe-derive false ready capability agentos_mode half_opened = refl

abbrev text_of : Capability → String
text_of available = "AI 助理基础服务已就绪。"
text_of placeholder = "模型尚未配置，当前为安全占位模式。"
text_of degraded = "助手基础服务暂不可用。"

-- What the safe reader may answer to a status that it read, or to none.
pub record IsReading (read : Option RuntimeStatus) (answer : RuntimeStatus) : Type 0 where
  pub live_iff :
      (answer.snapshot.live ≡ true)
      ↔ ((s : RuntimeStatus) × (read ≡ some s) × (s.snapshot.live ≡ true))
  pub ready_iff : (answer.snapshot.ready ≡ true) ↔ (
      (s : RuntimeStatus) × (read ≡ some s)
      × (s.snapshot.live ≡ true)
      × (s.snapshot.ready ≡ true)
      × (s.snapshot.capability ≢ degraded))
  pub kept :
      (s : RuntimeStatus)
      → read ≡ some s
      → answer.snapshot.ready ≡ true
      → answer.snapshot.capability ≡ s.snapshot.capability
  pub degrades : answer.snapshot.ready ≡ false → answer.snapshot.capability ≡ degraded
  pub own_text : answer.message ≡ text_of answer.snapshot.capability

contradictory : false ≢ true
contradictory e = cc

some_eq : {a b : RuntimeStatus} → some a ≡ some b → a ≡ b
some_eq e = cc

read-IsReading :
    (live ready : Bool) (capability : Capability) (message : String)
    → let s : RuntimeStatus = record {
      snapshot = record { live = live; ready = ready; capability = capability };
      message = message;
    } in
      IsReading (some s) (read_safe_assistant_runtime_status (some s))
unfolding read_safe_assistant_runtime_status normalize_assistant_runtime_status
read-IsReading false ready capability message = record {
  live_iff = (
    (λ h. cc),
    λ (s, e, l).
        absurd (contradictory (ap (λ (x : RuntimeStatus). x.snapshot.live) (some_eq e) ∙ l)),
  );
  ready_iff = (
    (λ h. cc),
    λ (s, e, l, r, c).
        absurd (contradictory (ap (λ (x : RuntimeStatus). x.snapshot.live) (some_eq e) ∙ l)),
  );
  kept = λ s e h. cc;
  degrades = λ h. refl;
  own_text = refl;
}
read-IsReading true false capability message = record {
  live_iff = ((λ h. (_, refl, refl)), λ p. refl);
  ready_iff = (
    (λ h. cc),
    λ (s, e, l, r, c).
        absurd (contradictory (ap (λ (x : RuntimeStatus). x.snapshot.ready) (some_eq e) ∙ r)),
  );
  kept = λ s e h. cc;
  degrades = λ h. refl;
  own_text = refl;
}
read-IsReading true true placeholder message = record {
  live_iff = ((λ h. (_, refl, refl)), λ p. refl);
  ready_iff = ((λ h. (_, refl, refl, refl, λ e. cc)), λ p. refl);
  kept = λ s e h. ap (λ (x : RuntimeStatus). x.snapshot.capability) (some_eq e);
  degrades = λ h. cc;
  own_text = refl;
}
read-IsReading true true available message = record {
  live_iff = ((λ h. (_, refl, refl)), λ p. refl);
  ready_iff = ((λ h. (_, refl, refl, refl, λ e. cc)), λ p. refl);
  kept = λ s e h. ap (λ (x : RuntimeStatus). x.snapshot.capability) (some_eq e);
  degrades = λ h. cc;
  own_text = refl;
}
read-IsReading true true degraded message = record {
  live_iff = ((λ h. (_, refl, refl)), λ p. refl);
  ready_iff = (
    (λ h. cc),
    λ (s, e, l, r, c).
        absurd (c (sym (ap (λ (x : RuntimeStatus). x.snapshot.capability) (some_eq e)))),
  );
  kept = λ s e h. cc;
  degrades = λ h. refl;
  own_text = refl;
}

-- Whatever status the runtime gives, or if it throws, the safe reader's answer is live exactly if a
-- live status was read, ready exactly if that was also ready and not degraded, keeps the capability
-- of the status if it is ready and is degraded otherwise, and has the text of its own capability;
-- and a status that was derived, in any mode and any state of the circuit, is answered unchanged.
pub read_safe-IsReading :
    (read : Option RuntimeStatus)
    → IsReading read (read_safe_assistant_runtime_status read)
      × ((s : Snapshot) (mode : ProviderMode) (state : State)
          → read ≡ some (derive_assistant_runtime_status s mode state)
          → read_safe_assistant_runtime_status read ≡ derive_assistant_runtime_status s mode state)
unfolding read_safe_assistant_runtime_status
read_safe-IsReading none = (
  record {
    live_iff = ((λ h. cc), λ (s, e, l). cc);
    ready_iff = ((λ h. cc), λ (s, e, l, r, c). cc);
    kept = λ s e h. cc;
    degrades = λ h. refl;
    own_text = refl;
  },
  (λ s mode state e. cc),
)
read_safe-IsReading (some r) = (
  read-IsReading r.snapshot.live r.snapshot.ready r.snapshot.capability r.message,
  (λ s mode state e.
      ap read_safe_assistant_runtime_status e
      ∙ read_safe-derive s.live s.ready s.capability mode state),
)
