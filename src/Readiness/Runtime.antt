-- ===== src/Readiness/Runtime.antt =====
-- apps/web/src/server/assistant/assistant-runtime.ts and assistant-provider-selector.ts: the status
-- that the assistant reports, and the provider that answers. A composition of the agent service's
-- clients that throws, and a readiness that rejects, are `none`.
use ai_agent_platform.Readiness.{
  Snapshot, Capability, placeholder, available, degraded, is_degraded,
}
use ai_agent_platform.Circuit.{State, closed, opened, half_opened}
use ai_agent_platform.Base.{
  String, Bool, true, false, not, ◌&&◌, ◌||◌, ◌≡◌, refl, Option, none, some, Result, ok, err,
  if◌then◌else◌,
}

pub data ProviderMode : Type 0 where
  placeholder_mode agentos_mode : ProviderMode

abbrev pub is_placeholder_mode : ProviderMode → Bool
is_placeholder_mode placeholder_mode = true
is_placeholder_mode agentos_mode = false

pub record RuntimeStatus : Type 0 where
  pub snapshot : Snapshot
  pub message : String

abbrev pub placeholder_status : RuntimeStatus
placeholder_status = record {
  snapshot = record { live = true; ready = true; capability = placeholder };
  message = "模型尚未配置，当前为安全占位模式。";
}

abbrev pub degraded_status : Bool → RuntimeStatus
degraded_status live = record {
  snapshot = record { live = live; ready = false; capability = degraded };
  message = "助手基础服务暂不可用。";
}

abbrev pub is_available : Capability → Bool
is_available available = true
is_available _ = false

unfoldable pub normalize_assistant_runtime_status : Snapshot → RuntimeStatus
normalize_assistant_runtime_status s =
    if not s.live
    then degraded_status false
    else if not s.ready || is_degraded s.capability
    then degraded_status true
    else record {
      snapshot = s;
      message = if is_available s.capability then "AI 助理基础服务已就绪。" else "模型尚未配置，当前为安全占位模式。";
    }

abbrev pub is_closed : State → Bool
is_closed closed = true
is_closed _ = false

abbrev pub is_half_open : State → Bool
is_half_open half_opened = true
is_half_open _ = false

unfoldable pub derive_assistant_runtime_status : Snapshot → ProviderMode → State → RuntimeStatus
derive_assistant_runtime_status s mode state =
    if is_placeholder_mode mode
    then placeholder_status
    else if not (is_closed state)
    then degraded_status s.live
    else normalize_assistant_runtime_status s

-- `readSafeAssistantRuntimeStatus`: what the runtime's `status` gives, or nothing where it throws.
unfoldable pub read_safe_assistant_runtime_status : Option RuntimeStatus → RuntimeStatus
read_safe_assistant_runtime_status none = degraded_status false
read_safe_assistant_runtime_status (some status) =
    normalize_assistant_runtime_status status.snapshot

pub data Provider : Type 0 where
  placeholder_provider agentos_provider : Provider

pub data ProviderError : Type 0 where
  selection_unavailable runtime_unavailable : ProviderError

unfoldable pub select_assistant_provider :
    ProviderMode → Bool → Capability → Result ProviderError Provider
select_assistant_provider placeholder_mode ready capability = ok placeholder_provider
select_assistant_provider agentos_mode ready capability =
    if ready && is_available capability then ok agentos_provider else err selection_unavailable

-- A provider that is selected is the composition's.
abbrev own_provider : Result ProviderError Provider → Result ProviderError Provider
own_provider (ok agentos_provider) = ok agentos_provider
own_provider (ok placeholder_provider) = err runtime_unavailable
own_provider (err e) = err e

-- `resolveProvider`, with the snapshot of the readiness and the state of the execution circuit.
unfoldable pub resolve_provider : ProviderMode → Snapshot → State → Result ProviderError Provider
unfolding select_assistant_provider
resolve_provider placeholder_mode s state = ok placeholder_provider
resolve_provider agentos_mode s state =
    if not s.live || not s.ready || not (is_available s.capability)
    then err runtime_unavailable
    else if is_half_open state
    then err runtime_unavailable
    else own_provider (select_assistant_provider agentos_mode s.ready s.capability)

-- A status that reports the available capability is kept: where it is derived in the agent
-- service's mode, the provider that is resolved at the same snapshot and state is that service's.
pub available-resolves :
    (s : Snapshot) (state : State)
    → (derive_assistant_runtime_status s agentos_mode state).snapshot.capability ≡ available
    → resolve_provider agentos_mode s state ≡ ok agentos_provider
unfolding derive_assistant_runtime_status normalize_assistant_runtime_status resolve_provider
    select_assistant_provider
available-resolves s state h = split s.live s.ready s.capability state h
  where
    split :
        (live ready : Bool) (capability : Capability) (state : State)
        → let t : Snapshot = record { live = live; ready = ready; capability = capability } in
          (derive_assistant_runtime_status t agentos_mode state).snapshot.capability ≡ available
          → resolve_provider agentos_mode t state ≡ ok agentos_provider
    split true true available closed k = refl
    split true true placeholder closed k = cc
    split true true degraded closed k = cc
    split true false capability closed k = cc
    split false ready capability closed k = cc
    split live ready capability opened k = cc
    split live ready capability half_opened k = cc
