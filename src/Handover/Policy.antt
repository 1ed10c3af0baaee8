-- ===== src/Handover/Policy.antt =====
-- The state of src/shared_backend.rs at its start, its configuration and its rendering.
use usbvfiod.Prelude.{
  ℕ, ◌-◌, ◌==◌, min, if◌then◌else◌, Bool, true, false, ◌&&◌, ◌||◌, Option, none, some, [],
}
use usbvfiod.Bus.Request.{u64_mod}
use usbvfiod.Handover.{Candidate, Ownership, HandoverStatus}

-- `NO_OWNER`
abbrev pub no_owner : ℕ
no_owner = u64_mod - 1

-- `SharedBackendState::new`
unfoldable pub new : {F : Type 0} → Ownership F
new = record {
  owner = no_owner;
  prev = no_owner;
  epoch = 0;
  committed_at = none;
  candidate = none;
  owner_reg = none;
  prev_reg = none;
  mapped = λ id. [];
  live = [];
  lease = 5000;
  preflight_timeout = 2000;
  require_ready = true;
  auto_reclaim = true;
  require_device = true;
  block_registration = false;
  require_controller = false;
  controller_seen = false;
  device_count = none;
  disable_owner_guard = false;
}

-- `if let Some(v) = value { field = v; }`
abbrev pub override : {A : Type 0} → Option A → A → A
override none a = a
override (some v) a = v

unfoldable pub configure_handover :
    {F : Type 0}
    → Ownership F
    → Option ℕ
    → Option ℕ
    → Option Bool
    → Option Bool
    → Option Bool
    → Option Bool
    → Option Bool
    → Ownership F
configure_handover o lease preflight_timeout require_ready auto_reclaim require_device
      block_registration require_controller =
    record o {
      lease = override lease o.lease;
      preflight_timeout = override preflight_timeout o.preflight_timeout;
      require_ready = override require_ready o.require_ready;
      auto_reclaim = override auto_reclaim o.auto_reclaim;
      require_device = override require_device o.require_device;
      block_registration = override block_registration o.block_registration;
      require_controller = override require_controller o.require_controller;
    }

unfoldable pub note_controller_seen : {F : Type 0} → Ownership F → Ownership F
note_controller_seen o = record o { controller_seen = true }

unfoldable pub note_device_inventory : {F : Type 0} → Ownership F → ℕ → Ownership F
note_device_inventory o devices = record o { device_count = some devices }

-- Whether the reply to a registration is held, and the check of memory put off.
abbrev pub holds_reply : {F : Type 0} → Ownership F → Bool
holds_reply o = o.block_registration && (o.controller_seen || o.require_controller)

abbrev pub owner_shown : ℕ → Option ℕ
owner_shown id = if id == no_owner then none else some id

abbrev candidate_id : {F : Type 0} → Option (Candidate F) → Option ℕ
candidate_id none = none
candidate_id (some c) = some c.id

abbrev candidate_ready : {F : Type 0} → Option (Candidate F) → Bool
candidate_ready none = false
candidate_ready (some c) = c.ready

unfoldable pub render_locked : {F : Type 0} → Ownership F → HandoverStatus
render_locked o = record {
  owner = owner_shown o.owner;
  prev = owner_shown o.prev;
  candidate = candidate_id o.candidate;
  epoch = o.epoch;
  candidate_ready = candidate_ready o.candidate;
  lease_ms = min o.lease (u64_mod - 1);
  live = o.live;
  devices = o.device_count;
  require_device = o.require_device;
  require_ready = o.require_ready;
  binding = o.block_registration;
  controller = o.controller_seen;
  deferred_a3 = holds_reply o;
}
