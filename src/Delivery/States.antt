-- ===== src/Delivery/States.antt =====
-- The states that a delivery of packages/indexer/src/delivery.ts goes through, whatever the workers do.
use stellar_agentic.Base.{◌++◌, ℕ, ◌≤◌, ◌≡◌, refl, Bool, true, false, Option, none, some}
use stellar_agentic.Base.Numbers.{Bytes}
use stellar_agentic.Delivery.Claims.{same_status}
use stellar_agentic.Base.Texts.{codes}
use stellar_agentic.Delivery.{
  destination_id, DeliveryStatus, pending, delivering, retry, delivered, dead_letter,
  ReportDelivery,
}

-- What the columns of a delivery say in each status.
unfoldable pub StatusSound :
    DeliveryStatus → ℕ → Option Bytes → Option Bytes → Option Bytes → Type 0
StatusSound pending attempts lease error done =
    (attempts ≡ 0) × (lease ≡ none) × (error ≡ none) × (done ≡ none)
StatusSound delivering attempts lease error done =
    (1 ≤ attempts) × ((l : Bytes) × (lease ≡ some l)) × (done ≡ none)
StatusSound retry attempts lease error done = (lease ≡ none) × (done ≡ none)
StatusSound delivered attempts lease error done =
    (1 ≤ attempts) × (lease ≡ none) × (error ≡ none) × ((at : Bytes) × (done ≡ some at))
StatusSound dead_letter attempts lease error done =
    (1 ≤ attempts) × (lease ≡ none) × ((e : Bytes) × (error ≡ some e)) × (done ≡ none)

unfoldable pub RowSound : ReportDelivery → Type 0
unfolding StatusSound
RowSound d = StatusSound d.status d.attempt_count d.lease_until d.last_error d.delivered_at

-- The key names the schedule, the run and the destination.
unfoldable pub HasKey : ReportDelivery → Type 0
HasKey d =
    d.idempotency_key
    ≡ d.schedule_id ++ codes ":" ++ d.run_key ++ codes ":" ++ destination_id d.destination

-- What holds of a delivery when it is queued.
unfoldable pub QueuedSound : ReportDelivery → Type 0
unfolding RowSound HasKey
QueuedSound d = RowSound d × HasKey d

pub same_status-eq : (a b : DeliveryStatus) → same_status a b ≡ true → a ≡ b
same_status-eq pending pending h = refl
same_status-eq pending delivering h = cc
same_status-eq pending retry h = cc
same_status-eq pending delivered h = cc
same_status-eq pending dead_letter h = cc
same_status-eq delivering pending h = cc
same_status-eq delivering delivering h = refl
same_status-eq delivering retry h = cc
same_status-eq delivering delivered h = cc
same_status-eq delivering dead_letter h = cc
same_status-eq retry pending h = cc
same_status-eq retry delivering h = cc
same_status-eq retry retry h = refl
same_status-eq retry delivered h = cc
same_status-eq retry dead_letter h = cc
same_status-eq delivered pending h = cc
same_status-eq delivered delivering h = cc
same_status-eq delivered retry h = cc
same_status-eq delivered delivered h = refl
same_status-eq delivered dead_letter h = cc
same_status-eq dead_letter pending h = cc
same_status-eq dead_letter delivering h = cc
same_status-eq dead_letter retry h = cc
same_status-eq dead_letter delivered h = cc
same_status-eq dead_letter dead_letter h = refl

-- The statuses that a claim may start from.
abbrev pub is_open : DeliveryStatus → Bool
is_open pending = true
is_open delivering = true
is_open retry = true
is_open _ = false

pub open-undelivered :
    (s : DeliveryStatus) (n : ℕ) (l e v : Option Bytes)
    → is_open s ≡ true
    → StatusSound s n l e v
    → v ≡ none
unfolding StatusSound
open-undelivered pending n l e v h r = r.3
open-undelivered delivering n l e v h r = r.2
open-undelivered retry n l e v h r = r.1
open-undelivered delivered n l e v h r = absurd (cc h)
open-undelivered dead_letter n l e v h r = absurd (cc h)
