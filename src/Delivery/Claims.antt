-- ===== src/Delivery/Claims.antt =====
-- The deliveries of `ReportDeliveryStore` in packages/indexer/src/delivery.ts: claims and their ends.
use stellar_agentic.Base.{
  ℕ, ◌+◌, Bool, true, false, not, ◌&&◌, ◌||◌, ◌==◌, Option, none, some, List, ◌++◌, keep, find,
  first, count, update, first_of, if◌then◌else◌, Result, ok, err, ◌>>=◌, throw_if,
}
use stellar_agentic.Base.Int.{ℤ, pos, ◌+ℤ◌}
use stellar_agentic.Base.Numbers.{
  Bytes, Real, at_most_integer, Number, whole, is_safe_integer, leb_number, natural,
}
use stellar_agentic.Base.Sorting.{sort}
use stellar_agentic.Base.Texts.{same_bytes, codes}
use stellar_agentic.Delivery.Tables.{pair_le}
use stellar_agentic.Delivery.{
  Platform, StoredReportArtifact, DeliveryStatus, pending, delivering, retry, delivered,
  dead_letter, ReportDelivery, ClaimedDelivery, DeliveryError, message, platform, DeliveryStore,
  text_le, iso,
}

abbrev pub same_status : DeliveryStatus → DeliveryStatus → Bool
same_status pending pending = true
same_status delivering delivering = true
same_status retry retry = true
same_status delivered delivered = true
same_status dead_letter dead_letter = true
same_status _ _ = false

-- `lease_until <= ?`, which is not true of NULL
abbrev lease_expired : Bytes → Option Bytes → Bool
lease_expired timestamp none = false
lease_expired timestamp (some l) = text_le l timestamp

abbrev pub status_due : DeliveryStatus → Bytes → ReportDelivery → Bool
status_due pending timestamp d = text_le d.next_attempt_at timestamp
status_due retry timestamp d = text_le d.next_attempt_at timestamp
status_due delivering timestamp d = lease_expired timestamp d.lease_until
status_due _ timestamp d = false

abbrev pub is_due : Bytes → ReportDelivery → Bool
is_due timestamp d = status_due d.status timestamp d

abbrev pub claimed_before : ReportDelivery → ReportDelivery → Bool
claimed_before a b = pair_le a.next_attempt_at a.delivery_id b.next_attempt_at b.delivery_id

abbrev pub has_delivery_id : Bytes → ReportDelivery → Bool
has_delivery_id id d = same_bytes d.delivery_id id

-- The delivery that a worker is at, which only its id names.
abbrev pub is_claimed : Bytes → ReportDelivery → Bool
is_claimed id d = has_delivery_id id d && same_status d.status delivering

abbrev pub is_row : ReportDelivery → ReportDelivery → Bool
is_row row d =
    has_delivery_id row.delivery_id d
    && same_status d.status row.status
    && d.attempt_count == row.attempt_count

abbrev pub claimed : Bytes → Bytes → ReportDelivery → ReportDelivery
claimed lease timestamp d = record d {
  status = delivering;
  attempt_count = d.attempt_count + 1;
  lease_until = some lease;
  updated_at = timestamp;
}

abbrev pub not_claimed : Bytes → DeliveryError
not_claimed id = message (codes "delivery " ++ id ++ codes " is not claimed")

abbrev pub with_deliveries : DeliveryStore → List ReportDelivery → DeliveryStore
with_deliveries t ds = record t { deliveries = ds }

-- `new Date(Date.parse(timestamp) + ms).toISOString()`
unfoldable pub shifted : Platform → Bytes → ℤ → Result DeliveryError Bytes
shifted p timestamp ms = elim (p.parse timestamp) [
  | none ↦ err platform
  | some t ↦ elim (p.to_iso (t +ℤ ms)) [ none ↦ err platform | some s ↦ ok s ]
]

-- The two rows that the claim reads back; a missing one throws.
abbrev pub claimed_rows :
    DeliveryStore
    → Option ReportDelivery
    → Option StoredReportArtifact
    → Result DeliveryError (DeliveryStore × Option ClaimedDelivery)
claimed_rows t (some d) (some a) = ok (t, some (record { delivery = d; artifact = a }))
claimed_rows t _ _ = err platform

unfoldable pub read_claim :
    DeliveryStore → ReportDelivery → Result DeliveryError (DeliveryStore × Option ClaimedDelivery)
read_claim t row =
    claimed_rows t (find (has_delivery_id row.delivery_id) t.deliveries)
      (find (λ a. same_bytes (StoredReportArtifact.artifact_id a) row.artifact_id) t.artifacts)

-- The claim of the row that was selected; when its update changes no single row, nothing is claimed.
unfoldable pub claim_row :
    Bytes
    → Bytes
    → DeliveryStore
    → Option ReportDelivery
    → Result DeliveryError (DeliveryStore × Option ClaimedDelivery)
unfolding read_claim
claim_row lease timestamp t none = ok (t, none)
claim_row lease timestamp t (some row) =
    let t' = with_deliveries t (update (is_row row) (claimed lease timestamp) t.deliveries) in
    if count (is_row row) t.deliveries == 1 then read_claim t' row else ok (t', none)

-- The deliveries that may be claimed, in the order of the claims.
unfoldable pub due_deliveries : Bytes → DeliveryStore → List ReportDelivery
due_deliveries timestamp t = sort claimed_before (keep (is_due timestamp) t.deliveries)

unfoldable pub claim_due :
    Platform
    → Bytes
    → Number
    → DeliveryStore
    → Result DeliveryError (DeliveryStore × Option ClaimedDelivery)
unfolding iso shifted due_deliveries claim_row
claim_due p now lease_ms t = do
  timestamp ← iso p now (codes "now")
  _ ←
      throw_if (not (is_safe_integer lease_ms) || leb_number lease_ms (whole (pos 0)))
        (message (codes "leaseMs must be positive"))
  lease ← shifted p timestamp (pos (natural lease_ms))
  claim_row lease timestamp t (first (due_deliveries timestamp t))

abbrev pub finished : Bytes → ReportDelivery → ReportDelivery
finished timestamp d = record d {
  status = delivered;
  delivered_at = some timestamp;
  lease_until = none;
  last_error = none;
  updated_at = timestamp;
}

unfoldable pub mark_delivered :
    Platform → Bytes → Bytes → DeliveryStore → Result DeliveryError DeliveryStore
unfolding iso
mark_delivered p id now t = do
  timestamp ← iso p now (codes "now")
  _ ← throw_if (not (count (is_claimed id) t.deliveries == 1)) (not_claimed id)
  ok (with_deliveries t (update (is_claimed id) (finished timestamp) t.deliveries))

abbrev pub failed : DeliveryStatus → Bytes → Bytes → Bytes → ReportDelivery → ReportDelivery
failed status next error timestamp d = record d {
  status = status;
  next_attempt_at = next;
  lease_until = none;
  last_error = some error;
  updated_at = timestamp;
}

-- The status of a delivery after a failure, by its attempts.
abbrev pub failed_status : Real → ℕ → DeliveryStatus
failed_status max_attempts n = if at_most_integer max_attempts (pos n) then dead_letter else retry

unfoldable pub fail_row :
    Platform
    → Bytes
    → Bytes
    → Bytes
    → Real
    → Bytes
    → DeliveryStore
    → Option ReportDelivery
    → Result DeliveryError (DeliveryStore × DeliveryStatus)
unfolding iso
fail_row p id error next_attempt_at max_attempts now t none = err (not_claimed id)
fail_row p id error next_attempt_at max_attempts now t (some row) = do
  let status = failed_status max_attempts row.attempt_count
  next ← iso p next_attempt_at (codes "nextAttemptAt")
  timestamp ← iso p now (codes "now")
  let ds =
      update (has_delivery_id id) (failed status next (first_of 4000 error) timestamp) t.deliveries
  ok (with_deliveries t ds, status)

unfoldable pub mark_failed :
    Platform
    → Bytes
    → Bytes
    → Bytes
    → Real
    → Bytes
    → DeliveryStore
    → Result DeliveryError (DeliveryStore × DeliveryStatus)
unfolding fail_row
mark_failed p id error next_attempt_at max_attempts now t =
    fail_row p id error next_attempt_at max_attempts now t (find (is_claimed id) t.deliveries)

abbrev pub is_dead : Bytes → ReportDelivery → Bool
is_dead id d = has_delivery_id id d && same_status d.status dead_letter

abbrev pub replayed : Bytes → ReportDelivery → ReportDelivery
replayed timestamp d = record d {
  status = retry;
  attempt_count = 0;
  next_attempt_at = timestamp;
  lease_until = none;
  last_error = none;
  updated_at = timestamp;
}

unfoldable pub replay_dead_letter :
    Platform → Bytes → Bytes → DeliveryStore → Result DeliveryError DeliveryStore
unfolding iso
replay_dead_letter p id now t = do
  timestamp ← iso p now (codes "now")
  _ ←
      throw_if (not (count (is_dead id) t.deliveries == 1))
        (message (codes "delivery " ++ id ++ codes " is not dead-lettered"))
  ok (with_deliveries t (update (is_dead id) (replayed timestamp) t.deliveries))

abbrev has_status : Option DeliveryStatus → ReportDelivery → Bool
has_status none d = true
has_status (some s) d = same_status d.status s

unfoldable pub deliveries : DeliveryStore → Option DeliveryStatus → List ReportDelivery
deliveries t status =
    sort (λ a b. pair_le (ReportDelivery.created_at a) a.delivery_id b.created_at b.delivery_id)
      (keep (has_status status) t.deliveries)
