-- ===== src/Delivery/Calls.antt =====
-- What a property of the deliveries of packages/indexer/src/delivery.ts needs in order to outlast the
-- calls of `ReportDeliveryStore`, and that it then does.
use stellar_agentic.Base.{
  ℕ, ◌≡◌, refl, sym, ap, subst, Bool, true, false, not, ◌||◌, ◌==◌, ◌++◌, Option, none, some, List,
  [], ◌∷◌, keep, first, find, count, update, first_of, Bool-cases, inl, inr, Result, ok, err,
  ok_injective, ◌>>=◌, throw_if, All,
}
use stellar_agentic.Base.Int.{pos}
use stellar_agentic.Base.Numbers.{Bytes, Real, Number, whole, natural, is_safe_integer, leb_number}
use stellar_agentic.Base.Sorting.{sort-All}
use stellar_agentic.Base.Texts.{same_bytes, codes}
use stellar_agentic.Delivery.Claims.{
  claim_due, mark_delivered, mark_failed, replay_dead_letter, fail_row, is_claimed, due_deliveries,
  not_claimed, is_dead, shifted, claimed_rows, status_due, read_claim, is_due, has_delivery_id,
  is_row, claimed, with_deliveries, claim_row, finished, failed, failed_status, replayed,
  claimed_before,
}
use stellar_agentic.Delivery.Rows.{find-none}
use stellar_agentic.Delivery.Service.{call, call_with}
use stellar_agentic.Delivery.States.{StatusSound, RowSound, HasKey, QueuedSound, is_open}
use stellar_agentic.Delivery.Tables.{
  is_taken, insert_beside, insert_delivery, queued, save_schedule, advance_schedule,
  enqueue_artifact, insert_artifact, queue_existing, queue_deliveries, artifact_for_run,
  has_schedule, artifact_beside, new_artifact,
}
use stellar_agentic.Delivery.{
  Platform, ReportDestination, ReportScheduleInput, ReportSchedule, GeneratedReportArtifact,
  StoredReportArtifact, DeliveryStatus, pending, delivering, retry, delivered, dead_letter,
  ReportDelivery, DeliveryError, DeliveryStore, message, iso, validate_schedule,
}
use stellar_agentic.Statement.{StatementPeriod}
use stellar_agentic.Delivery.Operations.{
  Operation, save, advance, enqueue, claim, finish, fail, replay, operate,
}

status_due-open :
    (timestamp : Bytes) (s : DeliveryStatus) (d : ReportDelivery)
    → status_due s timestamp d ≡ true
    → is_open s ≡ true
status_due-open timestamp pending d h = refl
status_due-open timestamp delivering d h = refl
status_due-open timestamp retry d h = refl
status_due-open timestamp delivered d h = absurd (cc h)
status_due-open timestamp dead_letter d h = absurd (cc h)

-- A row that a claim may select.
abbrev IsOpen : ReportDelivery → Type 0
IsOpen d = is_open d.status ≡ true

keep-IsOpen :
    (timestamp : Bytes) (ds : List ReportDelivery) → All IsOpen (keep (is_due timestamp) ds)
keep-IsOpen timestamp [] = tt
keep-IsOpen timestamp (d ∷ ds) = elim (Bool-cases (is_due timestamp d)) [
  | inl e ↦ rw e (status_due-open timestamp d.status d e, keep-IsOpen timestamp ds)
  | inr e ↦ rw e (keep-IsOpen timestamp ds)
]

due-IsOpen : (timestamp : Bytes) (t : DeliveryStore) → All IsOpen (due_deliveries timestamp t)
unfolding due_deliveries
due-IsOpen timestamp t = sort-All claimed_before IsOpen _ (keep-IsOpen timestamp t.deliveries)

queued-Sound :
    (p : Platform) (id run_key : Bytes) (a : StoredReportArtifact) (timestamp : Bytes)
    (d : ReportDestination)
    → QueuedSound (queued p id run_key a timestamp d)
unfolding QueuedSound HasKey RowSound StatusSound queued
queued-Sound p id run_key a timestamp d = ((refl, refl, refl, refl), refl)

artifact_beside-deliveries :
    (o : Option StoredReportArtifact) (known : Bool) (a : StoredReportArtifact)
    (t t' : DeliveryStore)
    → artifact_beside o known a t ≡ ok t'
    → t'.deliveries ≡ t.deliveries
artifact_beside-deliveries (some b) known a t t' h =
    ap DeliveryStore.deliveries (sym (ok_injective h))
artifact_beside-deliveries none true a t t' h = ap DeliveryStore.deliveries (sym (ok_injective h))
artifact_beside-deliveries none false a t t' h = absurd (cc h)

insert_artifact-deliveries :
    (a : StoredReportArtifact) (t t' : DeliveryStore)
    → insert_artifact a t ≡ ok t'
    → t'.deliveries ≡ t.deliveries
unfolding insert_artifact
insert_artifact-deliveries a t t' h = artifact_beside-deliveries _ _ a t t' h

-- A property of the deliveries that every change of them keeps.
pub record Closed (P : List ReportDelivery → Type 0) : Type 0 where
  pub claimed_kept :
      (lease timestamp : Bytes) (row : ReportDelivery) (ds : List ReportDelivery)
      → is_open row.status ≡ true
      → P ds
      → P (update (is_row row) (claimed lease timestamp) ds)
  pub finished_kept :
      (id timestamp : Bytes) (ds : List ReportDelivery)
      → P ds
      → P (update (is_claimed id) (finished timestamp) ds)
  pub failed_kept :
      (id next error timestamp : Bytes) (max : Real) (n : ℕ) (r : ReportDelivery)
      (ds : List ReportDelivery)
      → find (is_claimed id) ds ≡ some r
      → P ds
      → P (update (has_delivery_id id) (failed (failed_status max n) next error timestamp) ds)
  pub replayed_kept :
      (id timestamp : Bytes) (ds : List ReportDelivery)
      → P ds
      → P (update (is_dead id) (replayed timestamp) ds)
  pub queued_kept :
      (d : ReportDelivery) (ds : List ReportDelivery)
      → All (λ e. is_taken d e ≡ false) ds
      → QueuedSound d
      → P ds
      → P (ds ++ d ∷ [])

module _ (P : List ReportDelivery → Type 0) (closed : Closed P) where
  claimed_rows_kept :
      (t t' : DeliveryStore) (d : Option ReportDelivery) (a : Option StoredReportArtifact)
      → P t.deliveries
      → P t'.deliveries
      → P (call_with t (claimed_rows t' d a)).0.deliveries
  claimed_rows_kept t t' none a i i' = i
  claimed_rows_kept t t' (some d) none i i' = i
  claimed_rows_kept t t' (some d) (some a) i i' = i'

  read_claim_kept :
      (t t' : DeliveryStore) (row : ReportDelivery)
      → P t.deliveries
      → P t'.deliveries
      → P (call_with t (read_claim t' row)).0.deliveries
  unfolding read_claim
  read_claim_kept t t' row i i' = claimed_rows_kept t t' _ _ i i'

  claim_row_kept :
      (lease timestamp : Bytes) (t : DeliveryStore) (rows : List ReportDelivery)
      → All IsOpen rows
      → P t.deliveries
      → P (call_with t (claim_row lease timestamp t (first rows))).0.deliveries
  unfolding claim_row
  claim_row_kept lease timestamp t [] o i = i
  claim_row_kept lease timestamp t (row ∷ rows) o i =
      let updated = closed.claimed_kept lease timestamp row t.deliveries o.0 i in
      elim (Bool-cases (count (is_row row) t.deliveries == 1)) [
        | inl e ↦ rw e (
            read_claim_kept t
              (with_deliveries t (update (is_row row) (claimed lease timestamp) t.deliveries)) row i
              updated)
        | inr e ↦ rw e updated
      ]

  -- What the insertions leave, if they are not refused.
  abbrev IsKept : Result DeliveryError (List ReportDelivery) → Type 0
  IsKept (ok ds) = P ds
  IsKept (err e) = Unit

  insert_beside-IsKept :
      (o : Option ReportDelivery) (known : Bool) (d : ReportDelivery) (ds : List ReportDelivery)
      → find (is_taken d) ds ≡ o
      → QueuedSound d
      → P ds
      → IsKept (insert_beside o known d ds)
  insert_beside-IsKept (some e) known d ds h s i = i
  insert_beside-IsKept none true d ds h s i =
      closed.queued_kept d ds (find-none (is_taken d) ds h) s i
  insert_beside-IsKept none false d ds h s i = tt

  insert_delivery-IsKept :
      (known : Bool) (d : ReportDelivery) (ds : List ReportDelivery)
      → QueuedSound d
      → P ds
      → IsKept (insert_delivery known d ds)
  unfolding insert_delivery
  insert_delivery-IsKept known d ds s i =
      insert_beside-IsKept (find (is_taken d) ds) known d ds refl s i

  bind-IsKept :
      (m : Result DeliveryError (List ReportDelivery))
      (f : List ReportDelivery → Result DeliveryError (List ReportDelivery))
      → IsKept m
      → ((ds : List ReportDelivery) → P ds → IsKept (f ds))
      → IsKept (m >>= f)
  bind-IsKept (ok ds) f i h = h ds i
  bind-IsKept (err e) f i h = tt

  queue_deliveries-IsKept :
      (p : Platform) (known : Bool) (id run_key : Bytes) (a : StoredReportArtifact)
      (timestamp : Bytes) (rest : List ReportDestination) (ds : List ReportDelivery)
      → P ds
      → IsKept (queue_deliveries p known id run_key a timestamp rest ds)
  unfolding queue_deliveries
  queue_deliveries-IsKept p known id run_key a timestamp [] ds i = i
  queue_deliveries-IsKept p known id run_key a timestamp (d ∷ rest) ds i =
      bind-IsKept (insert_delivery known (queued p id run_key a timestamp d) ds) _
        (insert_delivery-IsKept known (queued p id run_key a timestamp d) ds
          (queued-Sound p id run_key a timestamp d) i)
        (queue_deliveries-IsKept p known id run_key a timestamp rest)

  -- The deliveries are sound, whether the call returns or throws.
  record Keeps (t : DeliveryStore) (r : Result DeliveryError DeliveryStore) : Type 0 where
    after : P (call t r).0.deliveries

  record KeepsWith {A : Type 0} (t : DeliveryStore) (r : Result DeliveryError (DeliveryStore × A))
      : Type 0 where
    after : P (call_with t r).0.deliveries

  bind-Keeps :
      {A : Type 0} (t : DeliveryStore) (m : Result DeliveryError A)
      (f : A → Result DeliveryError DeliveryStore)
      → P t.deliveries
      → ((a : A) → m ≡ ok a → Keeps t (f a))
      → Keeps t (m >>= f)
  bind-Keeps t (ok a) f i h = h a refl
  bind-Keeps t (err e) f i h = record { after = i }

  bind-KeepsWith :
      {A B : Type 0} (t : DeliveryStore) (m : Result DeliveryError A)
      (f : A → Result DeliveryError (DeliveryStore × B))
      → P t.deliveries
      → ((a : A) → KeepsWith t (f a))
      → KeepsWith t (m >>= f)
  bind-KeepsWith t (ok a) f i h = h a
  bind-KeepsWith t (err e) f i h = record { after = i }

  save_kept :
      (p : Platform) (i : ReportScheduleInput) (now : Bytes) (t : DeliveryStore)
      → P t.deliveries
      → Keeps t (save_schedule p i now t)
  unfolding save_schedule
  save_kept p i now t h = bind-Keeps t (validate_schedule p i) _ h λ _ _.
      bind-Keeps t (iso p now (codes "now")) _ h λ _ _.
        bind-Keeps t (iso p i.next_run_at (codes "nextRunAt")) _ h λ _ _. record { after = h }

  advance_kept :
      (p : Platform) (id expected next now : Bytes) (t : DeliveryStore)
      → P t.deliveries
      → KeepsWith t (advance_schedule p id expected next now t)
  unfolding advance_schedule
  advance_kept p id expected next now t h =
      bind-KeepsWith t (iso p next (codes "nextRunAt")) _ h λ _.
        bind-KeepsWith t (iso p now (codes "now")) _ h λ _.
          bind-KeepsWith t (iso p expected (codes "expectedRunAt")) _ h λ _. record { after = h }

  queue_existing_kept :
      (p : Platform) (s : ReportSchedule) (run_key sha256 timestamp : Bytes) (t t' : DeliveryStore)
      (o : Option StoredReportArtifact)
      → P t.deliveries
      → P t'.deliveries
      → Keeps t (queue_existing p s run_key sha256 timestamp t' o)
  unfolding queue_existing
  queue_existing_kept p s run_key sha256 timestamp t t' none i i' = record { after = i }
  queue_existing_kept p s run_key sha256 timestamp t t' (some a) i i' =
      bind-Keeps t
        (throw_if (not (same_bytes a.sha256 sha256)) (
          message (codes "run " ++ run_key ++ codes " already has a different immutable artifact")))
        _ i
        λ _ _.
          bind-Keeps t
            (queue_deliveries p (has_schedule t' s.schedule_id) s.schedule_id run_key a timestamp
              s.destinations t'.deliveries)
            _ i
            λ ds e. record {
              after = subst IsKept e (
                  queue_deliveries-IsKept p (has_schedule t' s.schedule_id) s.schedule_id run_key a
                    timestamp s.destinations t'.deliveries i');
            }

  enqueue_kept :
      (p : Platform) (s : ReportSchedule) (run_key : Bytes) (period : StatementPeriod)
      (generated : GeneratedReportArtifact) (now : Bytes) (t : DeliveryStore)
      → P t.deliveries
      → Keeps t (enqueue_artifact p s run_key period generated now t)
  unfolding enqueue_artifact
  enqueue_kept p s run_key period generated now t i =
      bind-Keeps t (iso p now (codes "now")) _ i λ timestamp _.
        bind-Keeps t (insert_artifact (new_artifact p s run_key period generated timestamp) t) _ i
          λ t' e.
            queue_existing_kept p s run_key (p.sha256 generated.content) timestamp t t'
              (artifact_for_run t' run_key) i
              (subst P (sym (insert_artifact-deliveries _ t t' e)) i)

  claim_kept :
      (p : Platform) (now : Bytes) (lease_ms : Number) (t : DeliveryStore)
      → P t.deliveries
      → KeepsWith t (claim_due p now lease_ms t)
  unfolding claim_due
  claim_kept p now lease_ms t i = bind-KeepsWith t (iso p now (codes "now")) _ i λ timestamp.
      bind-KeepsWith t
        (throw_if (not (is_safe_integer lease_ms) || leb_number lease_ms (whole (pos 0)))
          (message (codes "leaseMs must be positive")))
        _ i
        λ _. bind-KeepsWith t (shifted p timestamp (pos (natural lease_ms))) _ i λ lease. record {
          after =
              claim_row_kept lease timestamp t (due_deliveries timestamp t) (due-IsOpen timestamp t)
                i;
        }

  finish_kept :
      (p : Platform) (id now : Bytes) (t : DeliveryStore)
      → P t.deliveries
      → Keeps t (mark_delivered p id now t)
  unfolding mark_delivered
  finish_kept p id now t i = bind-Keeps t (iso p now (codes "now")) _ i λ timestamp _.
      bind-Keeps t (throw_if (not (count (is_claimed id) t.deliveries == 1)) (not_claimed id)) _ i
        λ _ _. record { after = closed.finished_kept id timestamp t.deliveries i }

  fail_row_kept :
      (p : Platform) (id error next : Bytes) (max : Real) (now : Bytes) (t : DeliveryStore)
      (o : Option ReportDelivery)
      → find (is_claimed id) t.deliveries ≡ o
      → P t.deliveries
      → KeepsWith t (fail_row p id error next max now t o)
  unfolding fail_row
  fail_row_kept p id error next max now t none h i = record { after = i }
  fail_row_kept p id error next max now t (some r) h i =
      bind-KeepsWith t (iso p next (codes "nextAttemptAt")) _ i λ next'.
        bind-KeepsWith t (iso p now (codes "now")) _ i λ timestamp. record {
          after =
              closed.failed_kept id next' (first_of 4000 error) timestamp max r.attempt_count r
                t.deliveries h i;
        }

  fail_kept :
      (p : Platform) (id error next : Bytes) (max : Real) (now : Bytes) (t : DeliveryStore)
      → P t.deliveries
      → KeepsWith t (mark_failed p id error next max now t)
  unfolding mark_failed
  fail_kept p id error next max now t i = fail_row_kept p id error next max now t _ refl i

  replay_kept :
      (p : Platform) (id now : Bytes) (t : DeliveryStore)
      → P t.deliveries
      → Keeps t (replay_dead_letter p id now t)
  unfolding replay_dead_letter
  replay_kept p id now t i = bind-Keeps t (iso p now (codes "now")) _ i λ timestamp _.
      bind-Keeps t
        (throw_if (not (count (is_dead id) t.deliveries == 1))
          (message (codes "delivery " ++ id ++ codes " is not dead-lettered")))
        _ i λ _ _. record { after = closed.replayed_kept id timestamp t.deliveries i }

  pub operate_kept :
      (p : Platform) (o : Operation) (t : DeliveryStore)
      → P t.deliveries
      → P (operate p o t).deliveries
  unfolding operate
  operate_kept p (save i now) t h = (save_kept p i now t h).after
  operate_kept p (advance id expected next now) t h =
      (advance_kept p id expected next now t h).after
  operate_kept p (enqueue s run_key period generated now) t h =
      (enqueue_kept p s run_key period generated now t h).after
  operate_kept p (claim now lease_ms) t h = (claim_kept p now lease_ms t h).after
  operate_kept p (finish id now) t h = (finish_kept p id now t h).after
  operate_kept p (fail id error next max now) t h = (fail_kept p id error next max now t h).after
  operate_kept p (replay id now) t h = (replay_kept p id now t h).after
