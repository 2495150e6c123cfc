-- ===== src/Delivery/Final.antt =====
-- A delivery of packages/indexer/src/delivery.ts that is delivered stays as it is.
use mathlib.Core.List.{Mem, mem-cons, mem-cons_self, not-mem-nil, mem-cons_of_mem, Mem-prop}
use mathlib.Core.Logic.Or
use stellar_agentic.Base.{
  ◌≡◌, refl, sym, ap, ◌∙◌, Bool, true, false, some, List, [], ◌∷◌, ◌++◌, find, update, Bool-cases,
  inl, inr, All-imp, All-mem, not, ◌||◌, arith,
}
use stellar_agentic.Base.Numbers.{Bytes}
use stellar_agentic.Delivery.Calls.{Closed, operate_kept}
use stellar_agentic.Delivery.Operations.{Operation, operate_all}
use stellar_agentic.Delivery.Claims.{same_status, has_delivery_id, is_claimed, is_row, is_dead}
use stellar_agentic.Delivery.Invariant.{Inv, closed-Inv}
use stellar_agentic.Delivery.Rows.{claimed-only}
use stellar_agentic.Delivery.States.{is_open}
use stellar_agentic.Delivery.{
  Platform, DeliveryStatus, delivering, delivered, dead_letter, ReportDelivery, DeliveryStore,
}

update-Mem :
    {A : Type 0} (f : A → Bool) (g : A → A) (xs : List A) {d : A}
    → f d ≡ false
    → Mem d xs
    → Mem d (update f g xs)
update-Mem f g [] h m = absurd (not-mem-nil m)
update-Mem f g (x ∷ xs) {d} h m =
    Or.elim Mem-prop (mem-cons.0 m) (λ e. rw (sym e, h) mem-cons_self)
      (λ k. mem-cons_of_mem _ (update-Mem f g xs h k))

append-Mem : {A : Type 0} (xs : List A) (y : A) {d : A} → Mem d xs → Mem d (xs ++ y ∷ [])
append-Mem [] y m = absurd (not-mem-nil m)
append-Mem (x ∷ xs) y {d} m =
    Or.elim Mem-prop (mem-cons.0 m) (λ e. rw (sym e) mem-cons_self)
      (λ k. mem-cons_of_mem _ (append-Mem xs y k))

open-undue : (s : DeliveryStatus) → is_open s ≡ true → same_status delivered s ≡ false
open-undue DeliveryStatus.pending h = refl
open-undue DeliveryStatus.delivering h = refl
open-undue DeliveryStatus.retry h = refl
open-undue DeliveryStatus.delivered h = absurd (cc h)
open-undue DeliveryStatus.dead_letter h = absurd (cc h)

-- The deliveries are sound and the delivery is one of them.
record Holds (d : ReportDelivery) (ds : List ReportDelivery) : Type 0 where
  sound : Inv ds
  member : Mem d ds

module _ (d : ReportDelivery) (done : d.status ≡ delivered) where
  status_is :
      (s : DeliveryStatus) → same_status delivered s ≡ false → same_status d.status s ≡ false
  status_is s h = ap (λ x. same_status x s) done ∙ h

  row_untouched : (row : ReportDelivery) → is_open row.status ≡ true → is_row row d ≡ false
  row_untouched row o = let k = status_is row.status (open-undue row.status o) in ground (arith, k)

  claim_untouched : (id : Bytes) → is_claimed id d ≡ false
  claim_untouched id = let k = status_is delivering refl in ground (arith, k)

  dead_untouched : (id : Bytes) → is_dead id d ≡ false
  dead_untouched id = let k = status_is dead_letter refl in ground (arith, k)

  implied :
      (id : Bytes) (e : ReportDelivery)
      → (has_delivery_id id e ≡ true → same_status e.status delivering ≡ true)
      → (not (has_delivery_id id e) || same_status e.status delivering) ≡ true
  implied id e h = elim (Bool-cases (has_delivery_id id e)) [
    | inl t ↦ rw (t, h t) refl
    | inr t ↦ rw t refl
  ]

  failure_untouched :
      (id : Bytes) (r : ReportDelivery) (ds : List ReportDelivery)
      → find (is_claimed id) ds ≡ some r
      → Holds d ds
      → has_delivery_id id d ≡ false
  failure_untouched id r ds found h =
      let only = claimed-only id ds r found h.sound.distinct in
      let k =
        All-mem (λ e. not (has_delivery_id id e) || same_status e.status delivering) ds
          (All-imp ds (implied id) only) h.member in
      let l = status_is delivering refl in ground (arith, k, l)

  closed-Holds : Closed (Holds d)
  closed-Holds = record {
    claimed_kept = λ lease timestamp row ds o h. record {
      sound = closed-Inv.claimed_kept lease timestamp row ds o h.sound;
      member = update-Mem (is_row row) _ ds (row_untouched row o) h.member;
    };
    finished_kept = λ id timestamp ds h. record {
      sound = closed-Inv.finished_kept id timestamp ds h.sound;
      member = update-Mem (is_claimed id) _ ds (claim_untouched id) h.member;
    };
    failed_kept = λ id next error timestamp max n r ds found h. record {
      sound = closed-Inv.failed_kept id next error timestamp max n r ds found h.sound;
      member = update-Mem (has_delivery_id id) _ ds (failure_untouched id r ds found h) h.member;
    };
    replayed_kept = λ id timestamp ds h. record {
      sound = closed-Inv.replayed_kept id timestamp ds h.sound;
      member = update-Mem (is_dead id) _ ds (dead_untouched id) h.member;
    };
    queued_kept = λ e ds free s h. record {
      sound = closed-Inv.queued_kept e ds free s h.sound;
      member = append-Mem ds e h.member;
    };
  }

  operations-Holds :
      (p : Platform) (os : List Operation) (t : DeliveryStore)
      → Holds d t.deliveries
      → Holds d (operate_all p os t).deliveries
  unfolding operate_all
  operations-Holds p [] t h = h
  operations-Holds p (o ∷ os) t h =
      operations-Holds p os _ (operate_kept (Holds d) closed-Holds p o t h)

-- A delivery that is delivered stays so: where the tables are sound, whatever calls of the store
-- follow, in any order and with any arguments, a row with the status `delivered` stays in the table with
-- all its columns unchanged; no claim, end of a claim, replay or new artifact touches it.
pub delivered_final :
    (p : Platform) (os : List Operation) (t : DeliveryStore) (d : ReportDelivery)
    → Inv t.deliveries
    → d.status ≡ delivered
    → Mem d t.deliveries
    → Mem d (operate_all p os t).deliveries
delivered_final p os t d i done m =
    (operations-Holds d done p os t (record { sound = i; member = m })).member
