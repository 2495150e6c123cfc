-- ===== src/ChannelPool/Creations.antt =====
-- `#startCreate` of packages/core/src/fleet/channelPool.ts: an account joins the map, is not wanted
-- any more, or could not be created.
use stellar_agentic.Base.{
  ℕ, ◌+◌, ◌-◌, ◌≤◌, ◌≡◌, refl, sym, ◌∙◌, Bool, true, false, not, ◌&&◌, ◌||◌, List, [], ◌∷◌, ◌++◌,
  length, ◌==◌, Bool-cases, inl, inr, ltb, leb, arith,
}
use stellar_agentic.ChannelPool.{
  Entry, Pool, new_entry, has_entry, end_create, reject_first, fail_create, on_created,
  on_create_failed, on_surplus,
}
use stellar_agentic.ChannelPool.Entries.{one, entry_count, AreDistinct, count_absent}
use stellar_agentic.ChannelPool.Leases.{length-join, entry_count-join, leased_count-join}
use stellar_agentic.ChannelPool.Dispatch.{Core, Inv, IsShut, dispatch-Inv}
use stellar_agentic.ChannelPool.Calls.{Core-same, Inv-same, Inv-if}

end_create-Inv : (p : Pool) → Core p → IsShut p → Inv (end_create p)
unfolding end_create
end_create-Inv p c s =
    dispatch-Inv (record p { creating = p.creating - 1 })
      (Core-same p _ c refl refl refl refl (omega arith)) s

reject_first-Core : (ws : List ℕ) (p : Pool) → Core p → Core (reject_first ws p)
reject_first-Core [] p c = c
reject_first-Core (w ∷ ws) p c = Core-same p _ c refl refl refl refl (omega arith)

reject_first-IsShut :
    (ws : List ℕ) (p : Pool) → p.waiters ≡ ws → IsShut p → IsShut (reject_first ws p)
reject_first-IsShut [] p e s c = s c
reject_first-IsShut (w ∷ ws) p e s c = absurd (let h = s c in cc)

fail_create-Inv : (p : Pool) → Core p → IsShut p → Inv (fail_create p)
unfolding fail_create
fail_create-Inv p c s =
    end_create-Inv (reject_first p.waiters p) (reject_first-Core p.waiters p c)
      (reject_first-IsShut p.waiters p refl s)

pub absent-join :
    (a now : ℕ) (es : List Entry)
    → AreDistinct es
    → has_entry a es ≡ false
    → AreDistinct (es ++ new_entry a now ∷ [])
absent-join a now es d absent b = rw (entry_count-join b a now es) once
  where
    once : entry_count b es + one a b ≤ 1
    once = elim (Bool-cases (a == b)) [
      | inl same ↦
          let none_there = count_absent a es absent in
          let e : a ≡ b = ground arith in rw same (rw⁻¹ e (omega (arith, none_there)))
      | inr other ↦ rw other (omega (arith, d b))
    ]

join-Core :
    (p : Pool) (a now : ℕ)
    → Core p
    → ltb p.surplus p.creating ≡ true
    → has_entry a p.entries ≡ false
    → Core (record p { entries = p.entries ++ new_entry a now ∷ []; creating = p.creating - 1 })
join-Core p a now c busy absent = record {
  room = rw (length-join a now p.entries) (let r = c.room in ground arith);
  target = c.target;
  distinct = absent-join a now p.entries c.distinct absent;
  linked = λ b. c.linked b ∙ sym (leased_count-join b a now p.entries);
}

end_joined :
    (p : Pool) (a now : ℕ)
    → Inv p
    → ltb p.surplus p.creating ≡ true
    → has_entry a p.entries ≡ false
    → Inv (end_create (record p { entries = p.entries ++ new_entry a now ∷ [] }))
unfolding end_create
end_joined p a now i busy absent = dispatch-Inv _ (join-Core p a now i.core busy absent) i.shut

pub on_created-Inv : (p : Pool) (a now : ℕ) → Inv p → Inv (on_created p a now)
unfolding on_created
on_created-Inv p a now i =
    Inv-if (not (ltb p.surplus p.creating)) (λ b. i)
      λ b.
        Inv-if (p.closed || leb p.target_size (length p.entries))
          (λ u. Inv-same p _ i refl refl refl refl (omega arith) refl refl)
          λ w.
            Inv-if (has_entry a p.entries) (λ d. fail_create-Inv p i.core i.shut)
              λ n. end_joined p a now i (ground arith) n

pub on_create_failed-Inv : (p : Pool) → Inv p → Inv (on_create_failed p)
unfolding on_create_failed
on_create_failed-Inv p i =
    Inv-if (ltb p.surplus p.creating) (λ b. fail_create-Inv p i.core i.shut) (λ b. i)

pub on_surplus-Inv : (p : Pool) (failed : Bool) → Inv p → Inv (on_surplus p failed)
unfolding on_surplus
on_surplus-Inv p failed i =
    let c : Core (record p { surplus = p.surplus - 1 }) =
      Core-same p _ i.core refl refl refl refl (omega arith) in
    Inv-if (not (ltb 0 p.surplus && ltb 0 p.creating)) (λ b. i)
      λ b. Inv-if failed (λ f. fail_create-Inv _ c i.shut) (λ f. end_create-Inv _ c i.shut)
