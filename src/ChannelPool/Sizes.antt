-- ===== src/ChannelPool/Sizes.antt =====
-- `resize` and `close` of packages/core/src/fleet/channelPool.ts.
use stellar_agentic.Base.{
  ℕ, suc, zero, ◌+◌, ◌≡◌, refl, sym, ◌∙◌, Bool, true, false, not, ◌&&◌, [], ◌∷◌, length,
  Option-cases, inl, inr, ltb, Result, throw_if, ◌>>=◌, arith,
}
use stellar_agentic.ChannelPool.{
  Entry, Pool, Resize, ordered, shrinking, update_entry, is_leased, resize, ResizeError,
  resize_closed, bad_size, no_factory, find_resize, shrink_entry, continue_resize, on_resize, close,
  after,
}
use stellar_agentic.ChannelPool.Entries.{
  entry_count-update_entry, length-update_entry, leased_count-retire,
}
use stellar_agentic.ChannelPool.Leases.{
  length-busy_entries, entry_count-busy_entries, leased_count-busy_entries, NoneFree-delete_entry,
  NoneFree-retire,
}
use stellar_agentic.ChannelPool.Dispatch.{Inv}
use stellar_agentic.ChannelPool.Calls.{Inv-same, Inv-if}
use stellar_agentic.ChannelPool.Releases.{reclaim-Core}

Inv-throw :
    (p : Pool) (b : Bool) (e : ResizeError) (k : Unit {0} → Result ResizeError Pool)
    → Inv p
    → (b ≡ false → Inv (after p (k tt)))
    → Inv (after p (throw_if b e >>= k))
Inv-throw p true e k i h = i
Inv-throw p false e k i h = h refl

pub resize-Inv : (p : Pool) (call size : ℕ) → Inv p → Inv (after p (resize p call size))
unfolding resize
resize-Inv p call size i = Inv-throw p p.closed resize_closed _ i λ up.
    Inv-throw p (ltb p.max_size size) bad_size _ i λ fits.
      Inv-throw p (ltb (length p.entries + p.creating) size && not p.has_factory) no_factory _ i
        λ can. record {
          core = record {
            room = let r = i.core.room in ground arith;
            target = ground arith;
            distinct = i.core.distinct;
            linked = i.core.linked;
          };
          served = i.served;
          shut = i.shut;
        }

abbrev mark : Entry → Entry
mark e = record e { retire = true }

retired-Inv :
    (p : Pool) (a : ℕ) → Inv p → Inv (record p { entries = update_entry a mark p.entries })
retired-Inv p a i = record {
  core = record {
    room = rw (length-update_entry mark (λ e. refl) a p.entries) i.core.room;
    target = i.core.target;
    distinct =
        λ b. rw (entry_count-update_entry mark (λ e. refl) b a p.entries) (i.core.distinct b);
    linked = λ b. i.core.linked b ∙ sym (leased_count-retire b a p.entries);
  };
  served = elim i.served [
    | inl nobody ↦ inl nobody
    | inr busy ↦ inr (NoneFree-retire a p.entries busy)
  ];
  shut = i.shut;
}

shrink_entry-Inv : (p : Pool) (a : ℕ) → Inv p → Inv (shrink_entry p a)
unfolding shrink_entry
shrink_entry-Inv p a i =
    Inv-if (is_leased a p.entries) (λ b. retired-Inv p a i)
      λ idle. record {
        core = reclaim-Core p _ a i.core idle refl refl refl refl refl;
        served = elim i.served [
          | inl nobody ↦ inl nobody
          | inr busy ↦ inr (NoneFree-delete_entry a p.entries busy)
        ];
        shut = i.shut;
      }

continue_resize-Inv : (p : Pool) (call : ℕ) (r : Resize) → Inv p → Inv (continue_resize p call r)
unfolding continue_resize
continue_resize-Inv p call (ordered size) i =
    Inv-same p _ i refl refl refl refl (omega arith) refl refl
continue_resize-Inv p call (shrinking zero as') i = i
continue_resize-Inv p call (shrinking (suc excess) []) i = i
continue_resize-Inv p call (shrinking (suc excess) (a ∷ as')) i =
    shrink_entry-Inv _ a (Inv-same p _ i refl refl refl refl (omega arith) refl refl)

pub on_resize-Inv : (p : Pool) (call : ℕ) → Inv p → Inv (on_resize p call)
unfolding on_resize
on_resize-Inv p call i = elim (Option-cases (find_resize call p.resizes)) [
  | inl e ↦ rw (e, on_resize) i
  | inr (r, e) ↦ rw (e, on_resize) (continue_resize-Inv p call r i)
]

pub close-Inv : (p : Pool) → Inv p → Inv (close p)
unfolding close
close-Inv p i =
    Inv-if p.closed (λ c. i)
      (λ c. record {
        core = record {
          room = omega (arith, i.core.room, length-busy_entries p.entries);
          target = omega arith;
          distinct = λ a. omega (arith, i.core.distinct a, entry_count-busy_entries a p.entries);
          linked = λ a. i.core.linked a ∙ sym (leased_count-busy_entries a p.entries);
        };
        served = inl refl;
        shut = λ s. refl;
      })
