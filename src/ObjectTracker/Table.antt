-- ===== src/ObjectTracker/Table.antt =====
-- What the operations on the object table of gtf/test_state.c find and leave in it.
use driver_optimizer.Prelude.{
  ℕ, ◌≡◌, inl, inr, false, Option, none, some, arith, ◌==◌, if◌then◌else◌, Option-cases,
}
use driver_optimizer.Action.{ok}
use driver_optimizer.Hashtable.{Hashtable}
use driver_optimizer.State.{HValue, GlobalState}
use driver_optimizer.ObjectTracker.{objs_insert, is_insane}

module _ {T : Type 0} ⦃h : Hashtable T HValue⦄ where
  -- what the tracker records of an object
  abbrev pub tracked : GlobalState T → ℕ → Option HValue
  tracked s object = h.search s.objs object

  -- The contexts and the interrupt switch, which the tracker leaves alone.
  pub record SameContexts (s t : GlobalState T) : Type 0 where
    pub blocking_context : t.blocking_context ≡ s.blocking_context
    pub blocking_context_current : t.blocking_context_current ≡ s.blocking_context_current
    pub user_context : t.user_context ≡ s.user_context
    pub user_context_current : t.user_context_current ≡ s.user_context_current
    pub device_irq_disabled : t.device_irq_disabled ≡ s.device_irq_disabled

  -- What a successful insertion has tested, and what it leaves.
  pub record Inserted (key : ℕ) (value : HValue) (s t : GlobalState T) : Type 0 where
    pub absent : tracked s key ≡ none
    pub sane : is_insane value.size ≡ false
    pub found : (j : ℕ) → tracked t j ≡ (if key == j then some value else tracked s j)
    pub dirty : t.objs_dirty ≡ 1
    pub contexts : SameContexts s t

  pub objs_insert-Inserted :
      (key : ℕ) (value : HValue) (s : GlobalState T) {r : Unit × GlobalState T}
      → objs_insert key value s ≡ ok r
      → Inserted key value s r.1
  unfolding objs_insert
  objs_insert-Inserted key value s p = elim (Option-cases (h.insert s.objs key value)) [
    | inl e ↦ absurd (ground arith)
    | inr (objs, e) ↦ record {
      absent = ground arith;
      sane = ground arith;
      found = λ j. ground (arith, h.search-insert s.objs key j value objs);
      dirty = ground arith;
      contexts = ground arith;
    }
  ]
