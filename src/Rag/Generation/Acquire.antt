-- ===== src/Rag/Generation/Acquire.antt =====
-- The wait for a generation slot ends, within its timeout or by the cancel event.
use local_graph_rag.Prelude.{
  ℕ, zero, suc, ◌+◌, ◌-◌, ◌≤◌, ◌<◌, ◌≡◌, refl, Bool, true, false, leb, min, arith, Bool-cases, inl,
  inr, ◌⊎◌,
}
use local_graph_rag.Rag.Generation.{
  Wait, got, expired, Slot, acquired, slot_cancelled, slot_timed_out, slot_from, generation_slot,
}

Wait-cases : (w : Wait) → (w ≡ got) ⊎ ((late : ℕ) × (w ≡ expired late))
Wait-cases got = inl refl
Wait-cases (expired late) = inr (late, refl)

module _ (timeout poll : ℕ) (is_set : ℕ → Bool) (waits : ℕ → Wait) where
  -- So many attempts were made, each before the timeout, not cancelled and without a slot; the second
  -- number is the time that they took.
  pub data Tried : ℕ → ℕ → Type 0 where
    none_tried : Tried 0 0
    tried_again :
        (i t late : ℕ)
        → Tried i t
        → is_set i ≡ false
        → t < timeout
        → waits i ≡ expired late
        → Tried (i + 1) (t + min poll (timeout - t) + late)

  -- The wait is over: at an attempt that is cancelled, at one that comes when the timeout has passed, or
  -- at one before that gets a slot.
  pub data Decided (slot : Slot) : Type 0 where
    by_cancel : (i t : ℕ) → Tried i t → is_set i ≡ true → slot ≡ slot_cancelled → Decided slot
    by_timeout :
        (i t : ℕ)
        → Tried i t
        → is_set i ≡ false
        → timeout ≤ t
        → slot ≡ slot_timed_out
        → Decided slot
    by_slot :
        (i t : ℕ)
        → Tried i t
        → is_set i ≡ false
        → t < timeout
        → waits i ≡ got
        → slot ≡ acquired
        → Decided slot

  later :
      (elapsed fuel late : ℕ)
      → 0 < poll
      → leb timeout elapsed ≡ false
      → timeout ≤ elapsed + suc fuel
      → timeout ≤ elapsed + min poll (timeout - elapsed) + late + fuel
  later elapsed fuel late polls early h = ground arith

  slot_from-Decided :
      (fuel attempt elapsed : ℕ)
      → 0 < poll
      → Tried attempt elapsed
      → timeout ≤ elapsed + fuel
      → Decided (slot_from timeout poll is_set waits (suc fuel) attempt elapsed)
  unfolding slot_from
  slot_from-Decided zero attempt elapsed polls tried h = elim (Bool-cases (is_set attempt)) [
    | inl set ↦ by_cancel attempt elapsed tried set (rw set refl)
    | inr unset ↦ elim (Bool-cases (leb timeout elapsed)) [
      | inl late ↦ by_timeout attempt elapsed tried unset (ground arith) (rw (unset, late) refl)
      | inr early ↦ absurd (ground arith)
    ]
  ]
  slot_from-Decided (suc fuel) attempt elapsed polls tried h = elim (Bool-cases (is_set attempt)) [
    | inl set ↦ by_cancel attempt elapsed tried set (rw set refl)
    | inr unset ↦ elim (Bool-cases (leb timeout elapsed)) [
      | inl late ↦ by_timeout attempt elapsed tried unset (ground arith) (rw (unset, late) refl)
      | inr early ↦ elim (Wait-cases (waits attempt)) [
        | inl has ↦
            by_slot attempt elapsed tried unset (ground arith) has (rw (unset, early, has) refl)
        | inr (late, lost) ↦
            rw (unset, early, lost)
              (slot_from-Decided fuel (attempt + 1) (elapsed + min poll (timeout - elapsed) + late)
                polls (tried_again attempt elapsed late tried unset (ground arith) lost)
                (later elapsed fuel late polls early h))
      ]
    ]
  ]

  -- With a positive poll the loop of `_generation_slot` ends, after attempts that each came before the
  -- timeout, were not cancelled and got no slot: at an attempt at which the cancel event is set, at
  -- one at which it is not and the timeout has passed, or at one before that with a slot.
  pub generation_slot-Decided : 0 < poll → Decided (generation_slot timeout poll is_set waits)
  unfolding generation_slot
  generation_slot-Decided polls = slot_from-Decided timeout 0 0 polls none_tried (omega arith)
