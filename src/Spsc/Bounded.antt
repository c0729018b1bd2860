-- ===== src/Spsc/Bounded.antt =====
-- The methods of src/spsc.rs that do not wait return after a bounded number of accesses.
use ultima_rings.Base.{ℕ, zero, suc, ◌+◌, ◌*◌, refl, arith}
use ultima_rings.Program.{End}
use ultima_rings.Program.Bounded.{Within, more, done, Within-le, Within-bind, Within-if}
use ultima_rings.Spsc.Defs.{Config, Sender, Receiver}
use ultima_rings.Spsc.Ops.{
  notify, publish, try_send, take_slot, try_recv, available, drain_loop, drain, hang_up,
}

module _ (T : Type 0) (sh : Config) where
  notify-Within : (end : End) → Within 2 (notify {T = T} sh end)
  notify-Within end = Within-if 2 _ (more 1 refl (λ _. (more 0 refl (λ _. done)))) done

  publish-Within : (self : Sender) (v : T) → Within 4 (publish sh self v)
  unfolding publish
  publish-Within self v =
      (more 3 refl (λ _. (more 2 refl (λ _. Within-bind 2 0 (notify-Within _) (λ _. done)))))

  try_send-Within : (self : Sender) (v : T) → Within 6 (try_send sh self v)
  unfolding try_send
  try_send-Within self v =
      (more 5 refl (λ disconnected. Within-if 5 _ done (
        Within-if 5 _ (more 4 refl (λ head. Within-if 4 _ done (publish-Within _ v)))
          (Within-le 4 5 (omega arith) (publish-Within self v)))))

  take_slot-Within : (self : Receiver) → Within 4 (take_slot {T = T} sh self)
  unfolding take_slot
  take_slot-Within self =
      (more 3 refl (λ _. (more 2 refl (λ _. Within-bind 2 0 (notify-Within _) (λ _. done)))))

  try_recv-Within : (self : Receiver) → Within 7 (try_recv {T = T} sh self)
  unfolding try_recv
  try_recv-Within self =
      Within-if 7 _
        (more 6 refl (λ tail.
          Within-if 6 _
            (more 5 refl (λ disconnected.
              Within-if 5 _ (more 4 refl (λ t. Within-if 4 _ done (take_slot-Within _))) done))
            (Within-le 4 6 (omega arith) (take_slot-Within _))))
        (Within-le 4 7 (omega arith) (take_slot-Within _))

  available-Within : (self : Receiver) → Within 1 (available {T = T} sh self)
  unfolding available
  available-Within self = Within-if 1 _ (more 0 refl (λ _. done)) done

  drain_loop-Within :
      (max : ℕ) (self : Receiver) (count : ℕ)
      → Within (3 * max) (drain_loop {T = T} sh max self count)
  unfolding drain_loop
  drain_loop-Within zero self count = done
  drain_loop-Within (suc n) self count = Within-le (1 + (3 * n + 2)) (3 * suc n) (omega arith) (
      Within-bind 1 (3 * n + 2) (available-Within self) (λ (self, there).
        Within-if (3 * n + 2) there
          (more (3 * n + 1) (omega arith) (λ v.
            (more (3 * n) refl
              (λ returned. Within-if (3 * n) returned (drain_loop-Within n _ _) done))))
          done))

  drain-Within : (self : Receiver) (max : ℕ) → Within (3 * max + 3) (drain {T = T} sh self max)
  unfolding drain
  drain-Within self max =
      Within-bind (3 * max) 3 (drain_loop-Within max self 0) (λ (after, count, returned).
        Within-bind 1 2 (Within-if 1 _ done (more 0 refl (λ _. done))) (λ _.
          Within-if 2 returned
            (Within-bind 2 0 (Within-if 2 _ (more 1 refl (λ _. (more 0 refl (λ _. done)))) done)
              (λ _. done))
            done))

  -- The methods that do not wait return after a bounded number of accesses, whatever the other thread
  -- does: `try_send` after at most 6, `try_recv` after 7, `drain` of at most `max` values after
  -- `3 * max + 3`, and the drop of a handle after 4. A call of the closure, a fence and a wake of a
  -- parker count as one access each.
  pub accesses_bounded :
      (sender : Sender) (v : T) (receiver : Receiver) (max : ℕ)
      → Within 6 (try_send sh sender v)
        × Within 7 (try_recv {T = T} sh receiver)
        × Within (3 * max + 3) (drain {T = T} sh receiver max)
        × Within 4 (hang_up {T = T})
  unfolding hang_up
  accesses_bounded sender v receiver max = (
    try_send-Within sender v,
    try_recv-Within receiver,
    drain-Within receiver max,
    (more 3 refl (λ _. (more 2 refl (λ _. (more 1 refl (λ _. (more 0 refl (λ _. done)))))))),
  )
