-- ===== src/Mpsc/Inv/Producer.antt =====
-- An access of a producer that keeps to its rules keeps the invariant.
use ultima_rings.Base.{
  ℕ, ◌+◌, ◌-◌, ◌≤◌, ◌<◌, refl, true, ◌&&◌, List, arith, ◌^◌, Bool-cases, inl, inr, ◌==◌, leb,
  add_usize, sub_usize,
}
use ultima_rings.Channel.{ok}
use ultima_rings.Program.{act}
use ultima_rings.Mpsc.Defs.{
  Access, load_claim, load_head, load_senders, load_rx_dropped, load_round, store_head, store_round,
  store_rx_dropped, compare_exchange_weak, fetch_add_senders, fetch_sub_senders, write_slot,
  read_slot, fence, wake_consumer, prepare_park, cancel, park, wake_producers, prepare_wait, wait,
  pause, apply, Reply, Code,
}
use ultima_rings.Mpsc.Inv.{Inv, push_of}
use ultima_rings.Mpsc.Inv.Claim.{held-pos}
use ultima_rings.Mpsc.Rules.{Push, Pull, Produces}
use ultima_rings.Mpsc.State.{State, producer_access}
use ultima_rings.Mpsc.Inv.Fill.{claim-Moved, write-Moved, publish-Moved}
use ultima_rings.Mpsc.Inv.Know.{load_head-Moved, add-Holders, sub-Holders, count-Moved}
use ultima_rings.Mpsc.Inv.Moved.{Yields, Moved, same}

module _ {T A : Type 0} (cap handles me : ℕ) (Q : A → Push T → List (ℕ × T) → Type 0) where
  -- Whatever it is, an access that keeps to the producer's rules leaves the invariant.
  pub producer_access-Moved :
      (choice : ℕ) (s : State T) (q : Pull) (c : Access T) (k : Reply c → Code T A)
      (out : List (ℕ × T))
      → me < handles
      → handles ≤ 2 ^ 62
      → 0 < cap
      → Inv cap handles s q
      → Produces cap Q (act c k) (push_of s me) out
      → Yields (λ (r, s'). Moved cap handles me Q s s' (k r) q out) (producer_access me choice s c)
  unfolding producer_access
  producer_access-Moved choice s q (load_claim o) k out lt few pos inv rule =
      elim (Bool-cases (leb choice s.claim)) [
        | inl e ↦ rw e (
            same cap handles me Q s s _ q out inv
              (rule choice (ground (arith, e, inv.counters.small))) (λ i. refl) refl refl refl)
        | inr e ↦ rw e tt
      ]
  producer_access-Moved choice s q (load_head o) k out lt few pos inv rule =
      elim (Bool-cases (leb choice s.head.latest)) [
        | inl e ↦
            rw e (load_head-Moved cap handles me Q choice s q o k out inv rule (ground (arith, e)))
        | inr e ↦ rw e tt
      ]
  producer_access-Moved choice s q (load_rx_dropped o) k out lt few pos inv rule =
      same cap handles me Q s s _ q out inv (rule _) (λ i. refl) refl refl refl
  producer_access-Moved choice s q (compare_exchange_weak o o' expected new) k out lt few pos inv
        (idle, live, next, small, room, won, lost) =
      elim (Bool-cases (leb choice s.claim)) [
        | inl e ↦ rw e (
            same cap handles me Q s s _ q out inv
              (lost choice (ground (arith, e, inv.counters.small))) (λ i. refl) refl refl refl)
        | inr e ↦ rw e (elim (Bool-cases (s.claim == expected)) [
          | inl f ↦ rw f (
              claim-Moved cap handles me Q s q expected new (k (ok tt)) out lt inv
                (ground (arith, f)) idle live next small room won)
          | inr f ↦ rw f tt
        ])
      ]
  producer_access-Moved choice s q (write_slot i v) k out lt few pos inv (n, pend, index, rule) =
      rw index (write-Moved cap handles me Q choice s q n v k out lt inv pos pend rule)
  producer_access-Moved choice s q (store_round o i r) k out lt few pos inv
        (n, v, pend, index, round, rel, rule) =
      rw (index, round)
        (publish-Moved cap handles me Q choice s q o n v k out lt inv pos pend rel rule)
  producer_access-Moved choice s q (fetch_add_senders o) k out lt few pos inv (one, rule) =
      count-Moved cap handles me Q s q (add_usize s.senders 1) (s.holds me + 1) s.chained (k tt) out
        inv (held-pos handles s.senders s.chained s.holds s.pending me inv.holders lt (omega arith))
        (add-Holders cap handles me Q s lt few one inv.holders) (rw one rule)
  producer_access-Moved choice s q (fetch_sub_senders o) k out lt few pos inv
        (one, quiet, acq, rel, rule) =
      rw (acq, rel)
        (count-Moved cap handles me Q s q (sub_usize s.senders 1) (s.holds me - 1)
          (s.chained && true) (k s.senders) out inv
          (held-pos handles s.senders s.chained s.holds s.pending me inv.holders lt (omega arith))
          (sub-Holders cap handles me Q s lt few one quiet inv.holders) (rw one (rule s.senders)))
  producer_access-Moved choice s q (fence _) k out lt few pos inv rule =
      same cap handles me Q s s _ q out inv rule (λ i. refl) refl refl refl
  producer_access-Moved choice s q (pause _) k out lt few pos inv rule =
      same cap handles me Q s s _ q out inv rule (λ i. refl) refl refl refl
  producer_access-Moved choice s q wait k out lt few pos inv rule =
      same cap handles me Q s s _ q out inv rule (λ i. refl) refl refl refl
  producer_access-Moved choice s q wake_consumer k out lt few pos inv rule =
      same cap handles me Q s _ _ q out inv rule (λ i. refl) refl refl refl
  producer_access-Moved choice s q prepare_wait k out lt few pos inv rule =
      same cap handles me Q s _ _ q out inv rule (λ i. refl) refl refl refl
  producer_access-Moved choice s q (load_senders _) k out lt few pos inv rule = absurd rule
  producer_access-Moved choice s q (load_round _ _) k out lt few pos inv rule = absurd rule
  producer_access-Moved choice s q (store_head _ _) k out lt few pos inv rule = absurd rule
  producer_access-Moved choice s q (store_rx_dropped _) k out lt few pos inv rule = absurd rule
  producer_access-Moved choice s q (read_slot _) k out lt few pos inv rule = absurd rule
  producer_access-Moved choice s q prepare_park k out lt few pos inv rule = absurd rule
  producer_access-Moved choice s q cancel k out lt few pos inv rule = absurd rule
  producer_access-Moved choice s q park k out lt few pos inv rule = absurd rule
  producer_access-Moved choice s q wake_producers k out lt few pos inv rule = absurd rule
  producer_access-Moved choice s q (apply _) k out lt few pos inv rule = absurd rule
