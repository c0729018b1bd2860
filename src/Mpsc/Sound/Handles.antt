-- ===== src/Mpsc/Sound/Handles.antt =====
-- The count of senders when a clone becomes a sender of its own.
use ultima_rings.Base.{
  ℕ, suc, ◌+◌, ◌<◌, ◌≡◌, true, arith, total-update, total-update_ge, update, ◌==◌,
}
use ultima_rings.Mpsc.Inv.{Inv, Holders}
use ultima_rings.Mpsc.Rules.{Pull}
use ultima_rings.Mpsc.State.{State}

module _ {T : Type 0} (cap handles me : ℕ) where
  clone-Holders :
      (s : State T)
      → Holders handles s.senders s.chained s.holds s.pending
      → me < handles
      → s.holds me ≡ 2
      → Holders (handles + 1) s.senders s.chained (update (update s.holds me 1) handles 1) s.pending
  clone-Holders s h lt two = record {
    count =
        let one : handles + 1 ≡ suc handles = omega arith in
        let e : (handles == handles) ≡ true = ground arith in
        rw one (
          rw e (
            omega (
              arith,
              h.count,
              total-update handles me 1 s.holds lt,
              total-update_ge handles handles 1 (update s.holds me 1) (omega arith),
            )));
    few = λ i. ground (arith, h.few i);
    beyond = λ i ge. ground (arith, h.beyond i);
    idle = λ i z. ground (arith, h.idle i);
    chain = h.chain;
  }

  pub clone-Inv :
      (s : State T) (q : Pull)
      → Inv cap handles s q
      → me < handles
      → s.holds me ≡ 2
      → Inv cap (handles + 1) (record s { holds = update (update s.holds me 1) handles 1 }) q
  clone-Inv s q inv lt two = record {
    phase = inv.phase;
    size = inv.size;
    counters = inv.counters;
    owners = inv.owners;
    window = inv.window;
    logs = inv.logs;
    sent = inv.sent;
    rising = inv.rising;
    holders = clone-Holders s inv.holders lt two;
    certain = record { available = inv.certain.available; complete = inv.certain.complete };
  }
