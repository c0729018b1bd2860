-- ===== src/Mpsc/Progress.antt =====
-- No access of a handle of src/mpsc.rs goes wrong: none races, leaks a value, reads a slot that holds
-- none, leaves the buffer, or uses a slot that its thread has not claimed.
use native.Mathlib.Nat.{le_refl}
use ultima_rings.Base.{ℕ, ◌%◌, ◌/◌, ◌<◌, ◌≡◌, refl, subst, true, ◌&&◌, List, arith, leb}
use ultima_rings.Memory.{HasResult, releases}
use ultima_rings.Program.{act}
use ultima_rings.Mpsc.Config.{IsConfig, cap_bounds}
use ultima_rings.Mpsc.Defs.{
  Config, Access, load_claim, load_head, load_senders, load_rx_dropped, load_round, store_head,
  store_round, store_rx_dropped, compare_exchange_weak, fetch_add_senders, fetch_sub_senders,
  write_slot, read_slot, fence, wake_consumer, prepare_park, cancel, park, wake_producers,
  prepare_wait, wait, pause, apply, Reply, Code,
}
use ultima_rings.Mpsc.Inv.{Inv, SlotAt, push_of}
use ultima_rings.Mpsc.Inv.Own.{claimed-window, filled-window}
use ultima_rings.Mpsc.Reachable.{Reach-Sound}
use ultima_rings.Mpsc.Rules.{Push, Produces, Pull, Consumes}
use ultima_rings.Mpsc.Sound.{sender_at, receiver_at}
use ultima_rings.Mpsc.State.{State, Pending, claiming, filling, producer_access, consumer_access}
use ultima_rings.Mpsc.System.{
  System, SendCall, RecvCall, SendResult, RecvResult, SendThread, RecvThread, Reach,
}

module _ {T A : Type 0} (cap handles : ℕ) where
  producer_access-HasResult :
      (me : ℕ) (Q : A → Push T → List (ℕ × T) → Type 0) (s : State T) (q : Pull) (c : Access T)
      (k : Reply c → Code T A) (out : List (ℕ × T))
      → Inv cap handles s q
      → Produces cap Q (act c k) (push_of s me) out
      → (choice : ℕ) × HasResult (producer_access me choice s c)
  unfolding producer_access
  producer_access-HasResult me Q s q (load_claim o) k out inv rule =
      let e : leb s.claim s.claim ≡ true = ground arith in (s.claim, rw e (_, refl))
  producer_access-HasResult me Q s q (load_head o) k out inv rule =
      let e : leb s.head.latest s.head.latest ≡ true = ground arith in
      (s.head.latest, rw e (_, refl))
  producer_access-HasResult me Q s q (load_rx_dropped o) k out inv rule = (1, (_, refl))
  producer_access-HasResult me Q s q (compare_exchange_weak o o' expected new) k out inv rule =
      let e : leb s.claim s.claim ≡ true = ground arith in (s.claim, rw e (_, refl))
  producer_access-HasResult me Q s q (write_slot i v) k out inv (n, pend, index, rule) =
      let (lo, hi, mine) = claimed-window s q inv me n pend in
      let a = subst (SlotAt cap s.slots s.seen_round n) mine (inv.window n lo hi) in
      let (empty, stamp, latest, writes) = a.holds in
      let (claim, near) = inv.owners.claims me n pend in
      let known : leb a.slot.stamp (s.known_reads me) ≡ true = ground (arith, stamp) in
      (1, rw (index, a.here, pend, empty, known) (_, refl))
  producer_access-HasResult me Q s q (store_round o i r) k out inv
        (n, v, pend, index, round, rel, rule) =
      let (lo, hi, mine) = filled-window s q inv me n v pend in
      let a = inv.window n lo hi in (1, rw (index, a.here, pend) (_, refl))
  producer_access-HasResult me Q s q (fetch_add_senders o) k out inv rule = (1, (_, refl))
  producer_access-HasResult me Q s q (fetch_sub_senders o) k out inv rule = (1, (_, refl))
  producer_access-HasResult me Q s q (fence _) k out inv rule = (1, (_, refl))
  producer_access-HasResult me Q s q (pause _) k out inv rule = (1, (_, refl))
  producer_access-HasResult me Q s q wait k out inv rule = (1, (_, refl))
  producer_access-HasResult me Q s q wake_consumer k out inv rule = (1, (_, refl))
  producer_access-HasResult me Q s q prepare_wait k out inv rule = (1, (_, refl))
  producer_access-HasResult me Q s q (load_senders _) k out inv rule = absurd rule
  producer_access-HasResult me Q s q (load_round _ _) k out inv rule = absurd rule
  producer_access-HasResult me Q s q (store_head _ _) k out inv rule = absurd rule
  producer_access-HasResult me Q s q (store_rx_dropped _) k out inv rule = absurd rule
  producer_access-HasResult me Q s q (read_slot _) k out inv rule = absurd rule
  producer_access-HasResult me Q s q prepare_park k out inv rule = absurd rule
  producer_access-HasResult me Q s q cancel k out inv rule = absurd rule
  producer_access-HasResult me Q s q park k out inv rule = absurd rule
  producer_access-HasResult me Q s q wake_producers k out inv rule = absurd rule
  producer_access-HasResult me Q s q (apply _) k out inv rule = absurd rule

  consumer_access-HasResult :
      (Q : A → Pull → List T → List T → Type 0) (s : State T) (q : Pull) (c : Access T)
      (k : Reply c → Code T A) (out given : List T)
      → 0 < cap
      → Inv cap handles s q
      → Consumes cap Q (act c k) q out given
      → (choice : ℕ) × HasResult (consumer_access choice s c)
  unfolding consumer_access
  consumer_access-HasResult Q s q (load_round o i) k out given pos inv (index, acq, rule) =
      let a = inv.window q.read (le_refl _) (omega arith) in
      let e : (leb (s.seen_round (q.read % cap)) a.slot.rounds.latest
            && leb a.slot.rounds.latest a.slot.rounds.latest)
          ≡ true =
        ground (arith, a.seen_le) in
      (a.slot.rounds.latest, rw (index, a.here, e) (_, refl))
  consumer_access-HasResult Q s q (load_senders o) k out given pos inv rule = (1, (_, refl))
  consumer_access-HasResult Q s q (read_slot i) k out given pos inv (avail, index, rule) =
      let (v, p, saw, known) = inv.certain.available avail in
      let a =
        subst (SlotAt cap s.slots s.seen_round q.read) p
          (inv.window q.read (le_refl _) (omega arith)) in
      let (full, latest, writes) = a.holds in
      let seen : leb a.slot.writes (s.known_writes (q.read % cap)) ≡ true =
        ground (arith, writes, known) in
      (1, rw (index, a.here, full, seen) (_, refl))
  consumer_access-HasResult Q s q (store_head o x) k out given pos inv rule = (1, (_, refl))
  consumer_access-HasResult Q s q (store_rx_dropped o) k out given pos inv rule = (1, (_, refl))
  consumer_access-HasResult Q s q (apply v) k out given pos inv rule = (1, (_, refl))
  consumer_access-HasResult Q s q (fence _) k out given pos inv rule = (1, (_, refl))
  consumer_access-HasResult Q s q (pause _) k out given pos inv rule = (1, (_, refl))
  consumer_access-HasResult Q s q wake_producers k out given pos inv rule = (1, (_, refl))
  consumer_access-HasResult Q s q prepare_park k out given pos inv rule = (1, (_, refl))
  consumer_access-HasResult Q s q cancel k out given pos inv rule = (1, (_, refl))
  consumer_access-HasResult Q s q park k out given pos inv rule = (1, (_, refl))
  consumer_access-HasResult Q s q (load_claim _) k out given pos inv rule = absurd rule
  consumer_access-HasResult Q s q (load_head _) k out given pos inv rule = absurd rule
  consumer_access-HasResult Q s q (load_rx_dropped _) k out given pos inv rule = absurd rule
  consumer_access-HasResult Q s q (store_round _ _ _) k out given pos inv rule = absurd rule
  consumer_access-HasResult Q s q (compare_exchange_weak _ _ _ _) k out given pos inv rule =
      absurd rule
  consumer_access-HasResult Q s q (fetch_add_senders _) k out given pos inv rule = absurd rule
  consumer_access-HasResult Q s q (fetch_sub_senders _) k out given pos inv rule = absurd rule
  consumer_access-HasResult Q s q (write_slot _ _) k out given pos inv rule = absurd rule
  consumer_access-HasResult Q s q wake_consumer k out given pos inv rule = absurd rule
  consumer_access-HasResult Q s q prepare_wait k out given pos inv rule = absurd rule
  consumer_access-HasResult Q s q wait k out given pos inv rule = absurd rule

-- The slot and the round of an access are those of the sequence that its sender is about.
abbrev pub UsesClaim : {T : Type 0} → ℕ → Pending T → Access T → Type 0
UsesClaim cap p (write_slot i v) = (seq : ℕ) × (p ≡ claiming seq) × (i ≡ seq % cap)
UsesClaim {T} cap p (store_round o i r) =
    (seq : ℕ) × (v : T) × (p ≡ filling seq v)
    × (i ≡ seq % cap)
    × (r ≡ seq / cap)
    × (releases o ≡ true)
UsesClaim cap p _ = Unit

producer_access-UsesClaim :
    {T A : Type 0} (cap : ℕ) (Q : A → Push T → List (ℕ × T) → Type 0) (p : Push T) (c : Access T)
    (k : Reply c → Code T A) (out : List (ℕ × T))
    → Produces cap Q (act c k) p out
    → UsesClaim cap p.pending c
producer_access-UsesClaim cap Q p (write_slot i v) k out (seq, pend, index, _) = (seq, pend, index)
producer_access-UsesClaim cap Q p (store_round o i r) k out (seq, v, pend, index, round, rel, _) =
    (seq, v, pend, index, round, rel)
producer_access-UsesClaim cap Q p _ k out rule = tt

module _ {T : Type 0} {sh : Config} (is : IsConfig sh) {y : System T} (reach : Reach sh y) where
  -- In every reachable state of a valid ring, the next access of a sender in a call has a result for
  -- some value that it may read: a slot write stays in the buffer, finds no value in the slot and does
  -- not race with the read of the slot's last value. A slot write is into the slot of
  -- the sequence that the sender has claimed, and the store of a round is into the slot of the
  -- sequence whose value the sender has written, of that sequence's round, and a release.
  pub senders_progress :
      (me : ℕ) (call : SendCall T) (began : ℕ) (c : Access T)
      (k : Reply c → Code T (SendResult call))
      → y.senders me ≡ SendThread.busy call began (act c k)
      → ((choice : ℕ) × HasResult (producer_access me choice y.state c))
        × UsesClaim sh.cap (y.state.pending me) c
  senders_progress me call began c k e =
      let d = Reach-Sound is reach in
      let a = sender_at is d me e in
      (
        producer_access-HasResult sh.cap y.handles me _ y.state d.pull c k a.out d.inv a.rule,
        producer_access-UsesClaim sh.cap _ (push_of y.state me) c k a.out a.rule,
      )

  -- In every reachable state of a valid ring, the next access of the receiver in a call has a result
  -- for some value that it may read: a slot read stays in the buffer, finds a value, and does not race
  -- with the write of it.
  pub reader_progress :
      (call : RecvCall T) (began : ℕ) (c : Access T) (k : Reply c → Code T (RecvResult call))
      → y.receiver ≡ RecvThread.busy call began (act c k)
      → (choice : ℕ) × HasResult (consumer_access choice y.state c)
  reader_progress call began c k e =
      let d = Reach-Sound is reach in
      let a = receiver_at is d e in
      consumer_access-HasResult sh.cap y.handles _ y.state d.pull c k a.out a.given
        (cap_bounds is).0 d.inv a.rule
