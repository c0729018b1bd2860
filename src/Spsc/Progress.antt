-- ===== src/Spsc/Progress.antt =====
-- No access of either handle of src/spsc.rs goes wrong: none races, leaks a value, reads a slot that
-- holds none, or leaves the buffer.
use ultima_rings.Base.{ℕ, ◌≡◌, refl, true, ◌&&◌, List, arith, leb, ltb, Bool-cases, inl, inr}
use ultima_rings.Memory.{HasResult}
use ultima_rings.Program.{act}
use ultima_rings.Spsc.Config.{IsConfig}
use ultima_rings.Spsc.Defs.{
  Config, Access, load_tail, load_head, load_disconnected, store_tail, store_head,
  store_disconnected, write_slot, read_slot, fence, wake, prepare_park, cancel, park, pause, apply,
  Reply, Code,
}
use ultima_rings.Spsc.Inv.{Inv}
use ultima_rings.Spsc.Inv.Slots.{next_slot-free, next_slot-full}
use ultima_rings.Spsc.Rules.{Push, Produces, Pull, Consumes}
use ultima_rings.Spsc.Sound.{Reach-Sound, sender_at, receiver_at}
use ultima_rings.Spsc.State.{State, producer_access, consumer_access}
use ultima_rings.Spsc.System.{
  System, SendCall, RecvCall, SendResult, RecvResult, SendThread, RecvThread, Reach,
}

module _ {T A : Type 0} (cap : ℕ) where
  producer_access-HasResult :
      (Q : A → Push → List T → Type 0) (s : State T) (p : Push) (q : Pull) (c : Access T)
      (k : Reply c → Code T A) (out : List T)
      → Inv cap s p q
      → Produces cap Q (act c k) p out
      → HasResult (producer_access s.head.latest s c)
  unfolding producer_access
  producer_access-HasResult Q s p q (load_head o) k out inv rule =
      let e : (leb s.seen_head s.head.latest && leb s.head.latest s.head.latest) ≡ true =
        ground (arith, inv.knows.seen_head) in
      rw e (_, refl)
  producer_access-HasResult Q s p q (write_slot i v) k out inv (live, room, index, rule) =
      let (stamp, old, e) = next_slot-free cap s p q inv room in rw (index, e, old) (_, refl)
  producer_access-HasResult Q s p q (load_disconnected o) k out inv rule = (_, refl)
  producer_access-HasResult Q s p q (store_tail o x) k out inv rule = (_, refl)
  producer_access-HasResult Q s p q (store_disconnected o) k out inv rule = (_, refl)
  producer_access-HasResult Q s p q (fence _) k out inv rule = (_, refl)
  producer_access-HasResult Q s p q (pause _) k out inv rule = (_, refl)
  producer_access-HasResult Q s p q (wake e) k out inv rule = (_, refl)
  producer_access-HasResult Q s p q (prepare_park e) k out inv rule = (_, refl)
  producer_access-HasResult Q s p q (cancel e) k out inv rule = (_, refl)
  producer_access-HasResult Q s p q (park e) k out inv rule = (_, refl)
  producer_access-HasResult Q s p q (load_tail _) k out inv rule = absurd rule
  producer_access-HasResult Q s p q (store_head _ _) k out inv rule = absurd rule
  producer_access-HasResult Q s p q (read_slot _) k out inv rule = absurd rule
  producer_access-HasResult Q s p q (apply _) k out inv rule = absurd rule

  consumer_access-HasResult :
      (Q : A → Pull → List T → List T → Type 0) (s : State T) (p : Push) (q : Pull) (c : Access T)
      (k : Reply c → Code T A) (out given : List T)
      → Inv cap s p q
      → Consumes cap Q (act c k) q out given
      → HasResult (consumer_access s.tail.latest s c)
  unfolding consumer_access
  consumer_access-HasResult Q s p q (load_tail o) k out given inv rule =
      let e : (leb s.seen_tail s.tail.latest && leb s.tail.latest s.tail.latest) ≡ true =
        ground (arith, inv.knows.seen_tail) in
      rw e (_, refl)
  consumer_access-HasResult Q s p q (read_slot i) k out given inv (more, index, rule) =
      let (v, value, old, e) = next_slot-full cap s p q inv more in rw (index, e, old) (_, refl)
  consumer_access-HasResult Q s p q (load_disconnected o) k out given inv rule =
      elim (Bool-cases (s.disconnected && ltb 0 s.tail.latest)) [
        | inl e ↦ rw e (_, refl)
        | inr e ↦ rw e (_, refl)
      ]
  consumer_access-HasResult Q s p q (store_head o x) k out given inv rule = (_, refl)
  consumer_access-HasResult Q s p q (store_disconnected o) k out given inv rule = (_, refl)
  consumer_access-HasResult Q s p q (apply v) k out given inv rule = (_, refl)
  consumer_access-HasResult Q s p q (fence _) k out given inv rule = (_, refl)
  consumer_access-HasResult Q s p q (pause _) k out given inv rule = (_, refl)
  consumer_access-HasResult Q s p q (wake e) k out given inv rule = (_, refl)
  consumer_access-HasResult Q s p q (prepare_park e) k out given inv rule = (_, refl)
  consumer_access-HasResult Q s p q (cancel e) k out given inv rule = (_, refl)
  consumer_access-HasResult Q s p q (park e) k out given inv rule = (_, refl)
  consumer_access-HasResult Q s p q (load_head _) k out given inv rule = absurd rule
  consumer_access-HasResult Q s p q (store_tail _ _) k out given inv rule = absurd rule
  consumer_access-HasResult Q s p q (write_slot _ _) k out given inv rule = absurd rule

module _ {T : Type 0} {sh : Config} (is : IsConfig sh) {y : System T} (reach : Reach sh y) where
  -- Whatever access the sender is about to make in a reachable state of a valid ring, it has a result: it makes no
  -- access that a sender may not make, a load finds a version to read, and a slot write is in bounds,
  -- does not overwrite a live value, and happens after the read that emptied the slot.
  pub sender_progress :
      (call : SendCall T) (began : ℕ) (c : Access T) (k : Reply c → Code T (SendResult call))
      → y.sender ≡ SendThread.busy call began (act c k)
      → HasResult (producer_access y.state.head.latest y.state c)
  sender_progress call began c k e =
      let d = Reach-Sound is reach in
      let a = sender_at is d e in
      producer_access-HasResult sh.cap _ y.state d.push d.pull c k a.out d.inv a.rule

  -- Whatever access the receiver is about to make in a reachable state of a valid ring, it has a result: it makes no
  -- access that a receiver may not make, a load finds a version to read, and a slot read is in bounds,
  -- finds a value that has not been read before, and happens after the write of it.
  pub receiver_progress :
      (call : RecvCall T) (began : ℕ) (c : Access T) (k : Reply c → Code T (RecvResult call))
      → y.receiver ≡ RecvThread.busy call began (act c k)
      → HasResult (consumer_access y.state.tail.latest y.state c)
  receiver_progress call began c k e =
      let d = Reach-Sound is reach in
      let a = receiver_at is d e in
      consumer_access-HasResult sh.cap _ y.state d.push d.pull c k a.out a.given d.inv a.rule
