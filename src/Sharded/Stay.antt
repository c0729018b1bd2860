-- ===== src/Sharded/Stay.antt =====
-- What the sender of a shard of src/sharded.rs leaves as it is while the consumer is elsewhere.
use ultima_rings.Base.{
  ℕ, ◌≡◌, ◌≢◌, refl, sym, subst, ◌∙◌, true, Option, none, some, List, [], ◌∷◌, ◌++◌, Yields,
  yields_some, get_elem?, leb, ◌&&◌, Bool-cases, inl, inr, arith,
}
use ultima_rings.Program.{act, consumer, producer}
use ultima_rings.Spsc.Config.{IsConfig}
use ultima_rings.Spsc.Defs.{
  Config, Access, load_tail, load_head, load_disconnected, store_tail, store_head,
  store_disconnected, write_slot, read_slot, fence, wake, prepare_park, cancel, park, pause, apply,
  Reply, Code,
}
use ultima_rings.Spsc.Sound.{SendPost, Reach-Sound, sender_at, receiver_at}
use ultima_rings.Spsc.Rules.{Produces}
use ultima_rings.Spsc.State.{State, producer_access, write_into, Slot}
use ultima_rings.Spsc.System
use ultima_rings.Spsc.System.{System, SendThread, RecvThread, RecvCall, SendResult, Reach, Step}
use ultima_rings.Sharded.Threads.{Inside}

module _ {T : Type 0} where
  -- The sender is gone and every value that it has written has been read, by a receiver that is there.
  pub record IsDone (y : System T) : Type 0 where
    pub closed : y.state.disconnected ≡ true
    pub all : y.state.read ≡ y.state.written
    pub there : (self : _) × (y.receiver ≡ RecvThread.idle self)

  -- The last value read is `v`.
  pub record IsLast (y : System T) (v : T) : Type 0 where
    pub before : List T
    pub last : y.state.read ≡ before ++ (v ∷ [])
    pub there : (self : _) × (y.receiver ≡ RecvThread.idle self)

  -- Reads nothing, and leaves the flag up; writes nothing after that.
  pub record Kept (s s' : State T) : Type 0 where
    pub read : s'.read ≡ s.read
    pub up : s.disconnected ≡ true → s'.disconnected ≡ true
    pub written : s.disconnected ≡ true → s'.written ≡ s.written

  unmoved :
      (s : State T) {s' : State T}
      → s'.read ≡ s.read
      → s'.disconnected ≡ s.disconnected
      → s'.written ≡ s.written
      → Kept s s'
  unmoved s r d w = record { read = r; up = λ e. d ∙ e; written = λ _. w }

  write_into-Kept :
      (s : State T) (i : ℕ) (v : T)
      → s.disconnected ≢ true
      → (o : Option (Slot T)) → Yields (λ (r, s'). Kept s s') (write_into s i v o)
  write_into-Kept s i v h none = tt
  write_into-Kept s i v h (some slot) = go slot.content refl
    where
      go :
          (o : Option T)
          → slot.content ≡ o
          → Yields (λ (r, s'). Kept s s') (write_into s i v (some slot))
      go (some w) e = rw e tt
      go none e = rw e (elim (Bool-cases (leb slot.stamp s.known_reads)) [
        | inl f ↦ rw f (record { read = refl; up = λ e. e; written = λ e. absurd (h e) })
        | inr f ↦ rw f tt
      ])

  producer_access-Kept :
      (choice : ℕ) (s : State T) (c : Access T)
      → ((i : ℕ) (v : T) → c ≡ write_slot i v → s.disconnected ≢ true)
      → Yields (λ (r, s'). Kept s s') (producer_access choice s c)
  unfolding producer_access
  producer_access-Kept choice s (load_head o) h =
      elim (Bool-cases (leb s.seen_head choice && leb choice s.head.latest)) [
        | inl e ↦ rw e (unmoved s refl refl refl)
        | inr e ↦ rw e tt
      ]
  producer_access-Kept choice s (load_disconnected o) h = unmoved s refl refl refl
  producer_access-Kept choice s (store_tail o x) h = unmoved s refl refl refl
  producer_access-Kept choice s (store_disconnected o) h = record {
    read = refl;
    up = λ e. refl;
    written = λ _. refl;
  }
  producer_access-Kept choice s (write_slot i v) h =
      write_into-Kept s i v (h i v refl) (get_elem? s.slots i)
  producer_access-Kept choice s (fence _) h = unmoved s refl refl refl
  producer_access-Kept choice s (pause _) h = unmoved s refl refl refl
  producer_access-Kept choice s (wake consumer) h = unmoved s refl refl refl
  producer_access-Kept choice s (wake producer) h = unmoved s refl refl refl
  producer_access-Kept choice s (prepare_park consumer) h = unmoved s refl refl refl
  producer_access-Kept choice s (prepare_park producer) h = unmoved s refl refl refl
  producer_access-Kept choice s (cancel consumer) h = unmoved s refl refl refl
  producer_access-Kept choice s (cancel producer) h = unmoved s refl refl refl
  producer_access-Kept choice s (park consumer) h = unmoved s refl refl refl
  producer_access-Kept choice s (park producer) h = unmoved s refl refl refl
  producer_access-Kept choice s (load_tail _) h = tt
  producer_access-Kept choice s (store_head _ _) h = tt
  producer_access-Kept choice s (read_slot _) h = tt
  producer_access-Kept choice s (apply _) h = tt

idle_ne_busy :
    {T : Type 0} {self : _} {call : RecvCall T} {began : ℕ} {code : _}
    → RecvThread.idle self ≢ RecvThread.busy call began code
idle_ne_busy e = ground (arith, e)

module _ {T : Type 0} {sh : Config} (is : IsConfig sh) where
  -- What a step within a ring leaves of it, if its receiver is in no call.
  pub Inside-Kept :
      (y z : System T) (self : _)
      → Reach sh y
      → y.receiver ≡ RecvThread.idle self
      → (step : Step sh y z) → Inside sh step
      → Kept y.state z.state × (z.receiver ≡ y.receiver)
  Inside-Kept y z self reach there (System.call_send _ _ _ _) inside = absurd inside
  Inside-Kept y z self reach there (System.access_send call began c k choice r s e yields ez)
        inside =
      let d = Reach-Sound is reach in
      let a = sender_at is d e in
      let live : (i : ℕ) (v : T) → c ≡ write_slot i v → d.push.live ≡ true = λ i v at.
        subst
          (λ c.
            (k : Reply c → Code T (SendResult call))
            → Produces sh.cap (SendPost is call) (act c k) d.push a.out
            → d.push.live ≡ true)
          (sym at) (λ k rule. rule.0) k a.rule in
      let alive : d.pull.live ≡ true = (receiver_at is d there).reads.live in
      let kept : Kept y.state s =
        yields_some (λ (r, s'). Kept y.state s')
          (producer_access-Kept choice y.state c
            (λ i v at up. ground (arith, live i v at, d.inv.knows.flagged up alive)))
          yields in
      rw ez (kept, refl)
  Inside-Kept y z self reach there (System.return_send call began a e ez) inside =
      rw ez (unmoved y.state refl refl refl, refl)
  Inside-Kept y z self reach there (System.call_recv _ _ _ _) inside = absurd inside
  Inside-Kept y z self reach there (System.access_recv call began c k choice r s e yields ez)
        inside =
      absurd (idle_ne_busy (sym there ∙ e))
  Inside-Kept y z self reach there (System.return_recv call began a e ez) inside =
      absurd (idle_ne_busy (sym there ∙ e))

  pub Inside-IsDone :
      (y z : System T) → Reach sh y → (step : Step sh y z) → Inside sh step → IsDone y → IsDone z
  Inside-IsDone y z reach step inside done =
      let (self, there) = done.there in
      let (kept, same) = Inside-Kept y z self reach there step inside in
      record {
        closed = kept.up done.closed;
        all = kept.read ∙ done.all ∙ sym (kept.written done.closed);
        there = (self, same ∙ there);
      }

  pub Inside-IsLast :
      (y z : System T) (v : T)
      → Reach sh y
      → (step : Step sh y z) → Inside sh step
      → IsLast y v
      → IsLast z v
  Inside-IsLast y z v reach step inside l =
      let (self, there) = l.there in
      let (kept, same) = Inside-Kept y z self reach there step inside in
      record { before = l.before; last = kept.read ∙ l.last; there = (self, same ∙ there) }
