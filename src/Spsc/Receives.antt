-- ===== src/Spsc/Receives.antt =====
-- The receiver's methods of src/spsc.rs keep to the consumer's rules, and what they return.
use native.Mathlib.Decide.{dec_lt}
use ultima_rings.Base.{
  ℕ, ◌+◌, ◌≤◌, ◌<◌, ◌≡◌, refl, sym, Bool, true, false, List, [], ◌∷◌, arith, add_usize, wrap,
  add_usize-wrap, wrap-injective, Bool-cases, inl, inr, ◌==◌, if◌then◌else◌,
}
use ultima_rings.Channel.{Result, ok, err, TryRecvError}
use ultima_rings.Program.{ret}
use ultima_rings.Wait.{is_park}
use ultima_rings.Spsc.Config.{IsConfig, cap_bounds, slot_index}
use ultima_rings.Spsc.Defs.{Config, Receiver, Code}
use ultima_rings.Spsc.Ops.{take_slot, try_recv}
use ultima_rings.Spsc.Rules.{Pull, Consumes}

-- The handle's counters stand for the totals of the consumer: all reads, and some count of writes
-- that it knows of, not more than a capacity ahead.
pub record Reads (cap : ℕ) (self : Receiver) (p : Pull) : Type 0 where
  pub head : self.head ≡ wrap p.read
  pub cached : ℕ
  pub cached_tail : self.cached_tail ≡ wrap cached
  pub ahead : p.read ≤ cached
  pub behind : cached ≤ p.known
  pub room : p.known ≤ p.released + cap
  pub order : p.released ≤ p.read
  pub live : p.live ≡ true

-- Between two calls every read has been released.
pub record IsReceiver (cap : ℕ) (self : Receiver) (p : Pull) : Type 0 where
  pub reads : Reads cap self p
  pub released : p.released ≡ p.read

-- What `try_recv` returns: the one value that it has read; or nothing, and then for `disconnected`
-- every value that the sender will ever have written has been read.
abbrev pub TryReceived : {T : Type 0} → Result T TryRecvError → Pull → List T → Type 0
TryReceived (ok v) p out = out ≡ v ∷ []
TryReceived (err TryRecvError.empty) p out = out ≡ []
TryReceived (err TryRecvError.disconnected) p out =
    (out ≡ []) × (p.complete ≡ true) × (p.read ≡ p.known)

module _ {sh : Config} (is : IsConfig sh) where
  -- The empty test compares the totals.
  pub empty_test :
      (self : Receiver) (p : Pull) (s : Reads sh.cap self p)
      → (self.head == self.cached_tail) ≡ true
      → p.read ≡ s.cached
  empty_test self p s e = sym (
      wrap-injective s.cached p.read s.ahead
        (omega (arith, s.behind, s.room, s.order, cap_bounds is))
        (ground (arith, s.head, s.cached_tail)))

  pub nonempty_test :
      (self : Receiver) (p : Pull) (s : Reads sh.cap self p)
      → (self.head == self.cached_tail) ≡ false
      → p.read < s.cached
  nonempty_test self p s e = elim (dec_lt p.read s.cached) [
    | yes more ↦ more
    | no all ↦
        let same : p.read ≡ s.cached = omega (arith, s.ahead) in
        absurd (ground (arith, s.head, s.cached_tail))
  ]

  unfoldable pub reload :
      (self : Receiver) (p : Pull) (s : Reads sh.cap self p) (t : ℕ) (c : Bool)
      → p.known ≤ t
      → t ≤ p.released + sh.cap
      → Reads sh.cap (record self { cached_tail = wrap t }) (record p { known = t; complete = c })
  reload self p s t c lo hi = record {
    head = s.head;
    cached = t;
    cached_tail = refl;
    ahead = omega (arith, s.ahead, s.behind);
    behind = omega arith;
    room = hi;
    order = s.order;
    live = s.live;
  }

  -- Learning of more writes keeps the handle's invariant.
  pub learn :
      (self : Receiver) (p : Pull) (s : Reads sh.cap self p) (t : ℕ) (c : Bool)
      → p.known ≤ t
      → t ≤ p.released + sh.cap
      → Reads sh.cap self (record p { known = t; complete = c })
  learn self p s t c lo hi = record {
    head = s.head;
    cached = s.cached;
    cached_tail = s.cached_tail;
    ahead = s.ahead;
    behind = omega (arith, s.behind);
    room = hi;
    order = s.order;
    live = s.live;
  }

  pub taken :
      (self : Receiver) (p : Pull) (s : Reads sh.cap self p)
      → p.read < s.cached
      → Reads sh.cap (record self { head = add_usize self.head 1 }) (record p { read = p.read + 1 })
  taken self p s more = record {
    head = rw s.head (add_usize-wrap p.read);
    cached = s.cached;
    cached_tail = s.cached_tail;
    ahead = omega arith;
    behind = s.behind;
    room = s.room;
    order = omega (arith, s.order);
    live = s.live;
  }

  pub released :
      (self : Receiver) (p : Pull) (s : Reads sh.cap self p)
      → IsReceiver sh.cap self (record p { released = p.read })
  released self p s = record {
    reads = record {
      head = s.head;
      cached = s.cached;
      cached_tail = s.cached_tail;
      ahead = s.ahead;
      behind = s.behind;
      room = omega (arith, s.room, s.order);
      order = omega arith;
      live = s.live;
    };
    released = refl;
  }

module _ (T : Type 0) {sh : Config} (is : IsConfig sh) where
  abbrev pub After : Receiver × Result T TryRecvError → Pull → List T → List T → Type 0
  After (self, r) p out given = IsReceiver sh.cap self p × TryReceived r p out × (given ≡ [])

  take_slot-Consumes :
      (self : Receiver) (p : Pull) (s : Reads sh.cap self p)
      → p.read < s.cached
      → Consumes sh.cap After (take_slot sh self) p [] []
  unfolding take_slot
  take_slot-Consumes self p s more = (
    omega (arith, s.behind),
    rw s.head (slot_index is p.read),
    λ v. (
      refl,
      (taken is self p s more).head,
      elim (Bool-cases (is_park sh.strategy)) [
        | inl e ↦ rw e (released is _ _ (taken is self p s more), refl, refl)
        | inr e ↦ rw e (released is _ _ (taken is self p s more), refl, refl)
      ],
    ),
  )

  -- The last look at `tail`, once the sender is known to be gone.
  abbrev last_look : Receiver → ℕ → Code T (Receiver × Result T TryRecvError)
  last_look self t =
      if t == self.head
      then ret (self, err TryRecvError.disconnected)
      else take_slot sh (record self { cached_tail = t })

  last_look-Consumes :
      (self : Receiver) (p : Pull) (t : ℕ)
      → IsReceiver sh.cap self p
      → p.known ≤ t
      → t ≤ p.released + sh.cap
      → Consumes sh.cap After
          (last_look self (wrap t))
          (record p { known = t; complete = true })
          []
          []
  unfolding reload
  last_look-Consumes self p t s lo hi =
      let s' = reload is self p s.reads t true lo hi in
      elim (Bool-cases (wrap t == self.head)) [
        | inl e ↦ rw e (
          record { reads = learn is self p s.reads t true lo hi; released = s.released },
          (refl, refl, empty_test is _ _ s' (ground arith)),
          refl,
        )
        | inr e ↦ rw e (take_slot-Consumes _ _ s' (nonempty_test is _ _ s' (ground arith)))
      ]

  pub try_recv-Consumes :
      (self : Receiver) (p : Pull)
      → IsReceiver sh.cap self p
      → Consumes sh.cap After (try_recv sh self) p [] []
  unfolding try_recv reload
  try_recv-Consumes self p s = elim (Bool-cases (self.head == self.cached_tail)) [
    | inl e ↦ rw e (λ t lo hi c.
        let s' = reload is self p s.reads t p.complete lo hi in
        elim (Bool-cases (self.head == wrap t)) [
          | inl e' ↦ rw e' (
            refl,
            s.reads.live,
            (record { reads = s'; released = s.released }, refl, refl),
            λ t' lo' hi' c' t'' lo'' hi'' c''.
                last_look-Consumes _ _ t'' (record { reads = s'; released = s.released })
                  (omega arith) hi'',
          )
          | inr e' ↦ rw e' (take_slot-Consumes _ _ s' (nonempty_test is _ _ s' e'))
        ])
    | inr e ↦ rw e (take_slot-Consumes self p s.reads (nonempty_test is self p s.reads e))
  ]
