-- ===== src/Spsc/Sends.antt =====
-- The sender's methods of src/spsc.rs keep to the producer's rules, and what they return.
use ultima_rings.Base.{
  ℕ, ◌+◌, ◌-◌, ◌≤◌, ◌<◌, ◌≡◌, refl, true, false, List, [], ◌∷◌, arith, ◌%◌, usize_mod, add_usize,
  wrap, sub_usize, add_usize-wrap, sub_usize-wrap, Bool-cases, inl, inr, ◌==◌,
}
use ultima_rings.Channel.{Result, ok, err, TrySendError}
use ultima_rings.Wait.{is_park}
use ultima_rings.Spsc.Config.{IsConfig, cap_bounds, slot_index}
use ultima_rings.Spsc.Defs.{Config, Sender}
use ultima_rings.Spsc.Ops.{publish, try_send}
use ultima_rings.Spsc.Rules.{Push, Produces}

-- The handle's counters stand for the totals of the producer: all writes, published, and some count
-- of reads that it knows of, at most a capacity behind.
pub record IsSender (cap : ℕ) (self : Sender) (p : Push) : Type 0 where
  pub tail : self.tail ≡ wrap p.written
  pub cached : ℕ
  pub cached_head : self.cached_head ≡ wrap cached
  pub behind : cached ≤ p.known
  pub order : p.known ≤ p.written
  pub room : p.written ≤ cached + cap
  pub published : p.published ≡ true
  pub live : p.live ≡ true

-- What `try_send v` returns: `ok` with `v` written and nothing else, or the value handed back with
-- nothing written; `full` only when every slot known to be released is taken.
abbrev pub TrySent :
    {T : Type 0} → ℕ → T → Result (Unit {0}) (TrySendError T) → Push → List T → Type 0
TrySent cap v (ok _) p out = out ≡ v ∷ []
TrySent cap v (err (TrySendError.full back)) p out =
    (back ≡ v) × (out ≡ []) × (p.written ≡ p.known + cap)
TrySent cap v (err (TrySendError.disconnected back)) p out = (back ≡ v) × (out ≡ [])

module _ {sh : Config} (is : IsConfig sh) where
  -- The full test compares the totals.
  full_test :
      (self : Sender) (p : Push) (s : IsSender sh.cap self p)
      → sub_usize self.tail self.cached_head ≡ p.written - s.cached
  full_test self p s =
      rw (s.tail, s.cached_head)
        (sub_usize-wrap p.written s.cached (omega (arith, s.order, s.behind))
          (omega (arith, s.room, cap_bounds is)))

  -- A fresh load of the other side's counter keeps the handle's invariant.
  reload :
      (self : Sender) (p : Push) (s : IsSender sh.cap self p) (h : ℕ)
      → p.known ≤ h
      → h ≤ p.written
      → IsSender sh.cap (record self { cached_head = wrap h }) (record p { known = h })
  reload self p s h lo hi = record {
    tail = s.tail;
    cached = h;
    cached_head = refl;
    behind = omega arith;
    order = hi;
    room = omega (arith, s.room, s.behind);
    published = s.published;
    live = s.live;
  }

module _ (T : Type 0) {sh : Config} (is : IsConfig sh) where
  abbrev pub After : T → Sender × Result (Unit {0}) (TrySendError T) → Push → List T → Type 0
  After v (self, r) p out = IsSender sh.cap self p × TrySent sh.cap v r p out

  publish-Produces :
      (v : T) (self : Sender) (p : Push) (s : IsSender sh.cap self p)
      → p.written < s.cached + sh.cap
      → Produces sh.cap (After v) (publish sh self v) p []
  unfolding publish
  publish-Produces v self p s room = (
    s.live,
    omega (arith, s.behind),
    rw s.tail (slot_index is p.written),
    (
      refl,
      s.live,
      tail,
      elim (Bool-cases (is_park sh.strategy)) [
        | inl e ↦ rw e (sent, refl)
        | inr e ↦ rw e (sent, refl)
      ],
    ),
  )
    where
      tail : (self.tail + 1) % usize_mod ≡ wrap (p.written + 1)
      tail = rw s.tail (add_usize-wrap p.written)

      sent :
          IsSender sh.cap
            (record self { tail = add_usize self.tail 1 })
            (record p { written = p.written + 1; published = true })
      sent = record {
        tail = tail;
        cached = s.cached;
        cached_head = s.cached_head;
        behind = s.behind;
        order = omega (arith, s.order);
        room = omega arith;
        published = refl;
        live = s.live;
      }

  pub try_send-Produces :
      (v : T) (self : Sender) (p : Push)
      → IsSender sh.cap self p
      → Produces sh.cap (After v) (try_send sh self v) p []
  unfolding try_send
  try_send-Produces v self p s true = (s, (refl, refl))
  try_send-Produces v self p s false =
      elim (Bool-cases (sub_usize self.tail self.cached_head == sh.cap)) [
        | inl e ↦ rw e (λ h lo hi.
            let s' = reload is self p s h lo hi in
            elim (Bool-cases (sub_usize self.tail (wrap h) == sh.cap)) [
              | inl e' ↦ rw e' (s', (refl, refl, ground (arith, full_test is _ _ s')))
              | inr e' ↦ rw e' (publish-Produces v _ _ s' (ground (arith, full_test is _ _ s')))
            ])
        | inr e ↦ rw e (publish-Produces v self p s (ground (arith, full_test is self p s)))
      ]
