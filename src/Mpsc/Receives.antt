-- ===== src/Mpsc/Receives.antt =====
-- The non-blocking receives of src/mpsc.rs keep to the consumer's rules, and what they return.
use ultima_rings.Base.{
  ℕ, suc, ◌+◌, ◌/◌, ◌^◌, ◌≤◌, ◌<◌, ◌≡◌, refl, true, false, Bool, List, [], ◌∷◌, arith, usize_max,
  ◌||◌, ◌==◌, Bool-cases, inl, inr, if◌then◌else◌, add_usize,
}
use ultima_rings.Channel.{Result, ok, err, TryRecvError}
use ultima_rings.Program.{acquire, ret, ◌>>=◌}
use ultima_rings.Wait.{is_park}
use ultima_rings.Mpsc.Config.{IsConfig, slot_index}
use ultima_rings.Mpsc.Defs.{Config, Receiver, Code, get, load_senders}
use ultima_rings.Mpsc.ReceiverOps.{slot_published, take_slot, try_recv}
use ultima_rings.Mpsc.Rules.{Pull, Consumes}

-- The receiver's cursor is the number of slots read.
pub record Reads (self : Receiver) (read : ℕ) : Type 0 where
  pub head : self.head ≡ read
  pub small : read ≤ usize_max

-- Between calls every read has been released.
pub record IsReceiver (self : Receiver) (p : Pull) : Type 0 where
  pub reads : Reads self p.read
  pub released : p.released ≡ p.read

-- What `try_recv` returns: the one value that it has read; or nothing, and then `disconnected` only if
-- the senders are gone and every sequence has been read.
abbrev pub TryReceived : {T : Type 0} → Result T TryRecvError → Pull → List T → Type 0
TryReceived (ok v) p out = out ≡ v ∷ []
TryReceived (err TryRecvError.empty) p out = out ≡ []
TryReceived (err TryRecvError.disconnected) p out =
    (out ≡ []) × (p.complete ≡ true) × (p.read ≡ p.all)

module _ (T : Type 0) {sh : Config} (is : IsConfig sh) where
  -- A program that goes on with whether the next slot is published.
  pub slot_published-Consumes :
      {A : Type 0} (Q : A → Pull → List T → List T → Type 0) (k : Bool → Code T A) (self : Receiver)
      (p : Pull) (out given : List T)
      → Reads self p.read
      → ((b a : Bool)
          → (b ≡ true → a ≡ true)
          → (p.complete ≡ true → b ≡ false → p.read ≡ p.all)
          → Consumes sh.cap Q (k b) (record p { available = a }) out given)
      → Consumes sh.cap Q (slot_published sh self.head >>= k) p out given
  unfolding slot_published
  slot_published-Consumes Q k self p out given s h = (
    rw s.head (slot_index is p.read (omega (arith, s.small))),
    refl,
    λ r c.
        h (r == self.head / 2 ^ sh.shift) (p.available || r == p.read / sh.cap)
          (λ e. ground (arith, s.head, is.power))
          (λ e f. c e (λ g. ground (arith, s.head, is.power))),
  )

  abbrev pub After : Receiver × Result T TryRecvError → Pull → List T → List T → Type 0
  After (self, r) p out given = IsReceiver self p × TryReceived r p out × (given ≡ [])

  pub read_on :
      (self : Receiver) (n : ℕ)
      → Reads self n
      → n < usize_max
      → Reads (record self { head = add_usize self.head 1 }) (n + 1)
  read_on self n s lt = record { head = rw s.head (omega arith); small = omega arith }

  take_slot-Consumes :
      (self : Receiver) (p : Pull)
      → Reads self p.read
      → p.available ≡ true
      → Consumes sh.cap After (take_slot sh self) p [] []
  unfolding take_slot
  take_slot-Consumes self p s a = (
    a,
    rw s.head (slot_index is p.read (omega (arith, s.small))),
    λ v lt.
        let s' = read_on self p.read s lt in
        (
          refl,
          s'.head,
          elim (Bool-cases (is_park sh.strategy)) [
            | inl b ↦ rw b (record { reads = s'; released = refl }, refl, refl)
            | inr b ↦ rw b (record { reads = s'; released = refl }, refl, refl)
          ],
        ),
  )

  -- `try_recv` after it has seen that the senders are gone, and after its first test.
  abbrev last_look : Receiver → Bool → Code T (Receiver × Result T TryRecvError)
  last_look self published =
      if published then take_slot sh self else ret (self, err TryRecvError.disconnected)

  abbrev first_look : Receiver → Bool → Code T (Receiver × Result T TryRecvError)
  first_look self published =
      if published
      then take_slot sh self
      else (get (load_senders acquire) >>= λ senders.
          if senders == 0
          then slot_published sh self.head >>= last_look self
          else ret (self, err TryRecvError.empty))

  last_look-Consumes :
      (self : Receiver) (p : Pull) (b : Bool)
      → IsReceiver self p
      → (b ≡ true → p.available ≡ true)
      → (b ≡ false → (p.complete ≡ true) × (p.read ≡ p.all))
      → Consumes sh.cap After (last_look self b) p [] []
  last_look-Consumes self p true s h c = take_slot-Consumes self p s.reads (h refl)
  last_look-Consumes self p false s h c = (s, (refl, (c refl).0, (c refl).1), refl)

  first_look-Consumes :
      (self : Receiver) (p : Pull) (b : Bool)
      → IsReceiver self p
      → (b ≡ true → p.available ≡ true)
      → Consumes sh.cap After (first_look self b) p [] []
  first_look-Consumes self p true s h = take_slot-Consumes self p s.reads (h refl)
  first_look-Consumes self p false s h = (
    refl,
    (λ n. let e : (suc n == 0) ≡ false = ground arith in rw e (s, refl, refl)),
    λ all. slot_published-Consumes After (last_look self) self _ [] [] s.reads (λ b a t c.
        last_look-Consumes self _ b (record { reads = s.reads; released = s.released }) t
          (λ f. (refl, c refl f))),
  )

  pub try_recv-Consumes :
      (self : Receiver) (p : Pull)
      → IsReceiver self p
      → Consumes sh.cap After (try_recv sh self) p [] []
  unfolding try_recv
  try_recv-Consumes self p s =
      slot_published-Consumes After (first_look self) self p [] [] s.reads (λ b a t c.
        first_look-Consumes self _ b (record { reads = s.reads; released = s.released }) t)
