-- ===== src/Spsc/Refine.antt =====
-- The ring of src/spsc.rs as a bounded queue: what it holds is what has been written and not yet read.
use ultima_rings.Base.{
  Yields, ℕ, ◌≤◌, ◌<◌, ◌≡◌, refl, sym, ap, ap₂, subst, ◌∙◌, ◌&&◌, Option, none, some, List, [], ◌∷◌,
  ◌++◌, arith, length, drop, get_elem?, length-append, append_assoc, Bool-cases, inl, inr, leb, ltb,
}
use ultima_rings.Memory.{acquires}
use ultima_rings.Program.{consumer, producer}
use ultima_rings.Spsc.Config.{IsConfig}
use ultima_rings.Spsc.Defs.{
  Config, Access, load_tail, load_head, load_disconnected, store_tail, store_head,
  store_disconnected, write_slot, read_slot, fence, wake, prepare_park, cancel, park, pause, apply,
}
use ultima_rings.Spsc.Safety.{reads_in_order}
use ultima_rings.Spsc.State.{State, Slot, write_into, read_from, producer_access, consumer_access}
use ultima_rings.Spsc.System.{
  System, Step, call_send, access_send, return_send, call_recv, access_recv, return_recv, Reach,
}

-- What a bounded queue may do in one step.
pub data QueueStep {T : Type 0} (cap : ℕ) (before after : List T) : Type 0 where
  stay : after ≡ before → QueueStep cap before after
  push : (v : T) → length before < cap → after ≡ before ++ (v ∷ []) → QueueStep cap before after
  pop : (v : T) → before ≡ v ∷ after → QueueStep cap before after

abbrev pub contents : {T : Type 0} → System T → List T
contents y = drop (length y.state.read) y.state.written

module _ {T : Type 0} where
  -- What an access does to the histories.
  data Change (s s' : State T) : Type 0 where
    same : s'.written ≡ s.written → s'.read ≡ s.read → Change s s'
    wrote : (v : T) → s'.written ≡ s.written ++ (v ∷ []) → s'.read ≡ s.read → Change s s'
    took : (v : T) → s'.written ≡ s.written → s'.read ≡ s.read ++ (v ∷ []) → Change s s'

  write_into-Change :
      (s : State T) (i : ℕ) (v : T) (o : Option (Slot T))
      → Yields (λ (r, s'). Change s s') (write_into s i v o)
  write_into-Change s i v none = tt
  write_into-Change s i v (some slot) = go slot.content refl
    where
      go :
          (o : Option T)
          → slot.content ≡ o
          → Yields (λ (r, s'). Change s s') (write_into s i v (some slot))
      go (some w) e = rw e tt
      go none e = rw e (elim (Bool-cases (leb slot.stamp s.known_reads)) [
        | inl f ↦ rw f (Change.wrote v refl refl)
        | inr f ↦ rw f tt
      ])

  read_from-Change :
      (s : State T) (i : ℕ) (o : Option (Slot T))
      → Yields (λ (r, s'). Change s s') (read_from s i o)
  read_from-Change s i none = tt
  read_from-Change s i (some slot) = go slot.content refl
    where
      go :
          (o : Option T)
          → slot.content ≡ o
          → Yields (λ (r, s'). Change s s') (read_from s i (some slot))
      go none e = rw e tt
      go (some v) e = rw e (elim (Bool-cases (leb slot.stamp s.known_writes)) [
        | inl f ↦ rw f (Change.took v refl refl)
        | inr f ↦ rw f tt
      ])

  producer_access-Change :
      (choice : ℕ) (s : State T) (c : Access T)
      → Yields (λ (r, s'). Change s s') (producer_access choice s c)
  unfolding producer_access
  producer_access-Change choice s (load_head o) =
      elim (Bool-cases (leb s.seen_head choice && leb choice s.head.latest)) [
        | inl e ↦ rw e (Change.same refl refl)
        | inr e ↦ rw e tt
      ]
  producer_access-Change choice s (write_slot i v) = write_into-Change s i v (get_elem? s.slots i)
  producer_access-Change choice s (load_disconnected o) = Change.same refl refl
  producer_access-Change choice s (store_tail o x) = Change.same refl refl
  producer_access-Change choice s (store_disconnected o) = Change.same refl refl
  producer_access-Change choice s (fence _) = Change.same refl refl
  producer_access-Change choice s (pause _) = Change.same refl refl
  producer_access-Change choice s (wake consumer) = Change.same refl refl
  producer_access-Change choice s (wake producer) = Change.same refl refl
  producer_access-Change choice s (prepare_park consumer) = Change.same refl refl
  producer_access-Change choice s (prepare_park producer) = Change.same refl refl
  producer_access-Change choice s (cancel consumer) = Change.same refl refl
  producer_access-Change choice s (cancel producer) = Change.same refl refl
  producer_access-Change choice s (park consumer) = Change.same refl refl
  producer_access-Change choice s (park producer) = Change.same refl refl
  producer_access-Change choice s (load_tail _) = tt
  producer_access-Change choice s (store_head _ _) = tt
  producer_access-Change choice s (read_slot _) = tt
  producer_access-Change choice s (apply _) = tt

  consumer_access-Change :
      (choice : ℕ) (s : State T) (c : Access T)
      → Yields (λ (r, s'). Change s s') (consumer_access choice s c)
  unfolding consumer_access
  consumer_access-Change choice s (load_tail o) =
      elim (Bool-cases (leb s.seen_tail choice && leb choice s.tail.latest)) [
        | inl e ↦ rw e (Change.same refl refl)
        | inr e ↦ rw e tt
      ]
  consumer_access-Change choice s (load_disconnected o) =
      elim (Bool-cases (s.disconnected && ltb 0 choice)) [
        | inl e ↦ rw e (elim (Bool-cases (acquires o)) [
          | inl f ↦ rw f (Change.same refl refl)
          | inr f ↦ rw f (Change.same refl refl)
        ])
        | inr e ↦ rw e (Change.same refl refl)
      ]
  consumer_access-Change choice s (read_slot i) = read_from-Change s i (get_elem? s.slots i)
  consumer_access-Change choice s (store_head o x) = Change.same refl refl
  consumer_access-Change choice s (store_disconnected o) = Change.same refl refl
  consumer_access-Change choice s (apply v) = Change.same refl refl
  consumer_access-Change choice s (fence _) = Change.same refl refl
  consumer_access-Change choice s (pause _) = Change.same refl refl
  consumer_access-Change choice s (wake consumer) = Change.same refl refl
  consumer_access-Change choice s (wake producer) = Change.same refl refl
  consumer_access-Change choice s (prepare_park consumer) = Change.same refl refl
  consumer_access-Change choice s (prepare_park producer) = Change.same refl refl
  consumer_access-Change choice s (cancel consumer) = Change.same refl refl
  consumer_access-Change choice s (cancel producer) = Change.same refl refl
  consumer_access-Change choice s (park consumer) = Change.same refl refl
  consumer_access-Change choice s (park producer) = Change.same refl refl
  consumer_access-Change choice s (load_head _) = tt
  consumer_access-Change choice s (store_tail _ _) = tt
  consumer_access-Change choice s (write_slot _ _) = tt

  drop-append : (xs ys : List T) → drop (length xs) (xs ++ ys) ≡ ys
  drop-append [] ys = refl
  drop-append (x ∷ xs) ys = drop-append xs ys

  Change-QueueStep :
      (cap : ℕ) (y z : System T) (rest after : List T)
      → y.state.written ≡ y.state.read ++ rest
      → z.state.written ≡ z.state.read ++ after
      → length after ≤ cap
      → Change y.state z.state
      → QueueStep cap (contents y) (contents z)
  Change-QueueStep cap y z rest after before now fits (Change.same w r) =
      QueueStep.stay (ap₂ (λ n l. drop n l) (ap length r) w)
  Change-QueueStep cap y z rest after before now fits (Change.wrote v w r) =
      let held : contents y ≡ rest =
        ap (drop (length y.state.read)) before ∙ drop-append y.state.read rest in
      let grown : z.state.written ≡ y.state.read ++ (rest ++ (v ∷ [])) =
        w ∙ ap (λ l. l ++ (v ∷ [])) before ∙ append_assoc y.state.read rest (v ∷ []) in
      let next : contents z ≡ rest ++ (v ∷ []) =
        ap₂ (λ n l. drop n l) (ap length r) grown ∙ drop-append y.state.read (rest ++ (v ∷ [])) in
      let holds : contents z ≡ after =
        ap (drop (length z.state.read)) now ∙ drop-append z.state.read after in
      let size : length (rest ++ (v ∷ [])) ≤ cap =
        subst (λ l. length l ≤ cap) (sym holds ∙ next) fits in
      QueueStep.push v (rw held (omega (arith, size, length-append rest (v ∷ []))))
        (next ∙ ap (λ l. l ++ (v ∷ [])) (sym held))
  Change-QueueStep cap y z rest after before now fits (Change.took v w r) =
      let holds : contents z ≡ after =
        ap (drop (length z.state.read)) now ∙ drop-append z.state.read after in
      let whole : y.state.written ≡ y.state.read ++ (v ∷ after) =
        sym w ∙ now ∙ ap (λ l. l ++ after) r ∙ append_assoc y.state.read (v ∷ []) after in
      QueueStep.pop v (
        ap (drop (length y.state.read)) whole
        ∙ drop-append y.state.read (v ∷ after)
        ∙ ap (λ l. v ∷ l) (sym holds))

  Step-Change : {sh : Config} {y z : System T} → Step sh y z → Change y.state z.state
  Step-Change (call_send self call e ez) = rw ez (Change.same refl refl)
  Step-Change {y = y} (access_send call began c k choice r s e yields ez) = rw ez (
      subst (Yields (λ (r, s'). Change y.state s')) yields
        (producer_access-Change choice y.state c))
  Step-Change (return_send call began a e ez) = rw ez (Change.same refl refl)
  Step-Change (call_recv self call e ez) = rw ez (Change.same refl refl)
  Step-Change {y = y} (access_recv call began c k choice r s e yields ez) = rw ez (
      subst (Yields (λ (r, s'). Change y.state s')) yields
        (consumer_access-Change choice y.state c))
  Step-Change (return_recv call began a e ez) = rw ez (Change.same refl refl)

-- Every step of a valid ring from a reachable state is a step of a queue bounded by the capacity, which
-- holds the values written and not yet read: it leaves the queue as it is, appends a value to a queue
-- that is not full, or takes the first value of it.
pub queue_refinement :
    {T : Type 0} {sh : Config} (is : IsConfig sh) {y z : System T} (reach : Reach sh y)
    → Step sh y z
    → QueueStep sh.cap (contents y) (contents z)
queue_refinement {sh = sh} is {y = y} {z = z} reach step =
    let (rest, before, fits) = reads_in_order is reach in
    let (after, now, fits') = reads_in_order is (Reach.later reach step) in
    Change-QueueStep sh.cap y z rest after before now fits' (Step-Change step)
