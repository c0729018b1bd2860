-- ===== src/Mpsc/Rules/Bind.antt =====
-- A sequence of programs keeps to the rules if its parts do.
use ultima_rings.Base.{ℕ, suc, List}
use ultima_rings.Channel.{ok, err}
use ultima_rings.Program.{ret, act, ◌>>=◌}
use ultima_rings.Mpsc.Defs.{
  load_claim, load_head, load_senders, load_rx_dropped, load_round, store_head, store_round,
  store_rx_dropped, compare_exchange_weak, fetch_add_senders, fetch_sub_senders, write_slot,
  read_slot, fence, wake_consumer, prepare_park, cancel, park, wake_producers, prepare_wait, wait,
  pause, apply, Code,
}
use ultima_rings.Mpsc.Rules.{Push, Produces, Pull, Consumes}

module _ {T A B : Type 0} (cap : ℕ) (Q : A → Push T → List (ℕ × T) → Type 0)
    (R : B → Push T → List (ℕ × T) → Type 0) where
  pub Produces-bind :
      (m : Code T A) (f : A → Code T B) (p : Push T) (out : List (ℕ × T))
      → Produces cap Q m p out
      → ((a : A) (p : Push T) (out : List (ℕ × T)) → Q a p out → Produces cap R (f a) p out)
      → Produces cap R (m >>= f) p out
  Produces-bind (ret a) f p out h keep = keep a p out h
  Produces-bind (act (load_claim o) k) f p out h keep =
      λ c le. Produces-bind (k c) f p out (h c le) keep
  Produces-bind (act (load_head o) k) f p out h keep = λ n. Produces-bind (k n) f _ out (h n) keep
  Produces-bind (act (load_rx_dropped o) k) f p out h keep =
      λ b. Produces-bind (k b) f p out (h b) keep
  Produces-bind (act (compare_exchange_weak o o' e n) k) f p out (a, b, c, d, l, h, h') keep = (
    a,
    b,
    c,
    d,
    l,
    Produces-bind (k (ok tt)) f _ out h keep,
    λ c le. Produces-bind (k (err c)) f p out (h' c le) keep,
  )
  Produces-bind (act (write_slot i v) k) f p out (q, a, b, h) keep =
      (q, a, b, Produces-bind (k tt) f _ out h keep)
  Produces-bind (act (store_round o i r) k) f p out (q, v, a, b, c, d, h) keep =
      (q, v, a, b, c, d, Produces-bind (k tt) f _ _ h keep)
  Produces-bind (act (fetch_add_senders o) k) f p out (a, h) keep =
      (a, Produces-bind (k tt) f _ out h keep)
  Produces-bind (act (fetch_sub_senders o) k) f p out (a, b, c, d, h) keep =
      (a, b, c, d, λ n. Produces-bind (k n) f _ out (h n) keep)
  Produces-bind (act (fence o) k) f p out h keep = Produces-bind (k tt) f p out h keep
  Produces-bind (act (pause w) k) f p out h keep = Produces-bind (k tt) f p out h keep
  Produces-bind (act wait k) f p out h keep = Produces-bind (k tt) f p out h keep
  Produces-bind (act wake_consumer k) f p out h keep = Produces-bind (k tt) f p out h keep
  Produces-bind (act prepare_wait k) f p out h keep = Produces-bind (k tt) f p out h keep
  Produces-bind (act (load_senders _) k) f p out h keep = absurd h
  Produces-bind (act (load_round _ _) k) f p out h keep = absurd h
  Produces-bind (act (store_head _ _) k) f p out h keep = absurd h
  Produces-bind (act (store_rx_dropped _) k) f p out h keep = absurd h
  Produces-bind (act (read_slot _) k) f p out h keep = absurd h
  Produces-bind (act prepare_park k) f p out h keep = absurd h
  Produces-bind (act cancel k) f p out h keep = absurd h
  Produces-bind (act park k) f p out h keep = absurd h
  Produces-bind (act wake_producers k) f p out h keep = absurd h
  Produces-bind (act (apply _) k) f p out h keep = absurd h

module _ {T A B : Type 0} (cap : ℕ) (Q : A → Pull → List T → List T → Type 0)
    (R : B → Pull → List T → List T → Type 0) where
  pub Consumes-bind :
      (m : Code T A) (f : A → Code T B) (p : Pull) (out given : List T)
      → Consumes cap Q m p out given
      → ((a : A) (p : Pull) (out given : List T)
          → Q a p out given
          → Consumes cap R (f a) p out given)
      → Consumes cap R (m >>= f) p out given
  Consumes-bind (ret a) f p out given h keep = keep a p out given h
  Consumes-bind (act (load_round o i) k) f p out given (a, b, h) keep =
      (a, b, λ r c. Consumes-bind (k r) f _ out given (h r c) keep)
  Consumes-bind (act (load_senders o) k) f p out given (a, h, h') keep = (
    a,
    (λ n. Consumes-bind (k (suc n)) f p out given (h n) keep),
    λ all. Consumes-bind (k 0) f _ out given (h' all) keep,
  )
  Consumes-bind (act (read_slot i) k) f p out given (a, b, h) keep =
      (a, b, λ v lt. Consumes-bind (k v) f _ _ given (h v lt) keep)
  Consumes-bind (act (store_head o x) k) f p out given (a, b, h) keep =
      (a, b, Consumes-bind (k tt) f _ out given h keep)
  Consumes-bind (act (store_rx_dropped o) k) f p out given h keep =
      Consumes-bind (k tt) f p out given h keep
  Consumes-bind (act (apply v) k) f p out given h keep =
      λ b. Consumes-bind (k b) f p out _ (h b) keep
  Consumes-bind (act (fence o) k) f p out given h keep = Consumes-bind (k tt) f p out given h keep
  Consumes-bind (act (pause w) k) f p out given h keep = Consumes-bind (k tt) f p out given h keep
  Consumes-bind (act wake_producers k) f p out given h keep =
      Consumes-bind (k tt) f p out given h keep
  Consumes-bind (act prepare_park k) f p out given h keep =
      Consumes-bind (k tt) f p out given h keep
  Consumes-bind (act cancel k) f p out given h keep = Consumes-bind (k tt) f p out given h keep
  Consumes-bind (act park k) f p out given h keep = Consumes-bind (k tt) f p out given h keep
  Consumes-bind (act (load_claim _) k) f p out given h keep = absurd h
  Consumes-bind (act (load_head _) k) f p out given h keep = absurd h
  Consumes-bind (act (load_rx_dropped _) k) f p out given h keep = absurd h
  Consumes-bind (act (store_round _ _ _) k) f p out given h keep = absurd h
  Consumes-bind (act (compare_exchange_weak _ _ _ _) k) f p out given h keep = absurd h
  Consumes-bind (act (fetch_add_senders _) k) f p out given h keep = absurd h
  Consumes-bind (act (fetch_sub_senders _) k) f p out given h keep = absurd h
  Consumes-bind (act (write_slot _ _) k) f p out given h keep = absurd h
  Consumes-bind (act wake_consumer k) f p out given h keep = absurd h
  Consumes-bind (act prepare_wait k) f p out given h keep = absurd h
  Consumes-bind (act wait k) f p out given h keep = absurd h
