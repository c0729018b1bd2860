-- ===== src/Spsc/Rules/Bind.antt =====
-- A sequence of programs keeps to the rules if its parts do.
use ultima_rings.Base.{ℕ, true, false, List, wrap}
use ultima_rings.Program.{ret, act, ◌>>=◌}
use ultima_rings.Spsc.Defs.{
  load_tail, load_head, load_disconnected, store_tail, store_head, store_disconnected, write_slot,
  read_slot, fence, wake, prepare_park, cancel, park, pause, apply, Code,
}
use ultima_rings.Spsc.Rules.{Push, Produces, Pull, Consumes}

module _ {T A B : Type 0} (cap : ℕ) (Q : A → Push → List T → Type 0)
    (R : B → Push → List T → Type 0) where
  pub Produces-bind :
      (m : Code T A) (f : A → Code T B) (p : Push) (out : List T)
      → Produces cap Q m p out
      → ((a : A) (p : Push) (out : List T) → Q a p out → Produces cap R (f a) p out)
      → Produces cap R (m >>= f) p out
  Produces-bind (ret a) f p out h keep = keep a p out h
  Produces-bind (act (load_head o) k) f p out h keep =
      λ t lo hi. Produces-bind (k (wrap t)) f _ out (h t lo hi) keep
  Produces-bind (act (load_disconnected o) k) f p out h keep =
      λ b. Produces-bind (k b) f p out (h b) keep
  Produces-bind (act (store_tail o x) k) f p out (o1, o2, o3, h) keep =
      (o1, o2, o3, Produces-bind (k tt) f _ out h keep)
  Produces-bind (act (store_disconnected o) k) f p out (o1, o2, h) keep =
      (o1, o2, Produces-bind (k tt) f _ out h keep)
  Produces-bind (act (write_slot i v) k) f p out (o1, o2, o3, h) keep =
      (o1, o2, o3, Produces-bind (k tt) f _ _ h keep)
  Produces-bind (act (fence o) k) f p out h keep = Produces-bind (k tt) f p out h keep
  Produces-bind (act (pause w) k) f p out h keep = Produces-bind (k tt) f p out h keep
  Produces-bind (act (wake e) k) f p out h keep = Produces-bind (k tt) f p out h keep
  Produces-bind (act (prepare_park e) k) f p out h keep = Produces-bind (k tt) f p out h keep
  Produces-bind (act (cancel e) k) f p out h keep = Produces-bind (k tt) f p out h keep
  Produces-bind (act (park e) k) f p out h keep = Produces-bind (k tt) f p out h keep
  Produces-bind (act (load_tail o) k) f p out h keep = absurd h
  Produces-bind (act (store_head o x) k) f p out h keep = absurd h
  Produces-bind (act (read_slot i) k) f p out h keep = absurd h
  Produces-bind (act (apply v) k) f p out h keep = absurd h

module _ {T A B : Type 0} (cap : ℕ) (Q : A → Pull → List T → List T → Type 0)
    (R : B → Pull → List T → List T → Type 0) where
  pub Consumes-bind :
      (m : Code T A) (f : A → Code T B) (p : Pull) (out given : List T)
      → Consumes cap Q m p out given
      → ((a : A) (p : Pull) (out given : List T)
          → Q a p out given
          → Consumes cap R (f a) p out given)
      → Consumes cap R (m >>= f) p out given
  Consumes-bind (ret a) f p out given h keep = keep a p out given h
  Consumes-bind (act (load_head o) k) f p out given h keep = absurd h
  Consumes-bind (act (load_disconnected o) k) f p out given (a, l, h, h') keep = (
    a,
    l,
    Consumes-bind (k false) f p out given h keep,
    λ t lo hi c. Consumes-bind (k true) f _ out given (h' t lo hi c) keep,
  )
  Consumes-bind (act (store_tail o x) k) f p out given h keep = absurd h
  Consumes-bind (act (store_disconnected o) k) f p out given h keep =
      Consumes-bind (k tt) f _ out given h keep
  Consumes-bind (act (write_slot i v) k) f p out given h keep = absurd h
  Consumes-bind (act (fence o) k) f p out given h keep = Consumes-bind (k tt) f p out given h keep
  Consumes-bind (act (pause w) k) f p out given h keep = Consumes-bind (k tt) f p out given h keep
  Consumes-bind (act (wake e) k) f p out given h keep = Consumes-bind (k tt) f p out given h keep
  Consumes-bind (act (prepare_park e) k) f p out given h keep =
      Consumes-bind (k tt) f p out given h keep
  Consumes-bind (act (cancel e) k) f p out given h keep = Consumes-bind (k tt) f p out given h keep
  Consumes-bind (act (park e) k) f p out given h keep = Consumes-bind (k tt) f p out given h keep
  Consumes-bind (act (load_tail o) k) f p out given h keep =
      λ t lo hi c. Consumes-bind (k (wrap t)) f _ out given (h t lo hi c) keep
  Consumes-bind (act (store_head o x) k) f p out given (a, b, h) keep =
      (a, b, Consumes-bind (k tt) f _ out given h keep)
  Consumes-bind (act (read_slot i) k) f p out given (a, b, h) keep =
      (a, b, λ v. Consumes-bind (k v) f _ _ given (h v) keep)
  Consumes-bind (act (apply v) k) f p out given h keep =
      λ b. Consumes-bind (k b) f p out _ (h b) keep
