-- ===== src/Raft/Frame.antt =====
-- Relations between the state before and after a handler, with one rule for each way in which
-- the handlers of cluster/go/raft/raft.go are built.
use distributed_mq.Prelude.{if◌then◌else◌, if-elim, ◌≡◌, Bool, true, false}
use distributed_mq.Go.{Outcome, ret, panic, blocked, continue, ◌>>=◌, ◌>>◌}
use distributed_mq.Raft.{RaftNode}
use distributed_mq.Raft.Roles.{Handler, unlock_after, with_lock}

-- A relation that does not read `locked`, and can be followed through a sequence of handlers.
pub record IsFrame (R : RaftNode → RaftNode → Type 0) : Type 0 where
  pub same : (r : RaftNode) → R r r
  pub follow : (r s t : RaftNode) → R r s → R s t → R r t
  pub relock : (r : RaftNode) (b : Bool) → R r (record r { locked = b })

-- Every run of `m` goes from a state to a related one.
abbrev pub Frames : {A : Type 0} → (RaftNode → RaftNode → Type 0) → Handler A → Type 0
Frames R m = (r : RaftNode) → R r (m r).1

pub frame-if :
    {A : Type 0} (R : RaftNode → RaftNode → Type 0) (r : RaftNode) (b : Bool)
    (p q : Outcome A × RaftNode)
    → (b ≡ true → R r p.1)
    → (b ≡ false → R r q.1)
    → R r (if b then p else q).1
frame-if R r b p q h k = if-elim (λ x. R r x.1) b p q h k

module _ {R : RaftNode → RaftNode → Type 0} (f : IsFrame R) {A : Type 0} where
  frame-unlock_after : (r : RaftNode) (p : Outcome A × RaftNode) → R r p.1 → R r (unlock_after p).1
  frame-unlock_after r (ret a, s) h =
      if-elim (λ (x : Outcome A × RaftNode). R r x.1) s.locked (ret a, record s { locked = false })
        (panic, s) (λ _. f.follow r s (record s { locked = false }) h (f.relock s false)) (λ _. h)
  frame-unlock_after r (panic, s) h =
      f.follow r s (record s { locked = false }) h (f.relock s false)
  frame-unlock_after r (blocked, s) h = h

  pub frame-with_lock_at :
      (m : Handler A) (r : RaftNode)
      → R (record r { locked = true }) (m (record r { locked = true })).1
      → R r (with_lock m r).1
  frame-with_lock_at m r h =
      let held : RaftNode = record r { locked = true } in
      if-elim (λ (x : Outcome A × RaftNode). R r x.1) r.locked (blocked, r) (unlock_after (m held))
        (λ _. f.same r)
        (λ _. frame-unlock_after r (m held) (f.follow r held (m held).1 (f.relock r true) h))

  pub frame-with_lock : (m : Handler A) → Frames R m → Frames R (with_lock m)
  frame-with_lock m h r = frame-with_lock_at m r (h (record r { locked = true }))

module _ {R : RaftNode → RaftNode → Type 0} (f : IsFrame R) {A B : Type 0} where
  frame-continue :
      (r : RaftNode) (p : Outcome A × RaftNode) (g : A → Handler B)
      → R r p.1
      → ((a : A) → Frames R (g a))
      → R r (continue p.0 g p.1).1
  frame-continue r (ret a, s) g h k = f.follow r s (g a s).1 h (k a s)
  frame-continue r (panic, s) g h k = h
  frame-continue r (blocked, s) g h k = h

  pub frame-bind :
      (m : Handler A) (g : A → Handler B)
      → Frames R m
      → ((a : A) → Frames R (g a))
      → Frames R (m >>= g)
  frame-bind m g h k r = frame-continue r (m r) g (h r) k

  pub frame-then : (m : Handler A) (k : Handler B) → Frames R m → Frames R k → Frames R (m >> k)
  frame-then m k h l = frame-bind m (λ _. k) h (λ _. l)
