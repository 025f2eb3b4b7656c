-- ===== src/Connection/Logs.antt =====
-- The logs of the two writers of a queue, and the queue that holds both.
use gateway_proxy.Prelude.{
  ℕ, ◌+◌, refl, sym, subst, List, [], ◌∷◌, ◌++◌, inl, inr, if-elim, Option-cases, ltb, length,
  get_elem?,
}
use gateway_proxy.Text.{Text}
use gateway_proxy.State.{BroadcastMessage}
use gateway_proxy.State.Waiting as Waiting
use gateway_proxy.State.Waiting.{advance_at, testing, subscribing, reading, parked, returned}
use gateway_proxy.Server.Client.{ForwardTask}
use gateway_proxy.Server.Forward.{renumber}
use gateway_proxy.System.{
  Place, waiting, preparing, introducing, unsubscribed, crashed, receiving, System, wait,
  send_ready, send_guilds, send_resumed, subscribe, deliver, receive, forward_at,
}
use gateway_proxy.Connection.{added}
use gateway_proxy.Connection.Messages.{Extends, Extends-refl, added-append}

-- `zs` has the elements of `xs` and of `ys`, each list in its order.
pub data Interleaves {A : Type 0} : List A → List A → List A → Type 0 where
  done : Interleaves [] [] []
  left : (x : A) {xs ys zs : List A} → Interleaves xs ys zs → Interleaves (x ∷ xs) ys (x ∷ zs)
  right : (y : A) {xs ys zs : List A} → Interleaves xs ys zs → Interleaves xs (y ∷ ys) (y ∷ zs)

pub Interleaves-left : {A : Type 0} (new : List A) → Interleaves new [] new
Interleaves-left [] = done
Interleaves-left (x ∷ new) = left x (Interleaves-left new)

pub Interleaves-right : {A : Type 0} (new : List A) → Interleaves [] new new
Interleaves-right [] = done
Interleaves-right (x ∷ new) = right x (Interleaves-right new)

Interleaves-append_left :
    {A : Type 0} {xs ys zs : List A} (new : List A)
    → Interleaves xs ys zs
    → Interleaves (xs ++ new) ys (zs ++ new)
Interleaves-append_left new done = Interleaves-left new
Interleaves-append_left new (left x i) = left x (Interleaves-append_left new i)
Interleaves-append_left new (right y i) = right y (Interleaves-append_left new i)

Interleaves-append_right :
    {A : Type 0} {xs ys zs : List A} (new : List A)
    → Interleaves xs ys zs
    → Interleaves xs (ys ++ new) (zs ++ new)
Interleaves-append_right new done = Interleaves-right new
Interleaves-append_right new (left x i) = left x (Interleaves-append_right new i)
Interleaves-append_right new (right y i) = right y (Interleaves-append_right new i)

-- What one of the writers has added to its log is added to the queue.
pub added-Interleaves_left :
    (before after ys zs : List Text)
    → Extends before after
    → Interleaves before ys zs
    → Interleaves after ys (zs ++ added before after)
added-Interleaves_left before after ys zs (new, e) i =
    subst (λ l. Interleaves l ys (zs ++ added before l)) (sym e)
      (subst (λ l. Interleaves (before ++ new) ys (zs ++ l)) (sym (added-append before new))
        (Interleaves-append_left new i))

pub added-Interleaves_right :
    (before after xs zs : List Text)
    → Extends before after
    → Interleaves xs before zs
    → Interleaves xs after (zs ++ added before after)
added-Interleaves_right before after xs zs (new, e) i =
    subst (λ l. Interleaves xs l (zs ++ added before l)) (sym e)
      (subst (λ l. Interleaves xs (before ++ new) (zs ++ l)) (sym (added-append before new))
        (Interleaves-append_right new i))

module _ (client : ForwardTask) (capacity : ℕ) where
  abbrev Grows : System → System → Type 0
  Grows s s' = Extends s.queue s'.queue

  wait-Grows : (s : System) (place : Waiting.Place) → Grows s (wait s place)
  unfolding wait
  wait-Grows s (returned payload) = Extends-refl s.queue
  wait-Grows s testing = Extends-refl s.queue
  wait-Grows s subscribing = Extends-refl s.queue
  wait-Grows s reading = Extends-refl s.queue
  wait-Grows s (parked seen) = Extends-refl s.queue
  wait-Grows s Waiting.panicked = Extends-refl s.queue

  deliver-Grows :
      (s : System) (position : ℕ) (m : BroadcastMessage)
      → Grows s (deliver client capacity s position m (renumber m s.seq))
  unfolding deliver
  deliver-Grows s position m = elim (Option-cases (renumber m s.seq)) [
    | inl e ↦ rw (e, deliver) (Extends-refl s.queue)
    | inr ((payload, seq), e) ↦ rw (e, deliver) (payload ∷ [], refl)
  ]

  -- The task of the client only adds to what it has sent.
  pub forward_at-Grows : (s : System) (place : Place) → Grows s (forward_at client capacity s place)
  unfolding forward_at send_ready send_guilds send_resumed subscribe receive
  forward_at-Grows s (waiting place) = wait-Grows s (advance_at s.task.shard.ready place)
  forward_at-Grows s preparing =
      if-elim (Grows s) client.send_guilds (λ _. (_, refl)) (λ _. (_, refl))
  forward_at-Grows s introducing = (_, refl)
  forward_at-Grows s unsubscribed = Extends-refl s.queue
  forward_at-Grows s (receiving position) =
      if-elim (Grows s) (ltb (position + capacity) (length s.task.shard.events))
        (λ _. Extends-refl s.queue)
        (λ _. elim (Option-cases (get_elem? s.task.shard.events position)) [
          | inl e ↦ rw e (Extends-refl s.queue)
          | inr (m, e) ↦ rw e (deliver-Grows s position m)
        ])
  forward_at-Grows s crashed = Extends-refl s.queue
