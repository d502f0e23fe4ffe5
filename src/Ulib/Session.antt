-- ===== src/Ulib/Session.antt =====
-- A process that uses one manager of userspace/ivc/ivc_ulib.c: any sequence of calls on it and its endpoints.
use axvisor_tools.Common.{
  ℕ, zero, suc, ◌+◌, Option, none, some, List, [], ◌∷◌, length, set, Result, done, failed,
}
use axvisor_tools.Ulib.Defs.{Trace, Os, Manager}
use axvisor_tools.Ulib.Subscriber as Sub
use axvisor_tools.Ulib.Publisher as Pub

-- The endpoints that the process holds pointers to.
pub record Session : Type 0 where
  pub manager : Manager
  pub subscribers : List Sub.Subscriber
  pub publishers : List Pub.Publisher
  pub trace : Trace

-- An endpoint is named by its place.
pub data Op : Type 0 where
  subscribes publishes : ℕ → ℕ → Op
  unsubscribes unpublishes : ℕ → Op
  subscriber_recvs publisher_recvs : ℕ → ℕ → Op
  subscriber_sends publisher_sends : ℕ → List ℕ → ℕ → Op

module _ {ℓ} {A : Type ℓ} where
  abbrev pub nth : List A → ℕ → Option A
  nth [] i = none
  nth (x ∷ xs) zero = some x
  nth (x ∷ xs) (suc i) = nth xs i

  abbrev pub remove : List A → ℕ → List A
  remove [] i = []
  remove (x ∷ xs) zero = xs
  remove (x ∷ xs) (suc i) = x ∷ remove xs i

  abbrev pub keep : Result A → List A → List A
  keep (done x) xs = x ∷ xs
  keep (failed e) xs = xs

-- A process that has just opened its manager.
abbrev pub begin : Manager → Trace → Session
begin manager t = record { manager = manager; subscribers = []; publishers = []; trace = t }

module _ (os : Os) where
  unfoldable pub step : Session → Op → Session
  step s (subscribes publisher_id channel_key) =
      let (r, manager, trace) = Sub.subscribe os s.trace s.manager publisher_id channel_key in
      record s { manager = manager; subscribers = keep r s.subscribers; trace = trace }
  step s (publishes channel_key channel_size) =
      let (r, manager, trace) = Pub.publish os s.trace s.manager channel_key channel_size in
      record s { manager = manager; publishers = keep r s.publishers; trace = trace }
  step s (unsubscribes i) = elim (nth s.subscribers i) [
    | none ↦ s
    | some subscriber ↦
        let (code, manager, trace) = Sub.unsubscribe os s.trace s.manager subscriber in
        record s { manager = manager; subscribers = remove s.subscribers i; trace = trace }
  ]
  step s (unpublishes i) = elim (nth s.publishers i) [
    | none ↦ s
    | some publisher ↦
        let (code, manager, trace) = Pub.unpublish os s.trace s.manager publisher in
        record s { manager = manager; publishers = remove s.publishers i; trace = trace }
  ]
  step s (subscriber_recvs i count) = elim (nth s.subscribers i) [
    | none ↦ s
    | some subscriber ↦
        let (r, subscriber', trace) = Sub.recv os s.trace subscriber count in
        record s { subscribers = set s.subscribers i subscriber'; trace = trace }
  ]
  step s (publisher_recvs i count) = elim (nth s.publishers i) [
    | none ↦ s
    | some publisher ↦
        let (r, publisher', trace) = Pub.recv os s.trace publisher count in
        record s { publishers = set s.publishers i publisher'; trace = trace }
  ]
  step s (subscriber_sends i buf count) = elim (nth s.subscribers i) [
    | none ↦ s
    | some subscriber ↦
        let (r, subscriber', trace) = Sub.send os s.trace subscriber buf count in
        record s { subscribers = set s.subscribers i subscriber'; trace = trace }
  ]
  step s (publisher_sends i buf count) = elim (nth s.publishers i) [
    | none ↦ s
    | some publisher ↦
        let (r, publisher', trace) = Pub.send os s.trace publisher buf count in
        record s { publishers = set s.publishers i publisher'; trace = trace }
  ]

  unfoldable pub run : Session → List Op → Session
  run s [] = s
  run s (op ∷ ops) = run (step s op) ops

  abbrev pub live : Session → ℕ
  live s = length s.subscribers + length s.publishers
