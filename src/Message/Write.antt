-- ===== src/Message/Write.antt =====
-- `axivc_message_start`, `axivc_message_try_write` and `axivc_message_try_abort` of ivc/message.c on
-- joined ends.
use axvisor_tools.Common.{
  ℕ, zero, suc, ◌+◌, ◌^◌, ◌≤◌, ◌<◌, ◌≡◌, ◌⊎◌, inl, inr, refl, ◌∙◌, sym, ap, arith, Bool, true,
  false, List, [], ◌∷◌, ◌++◌, append_assoc, append-nil, ◌==◌, length, take, drop, min, length-drop,
  take_add, Bool-cases, success,
}
use axvisor_tools.Ring.Defs.{Ring, axivc_ring_capacity}
use axvisor_tools.Ring.Refine.{contents}
use axvisor_tools.Message.Frame.{axivc_fragment_capacity}
use axvisor_tools.Message.Sender.{Sender, Wrote, u64, write_loop, stop_writing, advance}
use axvisor_tools.Message.Receiver.{Receiver}
use axvisor_tools.Message.Joined.{IsActive, Joined, Log, extend, absorb_all}
use axvisor_tools.Message.Publish.{after_fragment, publish_fragment}

pub extend-extend :
    (log : Log) (a b : List ℕ) (complete : Bool)
    → extend (extend log a false) b complete ≡ extend log (a ++ b) complete
extend-extend log a b true =
    ap (λ t. record { partial = []; messages = log.messages ++ (t ∷ []) })
      (append_assoc log.partial a b)
extend-extend log a b false =
    ap (λ t. record { partial = t; messages = log.messages }) (append_assoc log.partial a b)

pub extend_nothing : (log : Log) → extend log [] false ≡ log
extend_nothing log =
    ap (λ t. record { partial = t; messages = log.messages }) (append-nil log.partial)

advance-IsActive :
    (sender : Sender) (fragment_len : ℕ)
    → IsActive sender
    → 0 < fragment_len
    → sender.sent + fragment_len ≤ sender.active.len
    → u64 (sender.sent + fragment_len) == sender.active.len ≡ false
    → IsActive (advance sender (u64 (sender.sent + fragment_len)))
advance-IsActive sender fragment_len act pos fits c = ground arith

module _ (receiver : Receiver) (log : Log) where
  -- A write that took the first `taken` bytes of `input` and put them into the ring.
  pub record Publishes (sender : Sender) (ring : Ring) (input : List ℕ) (consumed : ℕ) (w : Wrote)
      : Type 0 where
    pub code : w.code ≡ success
    pub joined : Joined receiver w.sender w.ring
    pub taken : ℕ
    pub taken_in : taken ≤ length input
    pub count : w.progress.consumed ≡ consumed + taken
    pub same_message : w.sender.active ≡ sender.active
    pub progressed : w.sender.sent ≡ sender.sent + taken
    pub logged :
        absorb_all log (contents w.ring)
        ≡ extend (absorb_all log (contents ring)) (take taken input) w.progress.complete
    pub completes :
        ((w.progress.complete ≡ true)
          × (sender.sent + taken ≡ sender.active.len)
          × (w.sender.sending ≡ false))
        ⊎ ((w.progress.complete ≡ false)
            × (w.sender.sending ≡ sender.sending)
            × ((taken ≡ length input) ⊎ (length (contents w.ring) ≡ axivc_ring_capacity)))

  stop_Publishes :
      (sender : Sender) (ring : Ring) (input : List ℕ) (consumed published_slots : ℕ)
      → Joined receiver sender ring
      → (0 ≡ length input) ⊎ (length (contents ring) ≡ axivc_ring_capacity)
      → Publishes sender ring input consumed (stop_writing sender ring consumed published_slots)
  stop_Publishes sender ring input consumed published_slots joined why = record {
    code = refl;
    joined = joined;
    taken = 0;
    taken_in = omega arith;
    count = omega arith;
    same_message = refl;
    progressed = omega arith;
    logged = sym (extend_nothing (absorb_all log (contents ring)));
    completes = inr (refl, refl, why);
  }

  -- The round that completes the message.
  last_Publishes :
      (sender : Sender) (ring ring' : Ring) (input : List ℕ)
      (fragment_len consumed published_slots : ℕ)
      → fragment_len ≤ length input
      → sender.sent + fragment_len ≤ sender.active.len
      → sender.active.len < 2 ^ 64
      → u64 (sender.sent + fragment_len) == sender.active.len ≡ true
      → Joined receiver (after_fragment sender fragment_len) ring'
      → absorb_all log (contents ring')
        ≡ extend
            (absorb_all log (contents ring))
            (take fragment_len input)
            (u64 (sender.sent + fragment_len) == sender.active.len)
      → Publishes sender ring input consumed (record {
        code = success;
        sender = record (advance sender (u64 (sender.sent + fragment_len))) { sending = false };
        ring = ring';
        progress = record {
          consumed = consumed + fragment_len;
          published_slots = published_slots + 1;
          complete = true;
        };
      })
  last_Publishes sender ring ring' input fragment_len consumed published_slots k fits small c joined
        logged =
      record {
        code = refl;
        joined = rw c at joined;
        taken = fragment_len;
        taken_in = k;
        count = refl;
        same_message = refl;
        progressed = omega arith;
        logged = rw c at logged;
        completes = inl (refl, ground arith, refl);
      }

  -- A round that does not, followed by the rest of the loop.
  more_Publishes :
      (sender : Sender) (ring ring' : Ring) (input : List ℕ) (fragment_len consumed : ℕ) (w : Wrote)
      → fragment_len ≤ length input
      → sender.sent + fragment_len < 2 ^ 64
      → absorb_all log (contents ring')
        ≡ extend (absorb_all log (contents ring)) (take fragment_len input) false
      → Publishes
          (advance sender (u64 (sender.sent + fragment_len)))
          ring'
          (drop fragment_len input)
          (consumed + fragment_len)
          w
      → Publishes sender ring input consumed w
  more_Publishes sender ring ring' input fragment_len consumed w k small logged rest = record {
    code = rest.code;
    joined = rest.joined;
    taken = fragment_len + rest.taken;
    taken_in = omega (arith, rest.taken_in, length-drop {0} fragment_len input);
    count = omega (arith, rest.count);
    same_message = rest.same_message;
    progressed = omega (arith, rest.progressed);
    logged =
        rest.logged
        ∙ ap (λ l. extend l (take rest.taken (drop fragment_len input)) w.progress.complete) logged
        ∙ extend-extend (absorb_all log (contents ring)) (take fragment_len input)
            (take rest.taken (drop fragment_len input)) w.progress.complete
        ∙ ap (λ t. extend (absorb_all log (contents ring)) t w.progress.complete)
            (sym (take_add fragment_len rest.taken input k));
    completes = ground (arith, rest.completes, length-drop {0} fragment_len input);
  }

  pub write_loop-Publishes :
      (fuel : ℕ) (input : List ℕ) (sender : Sender) (ring : Ring) (consumed published_slots : ℕ)
      → length input ≤ fuel
      → Joined receiver sender ring
      → IsActive sender
      → sender.sent + length input ≤ sender.active.len
      → Publishes sender ring input consumed
          (write_loop fuel input sender ring consumed published_slots)
  unfolding write_loop
  write_loop-Publishes zero input sender ring consumed published_slots enough joined act fits =
      stop_Publishes sender ring input consumed published_slots joined (inl (omega arith))
  write_loop-Publishes (suc fuel) [] sender ring consumed published_slots enough joined act fits =
      stop_Publishes sender ring [] consumed published_slots joined (inl refl)
  write_loop-Publishes (suc fuel) (x ∷ xs) sender ring consumed published_slots enough joined act
        fits =
      let fragment_len = min axivc_fragment_capacity (length (x ∷ xs)) in
      let (slot, e, pushes) =
        publish_fragment receiver log sender ring (x ∷ xs) fragment_len joined act (omega arith)
          (omega arith) (omega arith) (omega arith) in
      elim pushes [
        | inl (refused, full) ↦
            rw (e, write_loop, refused)
              (stop_Publishes sender ring (x ∷ xs) consumed published_slots joined (inr full))
        | inr (ring', pushed, joined', logged) ↦
            elim (Bool-cases (u64 (sender.sent + fragment_len) == sender.active.len)) [
              | inl c ↦
                  rw (e, write_loop, pushed, c)
                    (last_Publishes sender ring ring' (x ∷ xs) fragment_len consumed published_slots
                      (omega arith) (omega arith) (omega arith) c joined' logged)
              | inr c ↦
                  rw (e, write_loop, pushed, c)
                    (more_Publishes sender ring ring' (x ∷ xs) fragment_len consumed _ (omega arith)
                      (omega arith) (rw c at logged)
                      (write_loop-Publishes fuel (drop fragment_len (x ∷ xs))
                        (advance sender (u64 (sender.sent + fragment_len))) ring'
                        (consumed + fragment_len) (published_slots + 1)
                        (omega (arith, length-drop {0} fragment_len (x ∷ xs))) (rw c at joined')
                        (advance-IsActive sender fragment_len act (omega arith) (omega arith) c)
                        (omega (arith, length-drop {0} fragment_len (x ∷ xs)))))
            ]
      ]
