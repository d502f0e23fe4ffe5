-- ===== src/Message/Sender.antt =====
-- The sending state machine of ivc/message.c. The ring that the sender points to is passed beside
-- it. An `out` parameter is part of the result.
use axvisor_tools.Common.{
  ℕ, zero, suc, ◌+◌, ◌-◌, ◌%◌, ◌^◌, min, Bool, true, false, not, List, [], ◌∷◌, ltb, ◌==◌,
  if◌then◌else◌, length, drop, done, failed, Code, success, ebusy, eoverflow, enomsg, einval,
  eagain,
}
use axvisor_tools.Ring.Defs.{Ring, try_push_slot}
use axvisor_tools.Message.Frame.{axivc_fragment_capacity, encode_frame}

abbrev pub u64 : ℕ → ℕ
u64 n = n % 2 ^ 64

-- `~0ULL`.
abbrev pub u64_max : ℕ
u64_max = 2 ^ 64 - 1

pub record Meta : Type 0 where
  pub id : ℕ
  pub len : ℕ

pub record Sender : Type 0 where
  pub next_message_id : ℕ
  pub sending : Bool
  pub active : Meta
  pub sent : ℕ
  pub published_any : Bool

pub record SendProgress : Type 0 where
  pub consumed : ℕ
  pub published_slots : ℕ
  pub complete : Bool

-- What a call leaves: its result, the sender, its ring, and `*progress`.
pub record Wrote : Type 0 where
  pub code : Code
  pub sender : Sender
  pub ring : Ring
  pub progress : SendProgress

abbrev pub no_progress : SendProgress
no_progress = record { consumed = 0; published_slots = 0; complete = false }

unfoldable pub sender_init : Sender
sender_init = record {
  next_message_id = 1;
  sending = false;
  active = record { id = 0; len = 0 };
  sent = 0;
  published_any = false;
}

unfoldable pub start : Sender → ℕ → Code × Sender
start sender message_len =
    if sender.sending
    then (failed ebusy, sender)
    else if sender.next_message_id == 0
    then (failed eoverflow, sender)
    else (
      success,
      record {
        next_message_id =
            (if sender.next_message_id == u64_max then 0 else u64 (sender.next_message_id + 1));
        sending = true;
        active = record { id = sender.next_message_id; len = message_len };
        sent = 0;
        published_any = false;
      },
    )

-- `axivc_publish_empty_message`, called with `progress` cleared.
unfoldable pub publish_empty_message : Sender → Ring → Wrote
publish_empty_message sender ring = elim (encode_frame sender.active.id 0 true true false [] 0) [
  | failed e ↦ record { code = failed e; sender = sender; ring = ring; progress = no_progress }
  | done slot ↦
      let (pushed, ring') = try_push_slot ring slot in
      if pushed
      then record {
        code = success;
        sender = record sender { sending = false };
        ring = ring';
        progress = record { consumed = 0; published_slots = 1; complete = true };
      }
      else record { code = success; sender = sender; ring = ring'; progress = no_progress }
]

-- The end of `axivc_message_try_write` behind its loop.
abbrev pub stop_writing : Sender → Ring → ℕ → ℕ → Wrote
stop_writing sender ring consumed published_slots = record {
  code = success;
  sender = sender;
  ring = ring;
  progress = record { consumed = consumed; published_slots = published_slots; complete = false };
}

-- The sender after one more fragment.
abbrev pub advance : Sender → ℕ → Sender
advance sender next_sent = record sender { sent = next_sent; published_any = true }

-- The `while` loop of `axivc_message_try_write`; `input` is what stands at `input + consumed`.
-- Each round takes at least one byte, so the bytes left are fuel enough.
unfoldable pub write_loop : ℕ → List ℕ → Sender → Ring → ℕ → ℕ → Wrote
write_loop zero input sender ring consumed published_slots =
    stop_writing sender ring consumed published_slots
write_loop (suc fuel) [] sender ring consumed published_slots =
    stop_writing sender ring consumed published_slots
write_loop (suc fuel) (x ∷ xs) sender ring consumed published_slots =
    let fragment_len = min axivc_fragment_capacity (length (x ∷ xs)) in
    let next_sent = u64 (sender.sent + fragment_len) in
    let complete = next_sent == sender.active.len in
    elim (encode_frame sender.active.id sender.active.len (not sender.published_any) complete false
      (x ∷ xs) fragment_len) [
        | failed e ↦ record {
          code = failed e;
          sender = sender;
          ring = ring;
          progress = no_progress;
        }
        | done slot ↦
            let (pushed, ring') = try_push_slot ring slot in
            let more =
              write_loop fuel (drop fragment_len (x ∷ xs)) (advance sender next_sent) ring'
                (consumed + fragment_len) (published_slots + 1) in
            if pushed
            then (if complete
                then record {
                  code = success;
                  sender = record (advance sender next_sent) { sending = false };
                  ring = ring';
                  progress = record {
                    consumed = consumed + fragment_len;
                    published_slots = published_slots + 1;
                    complete = true;
                  };
                }
                else more)
            else stop_writing sender ring' consumed published_slots
      ]

unfoldable pub try_write : Sender → Ring → List ℕ → Wrote
try_write sender ring input =
    if not sender.sending
    then record { code = failed enomsg; sender = sender; ring = ring; progress = no_progress }
    else if ltb (u64 (sender.active.len + 2 ^ 64 - sender.sent)) (length input)
    then record { code = failed einval; sender = sender; ring = ring; progress = no_progress }
    else if sender.active.len == 0
    then publish_empty_message sender ring
    else write_loop (length input) input sender ring 0 0

unfoldable pub try_abort : Sender → Ring → Code × Sender × Ring
try_abort sender ring =
    if not sender.sending
    then (failed enomsg, sender, ring)
    else if not sender.published_any
    then (success, record sender { sending = false }, ring)
    else elim (encode_frame sender.active.id sender.active.len false false true [] 0) [
      | failed e ↦ (failed e, sender, ring)
      | done slot ↦
          let (pushed, ring') = try_push_slot ring slot in
          if pushed
          then (success, record sender { sending = false }, ring')
          else (failed eagain, sender, ring')
    ]
