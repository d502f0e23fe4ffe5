-- ===== src/Message/Receiver.antt =====
-- The receiving state machine of ivc/message.c. The ring that the receiver points to is passed
-- beside it. An `out` parameter is part of the result.
use axvisor_tools.Common.{
  ℕ, zero, suc, ◌+◌, ◌-◌, Bool, true, false, ◌&&◌, ◌||◌, not, Option, none, some, List, [], ◌++◌,
  ltb, ◌==◌, if◌then◌else◌, length, Result, done, failed, Code, success, Errno, reject_if, ◌>>=◌,
  ◌>>◌, eproto, emsgsize, econnreset,
}
use axvisor_tools.Ring.Defs.{Ring, Slot, try_peek_slot, pop_slot}
use axvisor_tools.Message.Frame.{Frame, decode_frame, payload}
use axvisor_tools.Message.Sender.{Meta, u64, u64_max}

pub data ReceiverState : Type 0 where
  idle receiving failed_state : ReceiverState

pub record Receiver : Type 0 where
  pub state : ReceiverState
  pub active : Meta
  pub received : ℕ
  pub failed_errno : Code

pub record ReceiveProgress : Type 0 where
  pub written : ℕ
  pub consumed_slots : ℕ
  pub complete : Bool

pub record Transition : Type 0 where
  pub next_state : ReceiverState
  pub active : Meta
  pub received : ℕ
  pub complete : Bool
  pub aborted : Bool

unfoldable pub receiver_init : Receiver
receiver_init = record {
  state = ReceiverState.idle;
  active = record { id = 0; len = 0 };
  received = 0;
  failed_errno = success;
}

unfoldable pub receiver_poison : Receiver → Code → Receiver
receiver_poison receiver error = record receiver {
  state = ReceiverState.failed_state;
  failed_errno = error;
}

-- `axivc_receiver_fail` poisons, and the caller returns the same error.
abbrev pub receiver_fail : Receiver → Errno → Receiver
receiver_fail receiver error = record receiver {
  state = ReceiverState.failed_state;
  failed_errno = failed error;
}

-- What `axivc_message_peek_meta` finds: the metadata, if `*available`.
pub record Peeked : Type 0 where
  pub code : Code
  pub receiver : Receiver
  pub metadata : Option Meta

-- The idle case of `axivc_message_peek_meta`.
unfoldable pub peek_first : Receiver → Option Slot → Peeked
peek_first receiver none = record { code = success; receiver = receiver; metadata = none }
peek_first receiver (some slot) = elim (decode_frame slot) [
  | failed e ↦ record { code = failed e; receiver = receiver_fail receiver e; metadata = none }
  | done frame ↦
      if frame.abort || not frame.first
      then record {
        code = failed eproto;
        receiver = receiver_fail receiver eproto;
        metadata = none;
      }
      else record {
        code = success;
        receiver = receiver;
        metadata = some (record { id = frame.message_id; len = frame.message_len });
      }
]

unfoldable pub peek_meta : Receiver → Ring → Peeked
unfolding peek_first
peek_meta receiver ring = elim receiver.state [
  | ReceiverState.failed_state ↦ record {
    code = receiver.failed_errno;
    receiver = receiver;
    metadata = none;
  }
  | ReceiverState.receiving ↦ record {
    code = success;
    receiver = receiver;
    metadata = some receiver.active;
  }
  | ReceiverState.idle ↦ peek_first receiver (try_peek_slot ring)
]

-- `*transition` as it stands on the stack: the failed state returns before it is written.
abbrev pub unset : Transition
unset = record {
  next_state = ReceiverState.idle;
  active = record { id = 0; len = 0 };
  received = 0;
  complete = false;
  aborted = false;
}

-- `axivc_validate_transition` behind its switch, with `active` and `received` set there.
unfoldable pub advance_transition : Frame → Meta → ℕ → Result Transition
advance_transition frame active received =
    if frame.abort
    then done (record {
      next_state = ReceiverState.idle;
      active = active;
      received = received;
      complete = false;
      aborted = true;
    })
    else do
      reject_if (ltb (u64_max - frame.fragment_len) received) eproto
      let total = u64 (received + frame.fragment_len)
      reject_if (ltb active.len total) eproto
      reject_if (frame.last && not (total == active.len)) eproto
      done (record {
        next_state = (if frame.last then ReceiverState.idle else ReceiverState.receiving);
        active = active;
        received = total;
        complete = frame.last;
        aborted = false;
      })

unfoldable pub validate_transition : Receiver → Frame → Result Transition
unfolding advance_transition
validate_transition receiver frame = elim receiver.state [
  | ReceiverState.idle ↦ do
    reject_if (frame.abort || not frame.first) eproto
    advance_transition frame (record { id = frame.message_id; len = frame.message_len }) 0
  | ReceiverState.receiving ↦ do
    reject_if frame.first eproto
    reject_if (not (frame.message_id == receiver.active.id)) eproto
    reject_if (not (frame.message_len == receiver.active.len)) eproto
    advance_transition frame receiver.active receiver.received
  | ReceiverState.failed_state ↦ receiver.failed_errno >>= λ _. done unset
]

-- What a call of `axivc_message_try_read` leaves: its result, the receiver, its ring, the bytes
-- copied to `output`, and `*progress`.
pub record Received : Type 0 where
  pub code : Code
  pub receiver : Receiver
  pub ring : Ring
  pub output : List ℕ
  pub progress : ReceiveProgress

abbrev pub no_progress : ReceiveProgress
no_progress = record { written = 0; consumed_slots = 0; complete = false }

-- A return with `*progress` set and no error.
abbrev pub stop_reading : Receiver → Ring → List ℕ → ℕ → Bool → Received
stop_reading receiver ring output consumed_slots complete = record {
  code = success;
  receiver = receiver;
  ring = ring;
  output = output;
  progress = record {
    written = length output;
    consumed_slots = consumed_slots;
    complete = complete;
  };
}

-- A return with an error and `*progress` still cleared.
abbrev pub fail_reading : Code → Receiver → Ring → List ℕ → Received
fail_reading code receiver ring output = record {
  code = code;
  receiver = receiver;
  ring = ring;
  output = output;
  progress = no_progress;
}

-- The receiver after a consumed slot.
abbrev pub apply : Receiver → Transition → Receiver
apply receiver transition = record receiver {
  state = transition.next_state;
  active = transition.active;
  received = transition.received;
}

-- The loop of `axivc_process_available_slots`. `output` holds the bytes written so far. A round
-- that does not return writes at least one byte, so `output_len + 1` rounds are fuel enough.
unfoldable pub read_loop : ℕ → ℕ → Receiver → Ring → List ℕ → ℕ → Received
read_loop zero output_len receiver ring output consumed_slots =
    stop_reading receiver ring output consumed_slots false
read_loop (suc fuel) output_len receiver ring output consumed_slots = elim (try_peek_slot ring) [
  | none ↦ stop_reading receiver ring output consumed_slots false
  | some slot ↦ elim (decode_frame slot) [
    | failed e ↦
        if ltb 0 consumed_slots
        then stop_reading receiver ring output consumed_slots false
        else fail_reading (failed e) (receiver_fail receiver e) ring output
    | done frame ↦ elim (validate_transition receiver frame) [
      | failed e ↦
          if ltb 0 consumed_slots
          then stop_reading receiver ring output consumed_slots false
          else fail_reading (failed e) (receiver_fail receiver e) ring output
      | done transition ↦
          let output' = output ++ payload frame in
          let receiver' = apply receiver transition in
          let ring' = pop_slot ring in
          let more = read_loop fuel output_len receiver' ring' output' (consumed_slots + 1) in
          if transition.aborted && ltb 0 consumed_slots
          then stop_reading receiver ring output consumed_slots false
          else if ltb (output_len - length output) frame.fragment_len
          then (if consumed_slots == 0
              then fail_reading (failed emsgsize) receiver ring output
              else stop_reading receiver ring output consumed_slots false)
          else if transition.aborted
          then fail_reading (failed econnreset) receiver' ring' output'
          else if transition.complete
          then stop_reading receiver' ring' output' (consumed_slots + 1) true
          else more
    ]
  ]
]

unfoldable pub try_read : Receiver → Ring → ℕ → Received
try_read receiver ring output_len = elim receiver.state [
  | ReceiverState.failed_state ↦ fail_reading receiver.failed_errno receiver ring []
  | _ ↦ read_loop (output_len + 1) output_len receiver ring [] 0
]
