-- ===== src/Demo/Tests.antt =====
-- The demo programs on a system that hands out descriptors, and the theorems at concrete inputs.
use axvisor_tools.Common.{
  ℕ, List, ◌+◌, ◌≡◌, ◌≢◌, inr, refl, arith, true, none, some, [], replicate, length, done, success,
}
use axvisor_tools.AppProto.Defs.{AppMessage, app_header_len, kind_ack, decode}
use axvisor_tools.AppProto.Ack.{linux_ack, ack_body_is_valid}
use axvisor_tools.Ulib.Defs.{Os, Trace}
use axvisor_tools.Ulib.Publisher as Pub
use axvisor_tools.Ulib.Balance.{Holds}
use axvisor_tools.Demo.Publish.{Replies, handle_reply, handle_ack, receive_replies}
use axvisor_tools.Demo.Main.{publish_main}
use axvisor_tools.Demo.Replies.{Receives, receive_replies-Receives, receive_replies_terminates}
use axvisor_tools.Demo.Held.{AreDescriptors, Leaves, publish_main-Leaves}
use axvisor_tools.Demo.Subscribe.{ack_body, send_ack}
use axvisor_tools.Demo.Left as Left
use axvisor_tools.Demo.Agree.{answered, ack_is_accepted}
use axvisor_tools.Ulib.Subscriber.{Subscriber, send}

-- Every call succeeds, reads find no message, and a write takes all.
abbrev quiet : Os
quiet = record {
  has_memory = λ t. true;
  open_path = λ t path. done 3;
  close_fd = λ t fd. success;
  subscribe_channel = λ t fd arg. done arg;
  unsubscribe_channel = λ t fd arg. success;
  publish_channel = λ t fd arg. done arg;
  unpublish_channel = λ t fd arg. success;
  read_fd = λ t fd size. done [];
  write_fd = λ t fd bytes. done (length bytes);
}

quiet-AreDescriptors : AreDescriptors quiet
quiet-AreDescriptors t path fd e = let three : 3 ≡ fd = cc e in omega arith

nothing-Holds : Holds 3 77 [] 0 0 0
nothing-Holds = record { memory = refl; descriptors = refl; channels = refl }

abbrev publisher : Pub.Publisher
publisher =
    Pub.fresh (record { channel_key = 77; channel_size = 65536; device_name = Pub.no_name }) 3

receive_replies-Receives_example : Receives (receive_replies quiet [] publisher)
receive_replies-Receives_example = receive_replies-Receives quiet [] publisher

receive_replies_terminates_example : (receive_replies quiet [] publisher).passed ≢ none
receive_replies_terminates_example = receive_replies_terminates quiet [] publisher

publish_main-Leaves_example :
    Leaves 3 77 (publish_main quiet [] 3 77 65536 (replicate 7484 0)) 0 0 0
publish_main-Leaves_example =
    publish_main-Leaves 3 77 quiet [] 3 77 65536 (replicate 7484 0) 0 0 0 quiet-AreDescriptors
      nothing-Holds

-- All data messages are in, and the last acknowledgement is due.
abbrev last_due : Replies
last_due = record { expected_ack_sequence = 5; expected_data_sequence = 4 }

ack_is_accepted_example :
    let len = app_header_len + length ack_body in
    (out : List ℕ) × (message : AppMessage) × ((os : Os) (t : Trace) (subscriber : Subscriber)
      → send_ack os t subscriber (replicate 36 0) 5 ≡ answered len (send os t subscriber out len))
    × (decode out len ≡ some message)
    × (handle_reply last_due message ≡ some (record last_due { expected_ack_sequence = 6 }))
ack_is_accepted_example =
    ack_is_accepted (replicate 36 0) last_due 5 (omega arith) (omega arith) refl (inr refl)

-- The last acknowledgement is refused while a data message is missing.
early_last_ack :
    handle_reply
      (record { expected_ack_sequence = 5; expected_data_sequence = 3 })
      (record { kind = kind_ack; sequence = 5; body = linux_ack; body_len = 25 })
    ≡ none
unfolding handle_reply handle_ack ack_body_is_valid
early_last_ack = refl
