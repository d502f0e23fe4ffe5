-- ===== src/Demo/Main.antt =====
-- `main` of demo/publish.c. The command line is parsed already; its numbers are what `strtoull` and
-- `strtoul` answer.
use axvisor_tools.Common.{
  ℕ, ◌||◌, not, Option, none, some, List, [], ltb, ◌==◌, if◌then◌else◌, done, failed, Code,
}
use axvisor_tools.AppProto.Defs.{AppMessage}
use axvisor_tools.Ulib.Defs.{Trace, Os, Manager, open_manager, close_manager}
use axvisor_tools.Ulib.Publisher.{Publisher, publish, unpublish}
use axvisor_tools.Demo.Publish.{default_channel_size, Replied, send_requests, receive_replies}

-- The exit code, if the program has ended; the calls of the system; and the replies accepted.
pub record Exit : Type 0 where
  pub ret : Option ℕ
  pub trace : Trace
  pub accepted : List AppMessage

abbrev pub or_else : Code → ℕ → ℕ → ℕ
or_else (failed e) bad ret = bad
or_else (done _) bad ret = ret

-- From the label `close_manager` on.
abbrev pub close_with : Os → Trace → Manager → List AppMessage → ℕ → Exit
close_with os t manager accepted ret =
    let (code, t') = close_manager os t manager in
    record { ret = some (or_else code 5 ret); trace = t'; accepted = accepted }

-- From the call of `ivc_unpublish` on.
abbrev pub unpublish_with : Os → Trace → Manager → Publisher → List AppMessage → ℕ → Exit
unpublish_with os t manager publisher accepted ret =
    let (code, manager', t') = unpublish os t manager publisher in
    close_with os t' manager' accepted (or_else code 4 ret)

abbrev pub finish : Os → Manager → Replied → Exit
finish os manager replied = elim replied.passed [
  | none ↦ record { ret = none; trace = replied.trace; accepted = replied.accepted }
  | some ok ↦
      unpublish_with os replied.trace manager replied.publisher replied.accepted
        (if ok then 0 else 3)
]

-- `argv_size` stands only where argc is 3.
unfoldable pub publish_main : Os → Trace → ℕ → ℕ → ℕ → List ℕ → Exit
publish_main os t argc channel_key argv_size payload =
    if ltb argc 2 || ltb 3 argc
    then record { ret = some 1; trace = t; accepted = [] }
    else let channel_size = if argc == 3 then argv_size else default_channel_size in
      let (manager, t1) = open_manager os t in
      elim manager [
        | failed e ↦ record { ret = some 1; trace = t1; accepted = [] }
        | done manager ↦
            let (publisher, manager', t2) = publish os t1 manager channel_key channel_size in
            elim publisher [
              | failed e ↦ close_with os t2 manager' [] 2
              | done publisher ↦
                  let (sent, publisher', t3) = send_requests os t2 publisher payload in
                  if not sent
                  then unpublish_with os t3 manager' publisher' [] 3
                  else finish os manager' (receive_replies os t3 publisher')
            ]
      ]
