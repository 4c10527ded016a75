-- ===== src/Examples/Shells.antt =====
-- Runs of pkg/gate with several clients that wait for one app, and of the streams between client and gate.
use cliapp.Base.{
  Option, ◌≡◌, refl, none, some, true, List, [], ◌∷◌, ◌++◌, map, String, arith, All, length, keep,
}
use cliapp.Controller.Error.{Error, external, message}
use cliapp.Controller.State.{Answer, ok, err}
use cliapp.Gate.Session.{AppSession, done}
use cliapp.Gate.Shell.{App, StdIn, Exec, Streamed, exited, status_error, unavailable, crashes}
use cliapp.Gate.Waiting.{commit_open}
use cliapp.Gate.Waiting.Laws.{reply_to, IsNamed, commit_open-failed}
use cliapp.Gate.Io.{copied, gen_client_io_streams}
use cliapp.Gate.Io.Laws.{never, reads_of}
use cliapp.Gate.Output.{StdOut, Output, notes, writes, write_all, progress_text}
use cliapp.Libcli.Exec.{
  RecvError, ends, Event as ClientEvent, input, winch, output, Terminal, exchange, exec_cli_app,
  first_message, new_client, recv_ended,
}
use cliapp.Libcli.Streams.{Chunk, end_of_input, message as sent, stops, receive, read_stdin}
use cliapp.Libcli.Streams.Output.{is_text, shown, write_all-exchange}
use cliapp.Libcli.Streams.Input.{read_stdin-reads_of}

abbrev ctr_key : App
ctr_key = record { name = "ctr"; namespace = "app" }

abbrev asks_ctr : StdIn
asks_ctr = record { app = some ctr_key; input = "images" ∷ []; terminal_size = some (80, 24) }

asks_ctr-IsNamed : IsNamed asks_ctr ctr_key
asks_ctr-IsNamed = record { app = refl; name = refl; namespace = refl }

abbrev exits : Exec → Streamed
exits e = exited 3

-- Three clients wait for the app.
abbrev waited_for : AppSession
waited_for = record {
  active_count = 3;
  app = none;
  outgoing_open_session = some 0;
  outgoing_close_session = none;
  ctx_cancel = some 0;
  next = 1;
  cancelled = [];
}

commit_open-failed_example :
    (a : Answer _) × (others : List (Answer _)) × (commit_open
        (err (external "no Pod"))
        3
        waited_for
      ≡ done (a ∷ others) waited_for)
    × (length others ≡ 2)
    × (reply_to exits asks_ctr a ≡ status_error unavailable (message (external "no Pod")))
    × All (λ a. reply_to exits asks_ctr a ≡ crashes "app.Spec") others
commit_open-failed_example =
    commit_open-failed exits asks_ctr ctr_key waited_for (external "no Pod") 2 asks_ctr-IsNamed refl

abbrev xterm : Terminal
xterm = record {
  stdin_is_terminal = true;
  stdout_is_terminal = true;
  size = λ n. some (80, 24);
  send_error = λ sent m. none;
  make_raw = none;
}

abbrev plain : String → String
plain text = text

abbrev takes : List StdOut → StdOut → Option Error
takes before m = none

abbrev outputs : List Output
outputs = notes "recovering" ∷ writes "$ " ∷ writes "ls\n" ∷ []

abbrev arrived : List String
arrived = (receive (map sent (write_all plain takes outputs []) ++ stops RecvError.eof ∷ [])).raw

write_all-exchange_example :
    ((exchange xterm 1
        (map shown arrived ++ ends (recv_ended RecvError.eof) ∷ [])
        (new_client [])).client.printed
      ≡ keep is_text ("$ " ∷ "ls\n" ∷ []))
    × ((exchange xterm 1
          (map shown arrived ++ ends (recv_ended RecvError.eof) ∷ [])
          (new_client [])).ended
        ≡ some (recv_ended RecvError.eof))
    × ((receive (map sent (write_all plain takes outputs []) ++ stops RecvError.eof ∷ [])).printed
        ≡ keep is_text (progress_text plain "recovering" ∷ []))
    × ((receive (map sent (write_all plain takes outputs []) ++ stops RecvError.eof ∷ [])).ended
        ≡ some (recv_ended RecvError.eof))
write_all-exchange_example =
    write_all-exchange plain takes outputs xterm RecvError.eof (new_client []) (λ before m. refl)
      refl

abbrev chunk : String → Chunk
chunk text = record { text = text; error = none }

abbrev last : Chunk
last = record { text = ""; error = some end_of_input }

abbrev happens : List ClientEvent
happens = output (some "$ ") ∷ input (some "ls") ∷ winch ∷ input (some "exit") ∷ input none ∷ []

read_stdin-reads_of_example :
    (ms : List StdIn) × ((exec_cli_app xterm "ctr" "app" [] happens).client.sent
      ≡ first_message xterm "ctr" "app" [] ∷ ms)
    × (reads_of 32768 (gen_client_io_streams (some (80, 24)) never (map ok ms))
        ≡ copied "ls" ∷ copied "exit" ∷ [])
unfolding read_stdin
read_stdin-reads_of_example =
    read_stdin-reads_of 32768 xterm "ctr" "app" [] (chunk "ls" ∷ chunk "exit" ∷ last ∷ []) happens
      (omega arith) ((λ before m. refl), refl) (ground arith) tt refl
