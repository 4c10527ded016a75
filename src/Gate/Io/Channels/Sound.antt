-- ===== src/Gate/Io/Channels/Sound.antt =====
-- What goes through the channels of clientReader (pkg/gate/io.go) in any order of turns.
use cliapp.Base.{
  ℕ, suc, zero, ◌+◌, ◌≡◌, refl, Bool, true, false, Option, none, some, List, [], ◌∷◌, ◌++◌, String,
  get_elem?, if◌then◌else◌, arith,
}
use cliapp.Controller.State.{Answer}
use cliapp.Gate.Shell.{StdIn}
use cliapp.Gate.Io.{TerminalSize, terminal_size}
use cliapp.Gate.Io.Channels.Along.{IfRuns, run_reader-Within, any_turns}
use cliapp.Gate.Io.Channels.{
  Stage, ended, offering, Trace, runs, crashes, new_reader, advance, finish, take_answer,
  receive_request, without, send_size, put_size, is_ended, close_reader, begin_next, end_next,
  try_read, Event, advances, closes, begins_next, ends_next, receives, sends, reads_up_to, step,
  run_reader,
}

-- How many pass a test.
abbrev pub count : (TerminalSize → Bool) → List TerminalSize → ℕ
count p [] = 0
count p (x ∷ xs) = if p x then suc (count p xs) else count p xs

abbrev pub list_of : {A : Type 0} → Option A → List A
list_of none = []
list_of (some a) = a ∷ []

abbrev pub texts_read : List (ℕ × Option String) → List String
texts_read [] = []
texts_read ((size, o) ∷ rs) = list_of o ++ texts_read rs

abbrev pub sizes_given : List (Option TerminalSize) → List TerminalSize
sizes_given [] = []
sizes_given (o ∷ os) = list_of o ++ sizes_given os

-- A request of more than one text ends the loop, and its texts go nowhere.
abbrev pub text_of : List String → List String
text_of (text ∷ []) = text ∷ []
text_of texts = []

abbrev pub texts_sent : List StdIn → List String
texts_sent [] = []
texts_sent (req ∷ reqs) = text_of req.input ++ texts_sent reqs

abbrev sizes_of : Option (ℕ × ℕ) → List TerminalSize
sizes_of none = []
sizes_of (some size) = terminal_size size ∷ []

abbrev pub sizes_sent : List StdIn → List TerminalSize
sizes_sent [] = []
sizes_sent (req ∷ reqs) = sizes_of req.terminal_size ++ sizes_sent reqs

abbrev pub offered : Stage → List String
offered (offering text) = text ∷ []
offered stage = []

-- The texts arrive in their order, none is lost or read twice, and each size is with its goroutine, in
-- the buffer, or given to Next, once. The flag is set behind the end of the loop.
pub record IsFaithful (init : Option (ℕ × ℕ)) (t : Trace) : Type 0 where
  pub texts : offered t.reader.stage ++ texts_read t.reads ≡ texts_sent t.requests
  pub sizes :
      (p : TerminalSize → Bool)
      → count p t.reader.senders
          + (count p (list_of t.reader.buffer) + count p (sizes_given t.sizes))
        ≡ count p (sizes_sent t.requests) + count p (sizes_of init)
  pub flag : t.reader.stage ≡ ended → t.reader.closed ≡ true

count-without :
    (p : TerminalSize → Bool) (n : ℕ) (x : TerminalSize) (xs : List TerminalSize)
    → get_elem? xs n ≡ some x
    → count p xs ≡ count p (x ∷ without n xs)
count-without p n x [] e = ground arith
count-without p zero x (y ∷ ys) e = ground arith
count-without p (suc n) x (y ∷ ys) e = ground (arith, count-without p n x ys e)

module _ (init : Option (ℕ × ℕ)) (t : Trace) (h : IsFaithful init t) where
  advance-IsFaithful : IsFaithful init (record t { reader = advance t.reader })
  unfolding advance finish
  advance-IsFaithful = record {
    texts = ground (arith, h.texts);
    sizes = λ p. ground (arith, h.sizes p);
    flag = ground (arith, h.flag);
  }

  receive_request-IsFaithful : (a : Answer StdIn) → IsFaithful init (receive_request a t)
  unfolding receive_request take_answer finish
  receive_request-IsFaithful a = record {
    texts = ground (arith, h.texts);
    sizes = λ p. ground (arith, h.sizes p);
    flag = ground (arith, h.flag);
  }

  put_size-IsFaithful :
      (n : ℕ) (x : TerminalSize)
      → get_elem? t.reader.senders n ≡ some x
      → IsFaithful init (record t { reader = put_size n x t.reader })
  put_size-IsFaithful n x e = record {
    texts = ground (arith, h.texts);
    sizes = λ p. ground (arith, h.sizes p, count-without p n x t.reader.senders e);
    flag = ground (arith, h.flag);
  }

  send_size-IsFaithful : (n : ℕ) → IfRuns (IsFaithful init) (send_size n t)
  unfolding send_size
  send_size-IsFaithful n = sent (get_elem? t.reader.senders n) (put_size-IsFaithful n)
    where
      unless_ended :
          {u : Trace} (b : Bool)
          → IsFaithful init u
          → IfRuns (IsFaithful init) (if b then crashes else runs u)
      unless_ended true k = tt
      unless_ended false k = k

      sent :
          (o : Option TerminalSize)
          → ((x : TerminalSize)
              → o ≡ some x
              → IsFaithful init (record t { reader = put_size n x t.reader }))
          → IfRuns (IsFaithful init) (elim o [
            | none ↦ runs t
            | some x ↦
                (if is_ended t.reader.stage
                  then crashes
                  else runs (record t { reader = put_size n x t.reader }))
          ])
      sent none k = h
      sent (some x) k = unless_ended (is_ended t.reader.stage) (k x refl)

  close_reader-IsFaithful : IsFaithful init (close_reader t)
  unfolding close_reader
  close_reader-IsFaithful = record { texts = h.texts; sizes = h.sizes; flag = λ e. refl }

  begin_next-IsFaithful : IsFaithful init (begin_next t)
  unfolding begin_next
  begin_next-IsFaithful = record {
    texts = ground (arith, h.texts);
    sizes = λ p. ground (arith, h.sizes p);
    flag = ground (arith, h.flag);
  }

  end_next-IsFaithful : IsFaithful init (end_next t)
  unfolding end_next
  end_next-IsFaithful = record {
    texts = ground (arith, h.texts);
    sizes = λ p. ground (arith, h.sizes p);
    flag = ground (arith, h.flag);
  }

  try_read-IsFaithful : (size : ℕ) → IsFaithful init (try_read size t)
  unfolding try_read
  try_read-IsFaithful size = record {
    texts = ground (arith, h.texts);
    sizes = λ p. ground (arith, h.sizes p);
    flag = ground (arith, h.flag);
  }

  step-IsFaithful : (e : Event) → IfRuns (IsFaithful init) (step e t)
  unfolding step
  step-IsFaithful advances = advance-IsFaithful
  step-IsFaithful closes = close_reader-IsFaithful
  step-IsFaithful begins_next = begin_next-IsFaithful
  step-IsFaithful ends_next = end_next-IsFaithful
  step-IsFaithful (receives a) = receive_request-IsFaithful a
  step-IsFaithful (sends n) = send_size-IsFaithful n
  step-IsFaithful (reads_up_to size) = try_read-IsFaithful size

-- Whatever the order of the turns of the goroutines, and as long as none crashes: the texts that Read
-- received and the one that the loop offers are those that the client sent, in their order; each size
-- that the client sent waits in a goroutine, is in the buffer, or was given to Next, once; and the
-- flag is set if the loop has ended.
pub run_reader-new_reader :
    (init : Option (ℕ × ℕ)) (es : List Event)
    → IfRuns (IsFaithful init) (run_reader es (new_reader init))
unfolding new_reader
run_reader-new_reader init es =
    run_reader-Within Unit (IsFaithful init) (λ e. Unit {0}) (λ e t q h. step-IsFaithful init t h e)
      es (new_reader init) (any_turns es) (fresh init)
  where
    fresh : (i : Option (ℕ × ℕ)) → IsFaithful i (new_reader i)
    fresh none = record { texts = refl; sizes = λ p. refl; flag = ground arith }
    fresh (some size) = record { texts = refl; sizes = λ p. ground arith; flag = ground arith }
