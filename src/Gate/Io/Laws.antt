-- ===== src/Gate/Io/Laws.antt =====
-- What arrives in the container of what a client types (pkg/gate/io.go).
use Prim.Native.String.{len}
use cliapp.Base.{
  ℕ, suc, ◌≤◌, ◌≡◌, refl, ap, ◌∙◌, Bool, false, Option, none, some, List, [], ◌∷◌, ◌++◌, String,
  arith, All, map,
}
use cliapp.Controller.State.{Answer, ok, err}
use cliapp.Gate.Shell.{StdIn}
use cliapp.Gate.Io.{
  Received, with_size, with_input, loop, gen_client_io_streams, ReadResult, copied, read, read_all,
}

-- The texts of the requests, in order
abbrev pub texts_of : List StdIn → List String
texts_of [] = []
texts_of (req ∷ reqs) = req.input ++ texts_of reqs

abbrev pub never : ℕ → Bool
never n = false

-- A request holds one text at most, and it fits the buffer.
abbrev pub IsTyped : ℕ → List String → Type 0
IsTyped size [] = Unit
IsTyped size (t ∷ []) = len t ≤ size
IsTyped size (t ∷ u ∷ us) = ⊥

loop-stdin :
    (size n : ℕ) (reqs : List StdIn)
    → All (λ req. IsTyped size req.input) reqs
    → (loop never n (map ok reqs)).stdin ≡ texts_of reqs
unfolding loop
loop-stdin size n [] h = refl
loop-stdin size n (req ∷ reqs) (h, hs) =
    with_input-stdin req.terminal_size req.input h
    ∙ ap (λ s. req.input ++ s) (loop-stdin size (suc n) reqs hs)
  where
    with_input-stdin :
        (o : Option (ℕ × ℕ)) (input : List String)
        → IsTyped size input
        → (with_size o (with_input input (loop never (suc n) (map ok reqs)))).stdin
          ≡ input ++ (loop never (suc n) (map ok reqs)).stdin
    with_input-stdin none [] k = refl
    with_input-stdin none (t ∷ []) k = refl
    with_input-stdin none (t ∷ u ∷ us) k = absurd k
    with_input-stdin (some x) [] k = refl
    with_input-stdin (some x) (t ∷ []) k = refl
    with_input-stdin (some x) (t ∷ u ∷ us) k = absurd k

read_all-texts_of :
    (size : ℕ) (reqs : List StdIn)
    → All (λ req. IsTyped size req.input) reqs
    → read_all size false (texts_of reqs) ≡ map copied (texts_of reqs)
unfolding read_all read
read_all-texts_of size [] h = refl
read_all-texts_of size (req ∷ reqs) (h, hs) = typed req.input h (read_all-texts_of size reqs hs)
  where
    typed :
        (input : List String)
        → IsTyped size input
        → read_all size false (texts_of reqs) ≡ map copied (texts_of reqs)
        → read_all size false (input ++ texts_of reqs) ≡ map copied (input ++ texts_of reqs)
    typed [] k ih = ih
    typed (t ∷ []) k ih = ground arith
    typed (t ∷ u ∷ us) k ih = absurd k

-- The loop goes on behind such requests.
loop-ended :
    (size n : ℕ) (reqs : List StdIn)
    → All (λ req. IsTyped size req.input) reqs
    → (loop never n (map ok reqs)).ended ≡ false
unfolding loop
loop-ended size n [] h = refl
loop-ended size n (req ∷ reqs) (h, hs) =
    goes_on req.terminal_size req.input h (loop-ended size (suc n) reqs hs)
  where
    goes_on :
        (o : Option (ℕ × ℕ)) (input : List String)
        → IsTyped size input
        → (loop never (suc n) (map ok reqs)).ended ≡ false
        → (with_size o (with_input input (loop never (suc n) (map ok reqs)))).ended ≡ false
    goes_on none [] k ih = ih
    goes_on none (t ∷ []) k ih = ih
    goes_on none (t ∷ u ∷ us) k ih = absurd k
    goes_on (some x) [] k ih = ih
    goes_on (some x) (t ∷ []) k ih = ih
    goes_on (some x) (t ∷ u ∷ us) k ih = absurd k

-- What reads with a buffer of a size bring of a reader's channel
abbrev pub reads_of : ℕ → Received → List ReadResult
reads_of size r = read_all size r.ended r.stdin

-- Where each request of a client holds one text at most, each text fits the buffer of the reads, and
-- nobody closes the reader, the reads bring exactly the texts that the client sent, in order and whole,
-- and then wait.
pub reads_of-loop :
    (size : ℕ) (init_size : Option (ℕ × ℕ)) (reqs : List StdIn)
    → All (λ req. IsTyped size req.input) reqs
    → reads_of size (gen_client_io_streams init_size never (map ok reqs))
      ≡ map copied (texts_of reqs)
unfolding gen_client_io_streams
reads_of-loop size init_size reqs h = sized init_size
  where
    brought : reads_of size (loop never 0 (map ok reqs)) ≡ map copied (texts_of reqs)
    brought =
        ap (λ b. read_all size b (loop never 0 (map ok reqs)).stdin) (loop-ended size 0 reqs h)
        ∙ ap (read_all size false) (loop-stdin size 0 reqs h)
        ∙ read_all-texts_of size reqs h

    sized :
        (o : Option (ℕ × ℕ))
        → reads_of size (with_size o (loop never 0 (map ok reqs))) ≡ map copied (texts_of reqs)
    sized none = brought
    sized (some x) = brought

-- What Recv answered, as far as it is requests
abbrev pub texts_received : List (Answer StdIn) → List String
texts_received [] = []
texts_received (err e ∷ answers) = []
texts_received (ok req ∷ answers) = req.input ++ texts_received answers

abbrev pub IsPrefix : List String → List String → Type 0
IsPrefix [] ys = Unit
IsPrefix (x ∷ xs) [] = ⊥
IsPrefix (x ∷ xs) (y ∷ ys) = (x ≡ y) × IsPrefix xs ys

with_input-IsPrefix :
    (o : Option (ℕ × ℕ)) (input : List String) (r : Received) (texts : List String)
    → IsPrefix r.stdin texts
    → IsPrefix (with_size o (with_input input r)).stdin (input ++ texts)
with_input-IsPrefix none [] r texts h = h
with_input-IsPrefix none (t ∷ []) r texts h = (refl, h)
with_input-IsPrefix none (t ∷ u ∷ us) r texts h = tt
with_input-IsPrefix (some x) [] r texts h = h
with_input-IsPrefix (some x) (t ∷ []) r texts h = (refl, h)
with_input-IsPrefix (some x) (t ∷ u ∷ us) r texts h = tt

-- Whatever Recv answers, and whenever the reader is closed, the container gets a prefix of the texts
-- that the client sent before the first error: nothing is invented, doubled or put in another order.
loop-IsPrefix :
    (closed : ℕ → Bool) (n : ℕ) (answers : List (Answer StdIn))
    → IsPrefix (loop closed n answers).stdin (texts_received answers)
unfolding loop
loop-IsPrefix closed n [] = tt
loop-IsPrefix closed n (err e ∷ answers) = tt
loop-IsPrefix closed n (ok req ∷ answers) = ground (
  arith,
  with_input-IsPrefix req.terminal_size req.input (loop closed (suc n) answers)
      (texts_received answers) (loop-IsPrefix closed (suc n) answers),
)
