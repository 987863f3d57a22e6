-- ===== src/Async/Framing/Examples.antt =====
-- The read loop of async.go on concrete reads, with a state that logs what is delivered.
use frisbee_go.Prelude.{ℕ, ◌+◌, ◌<◌, ◌≡◌, refl, inl, inr, List, [], ◌∷◌, ◌++◌, ltb, arith}
use frisbee_go.Metadata.{get_fields}
use frisbee_go.Errors.{eof, external}
use frisbee_go.Concrete.{list_buffer}
use frisbee_go.Async.Framing.{
  Attempt, chunk, failure, fill, next, closes, Handlers, refill, finish_turn, grow_cap, deliver,
  short_content, long_content, read_content, read_body, read_frame, turn, read_loop,
}
use frisbee_go.Async.Framing.Spec.{breaks, arriving, FrameHandlers, all_frames, map_end, Implements}
use frisbee_go.Async.Framing.Refinement.{read_loop-frames}
use frisbee_go.Async.Framing.Total.{read_loop-Ended}
use frisbee_go.Async.Framing.Ends.{Ended}

-- The identifiers and contents that were delivered.
abbrev Log : Type 0
Log = List (ℕ × List ℕ)

abbrev logging : Handlers Log ℕ (List ℕ)
logging = record {
  get = λ log. (
    record {
      metadata = record { magic = 0; id = 0; operation = 0; content_length = 0 };
      content = [];
    },
    log,
  );
  is_control = λ op. ltb op 2;
  control = λ log p. next log;
  look = λ log p. p.metadata.operation;
  deliver = λ log found p. next (log ++ (p.metadata.id, p.content) ∷ []);
}

abbrev logging_frames : FrameHandlers Log ℕ
logging_frames = record {
  is_control = λ op. ltb op 2;
  control = λ log m. next log;
  look = λ log m. m.operation;
  deliver = λ log found m content. next (log ++ (m.id, content) ∷ []);
}

abbrev same_log : Log → Log
same_log log = log

logging-Implements : Implements list_buffer same_log logging logging_frames
logging-Implements = record {
  get_clean = λ st. refl;
  get_view = λ st. refl;
  same_control = λ op. refl;
  control_view = λ st p. refl;
  look_view = λ st p. refl;
  deliver_view = λ st found p. refl;
}

abbrev double : ℕ → ℕ
double c = c + c + 1

double-grows : (c : ℕ) → c < double c
double-grows c = omega arith

-- Two packets and a PING, in pieces; the first content is longer than the buffer of twelve bytes,
-- and the error comes with the last bytes.
abbrev pieces : List Attempt
pieces =
    chunk (0 ∷ 15 ∷ 0 ∷ 7 ∷ [])
    ∷ chunk (0 ∷ 10 ∷ 0 ∷ 0 ∷ 0 ∷ 20 ∷ 1 ∷ 2 ∷ 3 ∷ [])
    ∷ chunk
        (4 ∷ 5 ∷ 6 ∷ 7 ∷ 8 ∷ 9 ∷ 10 ∷ 11 ∷ 12 ∷ 13 ∷ 14 ∷ 15 ∷ 16 ∷ 17 ∷ 18 ∷ 19 ∷ 20 ∷ 0 ∷ 15 ∷ [])
    ∷ chunk (0 ∷ 0 ∷ 0 ∷ 0 ∷ 0 ∷ 0 ∷ 0 ∷ 0 ∷ 0 ∷ 15 ∷ 0 ∷ 8 ∷ 0 ∷ 11 ∷ 0 ∷ 0 ∷ [])
    ∷ failure (0 ∷ 1 ∷ 99 ∷ []) eof
    ∷ failure [] eof
    ∷ []

abbrev delivered : Log
delivered =
    (
      7,
      1 ∷ 2 ∷ 3 ∷ 4 ∷ 5 ∷ 6 ∷ 7 ∷ 8 ∷ 9 ∷ 10 ∷ 11 ∷ 12 ∷ 13 ∷ 14 ∷ 15 ∷ 16 ∷ 17 ∷ 18 ∷ 19 ∷ 20 ∷ [],
    )
    ∷ (8, 99 ∷ [])
    ∷ []

reads_pieces : read_loop logging 100 double 60 12 pieces [] ≡ closes eof delivered
unfolding read_loop turn read_frame get_fields read_body read_content long_content short_content
    deliver finish_turn refill fill grow_cap
reads_pieces = refl

read_loop-frames_example :
    map_end same_log (read_loop logging 100 double 61 12 pieces [])
    ≡ all_frames logging_frames 100 (breaks eof) 60 [] (arriving pieces)
read_loop-frames_example =
    read_loop-frames same_log logging logging_frames logging-Implements 100 double double-grows
      (breaks eof) 60 12 pieces [] (refl, inr (refl, (refl, inl refl))) (omega arith) (omega arith)

-- A read returns a header together with an error, and the next one the content.
abbrev patient : List Attempt
patient =
    failure (0 ∷ 15 ∷ 0 ∷ 8 ∷ 0 ∷ 11 ∷ 0 ∷ 0 ∷ 0 ∷ 1 ∷ []) (external 1)
    ∷ chunk (99 ∷ [])
    ∷ failure (1 ∷ []) eof
    ∷ chunk (2 ∷ [])
    ∷ []

goes_on : read_loop logging 100 double 15 12 patient [] ≡ closes eof ((8, 99 ∷ []) ∷ [])
unfolding read_loop turn read_frame get_fields read_body read_content long_content short_content
    deliver finish_turn refill fill grow_cap
goes_on = refl

read_loop-Ended_example : Ended (read_loop logging 100 double 15 12 patient [])
read_loop-Ended_example =
    read_loop-Ended logging 100 double double-grows 14 12 patient [] (omega arith) (omega arith)
