-- ===== src/Errors.antt =====
-- The errors of frisbee.go, conn.go, server.go and stream.go, those of the Go library that the
-- code meets, and errors.Is for the one error that the code asks about.
use frisbee_go.Prelude.{ℕ, Bool, true, false, ◌||◌, Option, none, some}

pub data Error : Type 0 where
  invalid_content_length : Error
  connection_closed : Error
  stream_closed : Error
  invalid_stream_packet : Error
  connection_not_initialized : Error
  invalid_magic_header : Error
  invalid_buffer_length : Error
  invalid_handler_table : Error
  invalid_operation : Error
  content_length_exceeded : Error
  not_tls_connection_error : Error
  on_closed_nil : Error
  pre_write_nil : Error
  listener_nil : Error
  -- `io.EOF`, `io.ErrUnexpectedEOF`, and any other error of the network or of a library.
  eof : Error
  unexpected_eof : Error
  external : ℕ → Error
  -- `errors.Join`.
  join : Error → Error → Error

-- `errors.Is(err, ConnectionClosed)` for an error that is not nil.
abbrev pub is_connection_closed : Error → Bool
is_connection_closed connection_closed = true
is_connection_closed (join e f) = is_connection_closed e || is_connection_closed f
is_connection_closed _ = false

-- The same for an error that may be nil.
abbrev pub wraps_connection_closed : Option Error → Bool
wraps_connection_closed none = false
wraps_connection_closed (some e) = is_connection_closed e
